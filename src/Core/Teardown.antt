-- ===== src/Core/Teardown.antt =====
-- What a shutdown asks of the services, and what it records.
use mathlib.Core.List.{append-nil, append_assoc}
use gwf.Common.{
  ℕ, refl, sym, Option, none, some, List, contains, ◌≡◌, ◌∙◌, ◌∷◌, ◌++◌, [], if◌then◌else◌, ℕ_eq,
}
use gwf.Graph.{ServiceGraph}
use gwf.Graph.Wiring.{IsWired}
use gwf.Graph.Levels.{levels}
use gwf.Core.{
  Failure, Report, terminate, Walk, Shutdown, terminate_node, terminate_level, terminate_levels,
  terminate_services, first, level_error,
}
use gwf.Core.Order.{Follows, NeededBy, end_order-levels}
use gwf.Core.Boot.{ends, ends-append}

ends-terminate_level :
    (report : ℕ → Report) (ns : List ℕ) (w : Walk)
    → ends (terminate_level report ns w).calls ≡ ends w.calls ++ ns
unfolding terminate_level terminate_node
ends-terminate_level report [] w = sym (append-nil (ends w.calls))
ends-terminate_level report (n ∷ ns) w =
    ends-terminate_level report ns (terminate_node report n w).0
    ∙ rw (ends-append w.calls (terminate n ∷ [])) (append_assoc (ends w.calls) (n ∷ []) ns)

-- The errors of the services of some levels, in the order of the levels.
abbrev pub first_error : (ℕ → Report) → List (List ℕ) → Option Failure
first_error report [] = none
first_error report (l ∷ ls) = first (level_error report l) (first_error report ls)

first_assoc {ℓ} : {A : Type ℓ} (a b c : Option A) → first (first a b) c ≡ first a (first b c)
first_assoc none b c = refl
first_assoc (some a) b c = refl

first-none {ℓ} : {A : Type ℓ} (a : Option A) → first a none ≡ a
first-none none = refl
first-none (some a) = refl

err-terminate_levels :
    (order : List ℕ → List ℕ) (report : ℕ → Report) (ls : List (List ℕ)) (e : Option Failure)
    (s : Shutdown)
    → (terminate_levels order report ls e s).shutdown_err
      ≡ (if s.shutdown_done then s.shutdown_err else first e (first_error report ls))
unfolding terminate_levels
err-terminate_levels order report [] e s = rw (first-none e) refl
err-terminate_levels order report (l ∷ ls) e s =
    err-terminate_levels order report ls (first e (level_error report l)) _
    ∙ rw (first_assoc e (level_error report l) (first_error report ls)) refl

-- The services of the levels, as `order` reaches those of each.
module _ (order : List ℕ → List ℕ) (report : ℕ → Report) where
  abbrev flat : List (List ℕ) → List ℕ
  flat [] = []
  flat (l ∷ ls) = order l ++ flat ls

  ends-terminate_levels :
      (ls : List (List ℕ)) (e : Option Failure) (s : Shutdown)
      → ends (terminate_levels order report ls e s).walk.calls ≡ ends s.walk.calls ++ flat ls
  unfolding terminate_levels
  ends-terminate_levels [] e s = sym (append-nil (ends s.walk.calls))
  ends-terminate_levels (l ∷ ls) e s =
      ends-terminate_levels ls _ _
      ∙ rw (ends-terminate_level report (order l) s.walk)
          (append_assoc (ends s.walk.calls) (order l) (flat ls))

-- In a wired registry, however the services of one level interleave, a shutdown with an empty
-- log asks no service to end before each of the services that depend on it has been.
pub shutdown_order :
    (order : List ℕ → List ℕ) (report : ℕ → Report) (g : ServiceGraph) (s : Shutdown)
    → ((l : List ℕ) (i : ℕ) → contains (order l) i ≡ contains l i)
    → IsWired g
    → s.walk.calls ≡ []
    → Follows (NeededBy g) [] (ends (terminate_services order report g s).walk.calls)
unfolding terminate_services
shutdown_order order report g s same v fresh =
    rw (ends-terminate_levels order report (levels g) none s, fresh)
      (end_order-levels g v order same)

-- The first shutdown keeps the first error of the services, level by level; a later one keeps what
-- is recorded.
pub shutdown_err_lem :
    (order : List ℕ → List ℕ) (report : ℕ → Report) (g : ServiceGraph) (s : Shutdown)
    → (terminate_services order report g s).shutdown_err
      ≡ (if s.shutdown_done then s.shutdown_err else first_error report (levels g))
unfolding terminate_services
shutdown_err_lem order report g s = err-terminate_levels order report (levels g) none s
