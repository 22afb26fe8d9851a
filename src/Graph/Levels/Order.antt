-- ===== src/Graph/Levels/Order.antt =====
-- What each level holds.
use mathlib.Core.List.{append-nil, append_assoc}
use gwf.Common.{
  ℕ, zero, suc, refl, sym, inl, inr, true, List, arith, nat_eq, Bool-cases, length, get_or,
  replicate, length-set, length-replicate, get_or-set_self, get_or-set_ne, ◌+◌, ◌≤◌, ◌<◌, ◌≡◌, ◌∙◌,
  ◌≢◌, ◌∷◌, ◌++◌, [], if◌then◌else◌,
}
use gwf.Graph.{ServiceNode, ServiceGraph, seal}
use gwf.Graph.Wiring.{IsWired}
use gwf.Graph.Levels.{ranks, fill, levels, levels_of}
use gwf.Graph.Levels.Rank.{rank-le-highest}

-- The slots from `i` on, `n` of them.
abbrev pub slots : ℕ → ℕ → List ℕ
slots i zero = []
slots i (suc n) = i ∷ slots (suc i) n

-- Those slots that the ranks put on level `k`.
abbrev pub ranked : List ℕ → ℕ → List ℕ → List ℕ
ranked lvl k [] = []
ranked lvl k (i ∷ is) = if nat_eq (get_or lvl i 0) k then i ∷ ranked lvl k is else ranked lvl k is

same_self : (k : ℕ) → nat_eq k k ≡ true
same_self k = ground arith

get_or-fill :
    (ns : List ServiceNode) (lvl : List ℕ) (i : ℕ) (out : List (List ℕ)) (k : ℕ)
    → ((j : ℕ) → get_or lvl j 0 < length out)
    → get_or (fill ns lvl i out) k [] ≡ get_or out k [] ++ ranked lvl k (slots i (length ns))
unfolding fill
get_or-fill [] lvl i out k h = sym (append-nil (get_or out k []))
get_or-fill (n ∷ ns) lvl i out k h =
    get_or-fill ns lvl (suc i) _ k (λ j. rw (length-set out (get_or lvl i 0) _) (h j))
    ∙ elim (Bool-cases (nat_eq (get_or lvl i 0) k)) [
      | inl here ↦
          (let same : get_or lvl i 0 ≡ k = ground arith in
            let inside = h i in
            rw
              (
                same,
                get_or-set_self out k (get_or out k [] ++ i ∷ []) [] (omega arith),
                append_assoc (get_or out k []) (i ∷ []) (ranked lvl k (slots (suc i) (length ns))),
              )
              (rw (same_self k) refl))
      | inr other ↦
          (let apart : get_or lvl i 0 ≢ k = ground arith in
            rw
              (
                get_or-set_ne out (get_or lvl i 0) k (get_or out (get_or lvl i 0) [] ++ i ∷ []) []
                    apart,
                other,
              )
              refl)
    ]

abbrev blank : List ℕ
blank = []

get_or-blank : (n k : ℕ) → get_or (replicate n blank) k [] ≡ []
get_or-blank zero k = refl
get_or-blank (suc n) zero = refl
get_or-blank (suc n) (suc k) = get_or-blank n k

levels_of_lem :
    (ns : List ServiceNode) (k : ℕ)
    → ((j : ℕ) → get_or (ranks ns).lvl j 0 ≤ (ranks ns).highest)
    → get_or (levels_of ns) k [] ≡ ranked (ranks ns).lvl k (slots 0 (length ns))
unfolding levels_of
levels_of_lem [] k h = refl
levels_of_lem (n ∷ ns) k h =
    get_or-fill (n ∷ ns) _ 0 _ k
      (λ j. rw (length-replicate ((ranks (n ∷ ns)).highest + 1) blank) (omega (arith, h j)))
    ∙ rw (get_or-blank ((ranks (n ∷ ns)).highest + 1) k) refl

-- In a wired registry level `k` holds the services of rank `k`, each of them once, in the order
-- of their registration.
pub levels_lem :
    (g : ServiceGraph) (k : ℕ)
    → IsWired g
    → get_or (levels g) k [] ≡ ranked (ranks g.nodes).lvl k (slots 0 (length g.nodes))
unfolding levels
levels_lem g k v = levels_of_lem g.nodes k (λ j. rank-le-highest g j v)

-- Sealing does not change how the services are grouped.
pub levels-seal : (g : ServiceGraph) → levels (seal g).0 ≡ levels g
unfolding seal levels
levels-seal g = refl
