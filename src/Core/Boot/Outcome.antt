-- ===== src/Core/Boot/Outcome.antt =====
-- What a whole boot comes to.
use gwf.Common.{
  ℕ, refl, sym, ap, inl, inr, true, false, Option, none, some, List, Option-cases, ok, err, length,
  get_or, subst, ◌<◌, ◌≡◌, ◌∙◌, ◌⊎◌, ◌∷◌, ◌++◌, [], if◌then◌else◌, ℕ_eq,
}
use gwf.Graph.{ServiceGraph, Refusal, seal}
use gwf.Graph.Levels.Order.{levels-seal}
use gwf.Graph.Wiring.{IsWired}
use gwf.Graph.Levels.{levels}
use gwf.Core.{
  Failure, Report, Walk, BootWalk, BootError, going, stopped, start_nodes, start_services,
  boot_result, refused,
}
use gwf.Core.Order.{Follows, DependsOn, start_order, start_order-levels, start_order_all}
use gwf.Core.Boot.{
  starts, ends, backwards, begun, tried, some_fails, walk_of, start_levels_flat, starts-start_nodes,
  ends-start_nodes,
}
use gwf.Core.Boot.Admits.{
  AdmitsStarted, start_nodes-AdmitsStarted, going_through, broken_off, none_fails,
}

module _ (outcome : ℕ → Option Failure) (report : ℕ → Report) where
  tried-Follows :
      (before : ℕ → ℕ → Type 0) (done ns : List ℕ)
      → Follows before done ns
      → Follows before done (tried outcome ns)
  tried-Follows before done [] h = tt
  tried-Follows before done (n ∷ ns) h = elim (Option-cases (outcome n)) [
    | inl e ↦ rw e (h.0, tried-Follows before (done ++ n ∷ []) ns h.1)
    | inr e ↦ rw (e.1) (h.0, tt)
  ]

  boot_walk : (b : BootWalk) → (boot_result b).0 ≡ walk_of b
  unfolding boot_result
  boot_walk (going started w) = refl
  boot_walk (stopped w e) = refl

  -- A boot over a settled graph is a walk along the start order.
  pub start_services_ok :
      (g : ServiceGraph) (w : Walk)
      → (seal g).1 ≡ ok tt
      → (start_services outcome report g w).1
        ≡ boot_result (start_nodes outcome report (start_order (levels g)) [] w)
  unfolding start_services
  start_services_ok g w h =
      rw (start_services, h, levels-seal g)
        (ap boot_result (start_levels_flat outcome report (levels g) w))

  boot_walk_ok :
      (g : ServiceGraph) (w : Walk)
      → (seal g).1 ≡ ok tt
      → (start_services outcome report g w).1.0
        ≡ walk_of (start_nodes outcome report (start_order (levels g)) [] w)
  boot_walk_ok g w h = ap (λ r. r.0) (start_services_ok g w h) ∙ boot_walk _

  start_services_err :
      (g : ServiceGraph) (w : Walk) (e : Refusal)
      → (seal g).1 ≡ err e
      → (start_services outcome report g w).1 ≡ (w, some (refused e))
  unfolding start_services
  start_services_err g w e h = rw (start_services, h) refl

seal-cases : (g : ServiceGraph) → ((seal g).1 ≡ ok tt) ⊎ ((e : Refusal) × ((seal g).1 ≡ err e))
seal-cases g = elim ((seal g).1) as (λ r. (r ≡ ok tt) ⊎ ((e : Refusal) × (r ≡ err e))) [
  | ok _ ↦ inl refl
  | err e ↦ inr (e, refl)
]

-- In a wired registry, whatever a boot with an empty log comes to, no service is asked to start
-- before each of the services that it depends on has been.
pub boot_order :
    (outcome : ℕ → Option Failure) (report : ℕ → Report) (g : ServiceGraph) (w : Walk)
    → IsWired g
    → w.calls ≡ []
    → Follows (DependsOn g) [] (starts (start_services outcome report g w).1.0.calls)
boot_order outcome report g w v fresh = elim (seal-cases g) [
  | inl h ↦
      rw
        (
          boot_walk_ok outcome report g w h,
          starts-start_nodes outcome report (start_order (levels g)) [] w,
          fresh,
        )
        (tried-Follows outcome report (DependsOn g) [] (start_order (levels g))
          (start_order-levels g v))
  | inr h ↦ rw (start_services_err outcome report g w h.0 h.1, fresh) tt
]

-- A boot of a graph that seals, with an empty log, ends nothing if every service starts;
-- otherwise it ends what had started before the first failure, the last of it first.
pub boot_rollback :
    (outcome : ℕ → Option Failure) (report : ℕ → Report) (g : ServiceGraph) (w : Walk)
    → (seal g).1 ≡ ok tt
    → w.calls ≡ []
    → ends (start_services outcome report g w).1.0.calls ≡ (
        if some_fails outcome (start_order (levels g))
        then backwards (begun outcome (start_order (levels g)))
        else [])
boot_rollback outcome report g w h fresh =
    ap (λ v. ends v.calls) (boot_walk_ok outcome report g w h)
    ∙ ends-start_nodes outcome report (start_order (levels g)) [] w
    ∙ rw fresh refl

-- A boot that fails leaves a slot that has a flag of admission not admitted, if it was not when
-- the boot began.
pub boot_failed :
    (outcome : ℕ → Option Failure) (report : ℕ → Report) (g : ServiceGraph) (w : Walk)
    (e : BootError) (i : ℕ)
    → get_or w.admitted i false ≡ false
    → i < length w.admitted
    → (start_services outcome report g w).1.1 ≡ some e
    → get_or (start_services outcome report g w).1.0.admitted i false ≡ false
boot_failed outcome report g w e i none_yet lt h = elim (seal-cases g) [
  | inl sealed ↦
      (let eq = start_services_ok outcome report g w sealed in
        rw eq (
          broken_off outcome report i (start_nodes outcome report (start_order (levels g)) [] w) e
            (start_nodes-AdmitsStarted outcome report (start_order (levels g)) [] w i lt none_yet)
            (rw (sym eq) h)))
  | inr refusal ↦ rw (start_services_err outcome report g w refusal.0 refusal.1) none_yet
]

-- A boot of a wired graph that seals, in which every service starts, succeeds and admits each
-- registered service that was not admitted and has a flag of admission.
pub boot_ok :
    (outcome : ℕ → Option Failure) (report : ℕ → Report) (g : ServiceGraph) (w : Walk) (i : ℕ)
    → IsWired g
    → (seal g).1 ≡ ok tt
    → ((n : ℕ) → outcome n ≡ none)
    → get_or w.admitted i false ≡ false
    → i < length w.admitted
    → i < length g.nodes
    → ((start_services outcome report g w).1.1 ≡ none)
      × (get_or (start_services outcome report g w).1.0.admitted i false ≡ true)
unfolding boot_result
boot_ok outcome report g w i v sealed all_start none_yet lt registered =
    let through =
      going_through outcome report (start_order (levels g)) [] w
        (none_fails outcome report _ all_start) in
    let admits =
      start_nodes-AdmitsStarted outcome report (start_order (levels g)) [] w i lt none_yet in
    rw (start_services_ok outcome report g w sealed, through.1)
      (
        refl,
        subst (AdmitsStarted outcome report i) through.1 admits ∙ start_order_all g v i registered,
      )
