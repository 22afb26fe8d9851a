-- ===== src/Core/Boot.antt =====
-- What a boot asks of the services, and what it leaves admitted.
pub mod Admits
pub mod Outcome
use mathlib.Core.List.{append-nil, append_assoc}
use gwf.Common.{
  ℕ, refl, sym, ap, inl, inr, Bool, true, false, Option, none, some, List, Option-cases, set,
  is_some, ◌≡◌, ◌∙◌, ◌||◌, ◌∷◌, ◌++◌, [], if◌then◌else◌, ℕ_eq,
}
use gwf.Graph.{ServiceGraph, Refusal, seal}
use gwf.Graph.Levels.Order.{levels-seal}
use gwf.Graph.Wiring.{IsWired}
use gwf.Graph.Levels.{levels}
use gwf.Core.{
  Failure, Report, Call, start, terminate, pause, Walk, BootWalk, BootError, going, stopped,
  and_then, terminate_node, rollback_started, start_nodes, start_levels, start_services,
  boot_result, refused,
}
use gwf.Core.Order.{Follows, DependsOn, start_order, start_order-levels, start_order_all}

-- The services that a log asks to start, and those that it asks to end.
abbrev pub starts : List Call → List ℕ
starts [] = []
starts (start n ∷ cs) = n ∷ starts cs
starts (terminate n ∷ cs) = starts cs
starts (pause n ∷ cs) = starts cs

abbrev pub ends : List Call → List ℕ
ends [] = []
ends (start n ∷ cs) = ends cs
ends (terminate n ∷ cs) = n ∷ ends cs
ends (pause n ∷ cs) = ends cs

pub starts-append : (xs ys : List Call) → starts (xs ++ ys) ≡ starts xs ++ starts ys
starts-append [] ys = refl
starts-append (start n ∷ xs) ys = ap (λ l. n ∷ l) (starts-append xs ys)
starts-append (terminate n ∷ xs) ys = starts-append xs ys
starts-append (pause n ∷ xs) ys = starts-append xs ys

pub ends-append : (xs ys : List Call) → ends (xs ++ ys) ≡ ends xs ++ ends ys
ends-append [] ys = refl
ends-append (start n ∷ xs) ys = ends-append xs ys
ends-append (terminate n ∷ xs) ys = ap (λ l. n ∷ l) (ends-append xs ys)
ends-append (pause n ∷ xs) ys = ends-append xs ys

abbrev pub backwards : List ℕ → List ℕ
backwards [] = []
backwards (n ∷ ns) = backwards ns ++ n ∷ []

-- Those that start before one fails, and those that are tried.
abbrev pub begun : (ℕ → Option Failure) → List ℕ → List ℕ
begun outcome [] = []
begun outcome (n ∷ ns) = let rest = begun outcome ns in if is_some (outcome n) then [] else n ∷ rest

abbrev pub tried : (ℕ → Option Failure) → List ℕ → List ℕ
tried outcome [] = []
tried outcome (n ∷ ns) =
    let rest = tried outcome ns in n ∷ (if is_some (outcome n) then [] else rest)

abbrev pub some_fails : (ℕ → Option Failure) → List ℕ → Bool
some_fails outcome [] = false
some_fails outcome (n ∷ ns) = is_some (outcome n) || some_fails outcome ns

abbrev pub walk_of : BootWalk → Walk
walk_of (going started w) = w
walk_of (stopped w e) = w

module _ (outcome : ℕ → Option Failure) (report : ℕ → Report) where
  after_start : ℕ → Walk → Walk
  after_start n w = record w { calls = w.calls ++ start n ∷ []; admitted = set w.admitted n true }

  start_nodes_on :
      (n : ℕ) (ns started : List ℕ) (w : Walk)
      → outcome n ≡ none
      → start_nodes outcome report (n ∷ ns) started w
        ≡ start_nodes outcome report ns (started ++ n ∷ []) (after_start n w)
  unfolding start_nodes after_start
  start_nodes_on n ns started w e = rw (start_nodes, e) refl

  start_nodes_off :
      (n : ℕ) (ns started : List ℕ) (w : Walk) (f : Failure)
      → outcome n ≡ some f
      → start_nodes outcome report (n ∷ ns) started w
        ≡ stopped (rollback_started report started (record w { calls = w.calls ++ start n ∷ [] })) f
  unfolding start_nodes
  start_nodes_off n ns started w f e = rw (start_nodes, e) refl

  start_nodes-append :
      (xs ys started : List ℕ) (w : Walk)
      → start_nodes outcome report (xs ++ ys) started w
        ≡ and_then (start_nodes outcome report xs started w) (start_nodes outcome report ys)
  unfolding start_nodes
  start_nodes-append [] ys started w = refl
  start_nodes-append (x ∷ xs) ys started w = elim (Option-cases (outcome x)) [
    | inl e ↦
        rw (start_nodes_on x (xs ++ ys) started w e, start_nodes_on x xs started w e)
          (start_nodes-append xs ys _ _)
    | inr e ↦
        rw (start_nodes_off x (xs ++ ys) started w e.0 e.1, start_nodes_off x xs started w e.0 e.1)
          refl
  ]

  -- A boot walks one list.
  pub start_levels_flat :
      (ls : List (List ℕ)) (w : Walk)
      → start_levels outcome report ls w ≡ start_nodes outcome report (start_order ls) [] w
  unfolding start_levels start_nodes
  start_levels_flat [] w = refl
  start_levels_flat (l ∷ ls) w =
      rw (start_levels_flat ls w, start_nodes-append (start_order ls) l [] w) refl

  starts-rollback_started :
      (ns : List ℕ) (w : Walk) → starts (rollback_started report ns w).calls ≡ starts w.calls
  unfolding rollback_started terminate_node
  starts-rollback_started [] w = refl
  starts-rollback_started (n ∷ ns) w =
      starts-append (rollback_started report ns w).calls (terminate n ∷ [])
      ∙ append-nil (starts (rollback_started report ns w).calls)
      ∙ starts-rollback_started ns w

  ends-rollback_started :
      (ns : List ℕ) (w : Walk)
      → ends (rollback_started report ns w).calls ≡ ends w.calls ++ backwards ns
  unfolding rollback_started terminate_node
  ends-rollback_started [] w = sym (append-nil (ends w.calls))
  ends-rollback_started (n ∷ ns) w =
      ends-append (rollback_started report ns w).calls (terminate n ∷ [])
      ∙ ap (λ l. l ++ n ∷ []) (ends-rollback_started ns w)
      ∙ append_assoc (ends w.calls) (backwards ns) (n ∷ [])

  starts-start_nodes :
      (ns started : List ℕ) (w : Walk)
      → starts (walk_of (start_nodes outcome report ns started w)).calls
        ≡ starts w.calls ++ tried outcome ns
  unfolding start_nodes after_start
  starts-start_nodes [] started w = sym (append-nil (starts w.calls))
  starts-start_nodes (n ∷ ns) started w = elim (Option-cases (outcome n)) [
    | inl e ↦
        rw (start_nodes_on n ns started w e, e)
          (starts-start_nodes ns (started ++ n ∷ []) _
            ∙ ap (λ l. l ++ tried outcome ns) (starts-append w.calls (start n ∷ []))
            ∙ append_assoc (starts w.calls) (n ∷ []) (tried outcome ns))
    | inr e ↦
        rw (start_nodes_off n ns started w e.0 e.1, e.1)
          (starts-rollback_started started _ ∙ starts-append w.calls (start n ∷ []))
  ]

  ends-start_nodes :
      (ns started : List ℕ) (w : Walk)
      → ends (walk_of (start_nodes outcome report ns started w)).calls
        ≡ ends w.calls
          ++ (if some_fails outcome ns then backwards (started ++ begun outcome ns) else [])
  unfolding start_nodes after_start
  ends-start_nodes [] started w = sym (append-nil (ends w.calls))
  ends-start_nodes (n ∷ ns) started w = elim (Option-cases (outcome n)) [
    | inl e ↦
        rw (start_nodes_on n ns started w e, e)
          (ends-start_nodes ns (started ++ n ∷ []) _
            ∙ rw
                (
                  ends-append w.calls (start n ∷ []),
                  append-nil (ends w.calls),
                  append_assoc started (n ∷ []) (begun outcome ns),
                )
                refl)
    | inr e ↦
        rw (start_nodes_off n ns started w e.0 e.1, e.1)
          (ends-rollback_started started _
            ∙ rw (ends-append w.calls (start n ∷ []), append-nil (ends w.calls), append-nil started)
                refl)
  ]
