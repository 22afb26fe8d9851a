-- ===== src/Core/Boot/Admits.antt =====
-- What a walk over the services leaves admitted.
use mathlib.Core.List.{append-nil, append_assoc}
use gwf.Common.{
  ℕ, zero, suc, refl, sym, ap, inl, inr, Bool, true, false, Option, none, some, List, arith, nat_eq,
  Option-cases, length, set, get_or, length-set, get_or-set_self, get_or-set_ne, contains,
  contains-append, ◌<◌, ◌≡◌, ◌∙◌, ◌∷◌, ◌++◌, [], if◌then◌else◌, ℕ_eq,
}
use gwf.Core.{
  Failure, Report, Walk, BootWalk, BootError, going, stopped, terminate_node, rollback_started,
  start_nodes, boot_result,
}
use gwf.Core.Boot.{some_fails, after_start, start_nodes_on, start_nodes_off}

module _ (outcome : ℕ → Option Failure) (report : ℕ → Report) where
  pub get_or-set-false :
      (xs : List Bool) (n i : ℕ)
      → get_or (set xs n false) i false ≡ (if nat_eq n i then false else get_or xs i false)
  get_or-set-false [] n i = ground arith
  get_or-set-false (x ∷ xs) zero zero = refl
  get_or-set-false (x ∷ xs) zero (suc i) = ground arith
  get_or-set-false (x ∷ xs) (suc n) zero = ground arith
  get_or-set-false (x ∷ xs) (suc n) (suc i) = get_or-set-false xs n i ∙ ground arith

  pub admitted-rollback_started :
      (ns : List ℕ) (w : Walk) (i : ℕ)
      → get_or (rollback_started report ns w).admitted i false
        ≡ (if contains ns i then false else get_or w.admitted i false)
  unfolding rollback_started terminate_node
  admitted-rollback_started [] w i = refl
  admitted-rollback_started (n ∷ ns) w i =
      get_or-set-false (rollback_started report ns w).admitted n i
      ∙ ground (arith, admitted-rollback_started ns w i)

  -- What a walk has admitted is what it has started, and nothing once it is broken off.
  abbrev pub AdmitsStarted : ℕ → BootWalk → Type 0
  AdmitsStarted i (going started w) = get_or w.admitted i false ≡ contains started i
  AdmitsStarted i (stopped w e) = get_or w.admitted i false ≡ false

  pub start_nodes-AdmitsStarted :
      (ns started : List ℕ) (w : Walk) (i : ℕ)
      → i < length w.admitted
      → get_or w.admitted i false ≡ contains started i
      → AdmitsStarted i (start_nodes outcome report ns started w)
  unfolding start_nodes after_start
  start_nodes-AdmitsStarted [] started w i lt h = h
  start_nodes-AdmitsStarted (n ∷ ns) started w i lt h = elim (Option-cases (outcome n)) [
    | inl e ↦ rw (start_nodes_on outcome report n ns started w e) (
        start_nodes-AdmitsStarted ns (started ++ n ∷ []) _ i (rw (length-set w.admitted n true) lt)
          (ground (
            arith,
            contains-append started (n ∷ []) i,
            get_or-set_self w.admitted n true false,
            get_or-set_ne w.admitted n i true false,
          )))
    | inr e ↦
        rw (start_nodes_off outcome report n ns started w e.0 e.1)
          (admitted-rollback_started started _ i ∙ ground arith)
  ]

  pub going_through :
      (ns started : List ℕ) (w : Walk)
      → some_fails outcome ns ≡ false
      → (w' : Walk) × (start_nodes outcome report ns started w ≡ going (started ++ ns) w')
  unfolding start_nodes
  going_through [] started w h = (w, ap (λ l. going l w) (sym (append-nil started)))
  going_through (n ∷ ns) started w h = elim (Option-cases (outcome n)) [
    | inl e ↦
        (let rest =
            going_through ns (started ++ n ∷ []) (after_start outcome report n w) (ground arith) in
          (
            rest.0,
            start_nodes_on outcome report n ns started w e
                ∙ rest.1
                ∙ ap (λ l. going l rest.0) (append_assoc started (n ∷ []) ns),
          ))
    | inr e ↦ absurd (let x = e.1 in ground arith)
  ]

  pub broken_off :
      (i : ℕ) (b : BootWalk) (e : BootError)
      → AdmitsStarted i b
      → (boot_result b).1 ≡ some e
      → get_or (boot_result b).0.admitted i false ≡ false
  unfolding boot_result
  broken_off i (going started w) e h k = absurd (ground arith)
  broken_off i (stopped w f) e h k = h

  pub none_fails : (ns : List ℕ) → ((n : ℕ) → outcome n ≡ none) → some_fails outcome ns ≡ false
  none_fails [] h = refl
  none_fails (n ∷ ns) h = rw (h n) (none_fails ns h)
