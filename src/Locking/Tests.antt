-- ===== src/Locking/Tests.antt =====
-- Asks for two names.
use gwf.Common.{false, none, some, ◌≡◌, ◌∷◌, [], String_eq}
use gwf.Locking.{LocalLedger, Fn, action_locked, acquire_do_release_all, give_back, answer}
use gwf.Locking.AllOrNone.{clash, holding, acquire_do_release_all_lem}

abbrev held : LocalLedger
held = ("b", tt) ∷ []

abbrev quiet : Fn
quiet l = (l, none)

acquire_do_release_all_example :
    acquire_do_release_all false ("a" ∷ "b" ∷ []) quiet held
    ≡ (elim (clash held [] ("a" ∷ "b" ∷ [])) [
      | some name ↦ (held, some (action_locked name))
      | none ↦ (
        give_back ("a" ∷ "b" ∷ []) (quiet (holding ("a" ∷ "b" ∷ []) held)).0,
        answer (quiet (holding ("a" ∷ "b" ∷ []) held)).1,
      )
    ])
acquire_do_release_all_example = acquire_do_release_all_lem ("a" ∷ "b" ∷ []) quiet held
