-- ===== src/Locking/AllOrNone.antt =====
-- An ask for several names takes all of them or none.
use mathlib.Core.List.{append-nil, append_assoc}
use gwf.Common.{
  String, refl, sym, ap, inl, inr, Bool, true, false, Option, none, some, List, arith, Bool-cases,
  contains, contains-append, is_some, lookup, insert, lookup-insert, delete-insert, ◌≡◌, ◌∙◌, ◌||◌,
  ◌∷◌, ◌++◌, [], if◌then◌else◌, String_eq,
}
use gwf.Locking.{
  LocalLedger, Fn, action_locked, reserve, release, give_back, Asked, taken_all, refused_at,
  take_all, run_taken, acquire_do_release, acquire_do_release_all, answer,
}

-- The first name, if any, that is held or that the list has before.
abbrev pub clash : LocalLedger → List String → List String → Option String
clash l seen [] = none
clash l seen (name ∷ ns) =
    let rest = clash l (seen ++ name ∷ []) ns in
    if is_some (lookup name l) || contains seen name then some name else rest

-- All of the names, written to the ledger in turn.
abbrev pub holding : List String → LocalLedger → LocalLedger
holding [] l = l
holding (name ∷ ns) l = holding ns (insert name tt l)

give_back-append :
    (xs : List String) (name : String) (l : LocalLedger)
    → give_back (xs ++ name ∷ []) l ≡ give_back xs (release name l)
unfolding give_back
give_back-append [] name l = refl
give_back-append (x ∷ xs) name l = ap (release x) (give_back-append xs name l)

absent : (name : String) (l : LocalLedger) → is_some (lookup name l) ≡ false → lookup name l ≡ none
absent name l h = ground arith

abbrev Outcome : LocalLedger → Option String → LocalLedger → List String → Asked → Type 0
Outcome l0 none full taken a = a ≡ taken_all taken full
Outcome l0 (some name) full taken a = a ≡ refused_at name l0

take_all-Outcome :
    (ns taken : List String) (l0 l : LocalLedger)
    → give_back taken l ≡ l0
    → ((name : String)
        → is_some (lookup name l) ≡ (is_some (lookup name l0) || contains taken name))
    → Outcome l0 (clash l0 taken ns) (holding ns l) (taken ++ ns) (take_all ns taken l)
unfolding take_all reserve release
take_all-Outcome [] taken l0 l back held = ap (λ t. taken_all t l) (sym (append-nil taken))
take_all-Outcome (name ∷ ns) taken l0 l back held = elim (Bool-cases (is_some (lookup name l))) [
  | inl old ↦ rw (sym (held name), old) (ap (λ t. refused_at name t) back)
  | inr new ↦
      rw (sym (held name), new)
        (rw (sym (append_assoc taken (name ∷ []) ns)) (
          take_all-Outcome ns (taken ++ name ∷ []) l0 (insert name tt l)
            (give_back-append taken name _
              ∙ ap (give_back taken) (delete-insert name tt l (absent name l new))
              ∙ back)
            (λ other. ground (
              arith,
              held other,
              lookup-insert name other tt l,
              contains-append taken (name ∷ []) other,
            ))))
]

-- The names taken can be given back.
abbrev Restores : LocalLedger → Asked → Type 0
Restores l0 (taken_all taken l) = give_back taken l ≡ l0
Restores l0 (refused_at name l) = l ≡ l0

take_all-Restores :
    (ns taken : List String) (l0 l : LocalLedger)
    → give_back taken l ≡ l0
    → Restores l0 (take_all ns taken l)
unfolding take_all reserve release
take_all-Restores [] taken l0 l back = back
take_all-Restores (name ∷ ns) taken l0 l back = elim (Bool-cases (is_some (lookup name l))) [
  | inl old ↦ rw old back
  | inr new ↦ rw new (
      take_all-Restores ns (taken ++ name ∷ []) l0 (insert name tt l) (
        give_back-append taken name _
        ∙ ap (give_back taken) (delete-insert name tt l (absent name l new))
        ∙ back))
]

run-Restores :
    (fn : Fn) (l0 : LocalLedger) (a : Asked)
    → ((m : LocalLedger) → (fn m).0 ≡ m)
    → Restores l0 a
    → (run_taken fn a).0 ≡ l0
unfolding run_taken
run-Restores fn l0 (taken_all taken l) quiet h = ap (give_back taken) (quiet l) ∙ h
run-Restores fn l0 (refused_at name l) quiet h = h

run_lem :
    (fn : Fn) (ns : List String) (l : LocalLedger) (c : Option String) (a : Asked)
    → Outcome l c (holding ns l) ns a
    → run_taken fn a ≡ (elim c [
      | some name ↦ (l, some (action_locked name))
      | none ↦ (give_back ns (fn (holding ns l)).0, answer (fn (holding ns l)).1)
    ])
unfolding run_taken
run_lem fn ns l none a h = rw h refl
run_lem fn ns l (some name) a h = rw h refl

-- While its context lasts, an ask for several names is refused with the first that is held or repeated, and leaves the ledger
-- as it was; otherwise the function runs with all of them held, and they are released after it.
pub acquire_do_release_all_lem :
    (ns : List String) (fn : Fn) (l : LocalLedger)
    → acquire_do_release_all false ns fn l ≡ (elim (clash l [] ns) [
      | some name ↦ (l, some (action_locked name))
      | none ↦ (give_back ns (fn (holding ns l)).0, answer (fn (holding ns l)).1)
    ])
unfolding acquire_do_release_all give_back
acquire_do_release_all_lem ns fn l =
    run_lem fn ns l (clash l [] ns) (take_all ns [] l)
      (take_all-Outcome ns [] l l refl (λ name. ground arith))

-- Whether it is refused, ends before it begins or runs a function that leaves the ledger alone, an
-- ask for several names leaves the ledger as it found it.
pub acquire_do_release_all_restores :
    (ended : Bool) (ns : List String) (fn : Fn) (l : LocalLedger)
    → ((m : LocalLedger) → (fn m).0 ≡ m)
    → (acquire_do_release_all ended ns fn l).0 ≡ l
unfolding acquire_do_release_all give_back
acquire_do_release_all_restores true ns fn l quiet = refl
acquire_do_release_all_restores false ns fn l quiet =
    run-Restores fn l (take_all ns [] l) quiet (take_all-Restores ns [] l l refl)

-- Asking for one name is asking for all of a list of one.
pub acquire_do_release_lem :
    (ended : Bool) (name : String) (fn : Fn) (l : LocalLedger)
    → acquire_do_release ended name fn l ≡ acquire_do_release_all ended (name ∷ []) fn l
unfolding acquire_do_release acquire_do_release_all take_all reserve give_back run_taken
acquire_do_release_lem true name fn l = refl
acquire_do_release_lem false name fn l = elim (Bool-cases (is_some (lookup name l))) [
  | inl old ↦ rw old refl
  | inr new ↦ rw new refl
]
