-- ===== src/Locking/Shared/Restores.antt =====
-- What an ask and a release leave behind in the two ledgers.
use Prim.Native.String.{◌++◌ as append}
use gwf.Common.{
  String, refl, ap, inl, inr, Bool, true, false, none, some, arith, eq_iff, Option-cases, Result,
  ok, err, lookup, delete-insert, subst, ◌≡◌, ◌∙◌, ◌≢◌, ◌⊎◌, String_eq,
}
use gwf.Kvdb.{
  Entry, Rows, with_entry, IsSame, Put, won, lost, Put-won, HasValue, Drop, dropped, kept,
  drop_failed, drop_failed_late, Kvdb,
}
use gwf.Locking.{Ledger, reserve, release}
use gwf.Locking.Shared.{
  Manager, AskError, action_locked, store_failed, new_proof, row_key, take, retire, settle,
  ask_store, acquire, give_back,
}

module _ {key : String} {e : Entry} {rows rows' : Rows} where
  Put-lost : {r : Result String Bool} → Put key e rows r rows' → r ≡ ok false → IsSame rows rows'
  Put-lost (won _ _) h = cc
  Put-lost (lost _ same) h = same
  Put-lost _ h = cc

  Put-taken : {r : Result String Bool} → Put key e rows r rows' → r ≡ ok false → rows key ≢ none
  Put-taken (won _ _) h = cc
  Put-taken (lost taken _) h = taken
  Put-taken _ h = cc

-- Whether a call was answered.
abbrev pub IsAnswered : Result String Bool → Type 0
IsAnswered (ok b) = Unit
IsAnswered (err m) = ⊥

module _ {key value : String} {rows rows' : Rows} where
  -- A removal that is answered, of a value that stands, takes its row.
  Drop-answered :
      {r : Result String Bool}
      → Drop key value rows r rows'
      → IsAnswered r
      → HasValue key value rows
      → IsSame (with_entry key none rows) rows'
  Drop-answered (dropped _ same) a h = same
  Drop-answered (kept other same) a h = absurd (other h)
  Drop-answered (drop_failed _) a h = absurd a
  Drop-answered (drop_failed_late _ _) a h = absurd a

-- A row added and taken out again.
removed :
    (row k : String) (e : Entry) (before held after : Rows)
    → before row ≡ none
    → IsSame (with_entry row (some e) before) held
    → IsSame (with_entry row none held) after
    → after k ≡ before k
removed row k e before held after free made gone =
    ground (arith, free, made k, gone k, eq_iff row k)

module _ (kvdb : Kvdb) where
  open kvdb use {Db, rows}

  -- Why an ask is refused: the name is held in the instance or stands in the store, and then no row
  -- changes; or the name is free in the instance and the store's call, under some proof, fails.
  abbrev pub Refused : String → Manager → AskError → Db → Db → Type 0
  Refused name m e db db' =
      ((e ≡ action_locked name)
        × ((lookup name m.held ≢ none) ⊎ (rows db (append m.prefix name) ≢ none))
        × IsSame (rows db) (rows db'))
      ⊎ ((s : String) × (proof : String) × (e ≡ store_failed s)
          × (lookup name m.held ≡ none)
          × ((kvdb.set_value_persistent_if_not_exists (append m.prefix name) proof db).0 ≡ err s))

  settle-Refused :
      (m : Manager) (name proof : String) (a : Result String Bool) (db db' : Db) (e : AskError)
      → Put (row_key m name) (record { value = proof; until = none }) (rows db) a (rows db')
      → (settle kvdb name proof a m).0 ≡ err e
      → ((settle kvdb name proof a m).1.held ≡ release name m.held)
        × (((e ≡ action_locked name)
              × (rows db (append m.prefix name) ≢ none)
              × IsSame (rows db) (rows db'))
            ⊎ ((s : String) × (e ≡ store_failed s) × (a ≡ err s)))
  unfolding settle row_key
  settle-Refused m name proof (err s) db db' e put h = (refl, inr (s, cc, refl))
  settle-Refused m name proof (ok false) db db' e put h =
      (refl, inl (cc, Put-taken put refl, Put-lost put refl))
  settle-Refused m name proof (ok true) db db' e put h = cc

  reserve-release :
      (name proof : String) (l : Ledger String)
      → (reserve name proof l).0 ≡ true
      → release name (reserve name proof l).1 ≡ l
  unfolding reserve release
  reserve-release name proof l h = elim (Option-cases (lookup name l)) [
    | inl free ↦ rw free (delete-insert name proof l free)
    | inr (p, held) ↦ absurd (ground (arith, h, held))
  ]

  reserve-held :
      (name proof : String) (l : Ledger String)
      → (((reserve name proof l).0 ≡ false) × (lookup name l ≢ none))
        ⊎ (((reserve name proof l).0 ≡ true) × (lookup name l ≡ none))
  unfolding reserve
  reserve-held name proof l = elim (Option-cases (lookup name l)) [
    | inl free ↦ inr (rw free refl, free)
    | inr (p, held) ↦ inl (rw held refl, λ h. cc)
  ]

  ask_store-Refused :
      (name proof : String) (r : Bool × Ledger String) (m : Manager) (db : Db) (e : AskError)
      → (r.0 ≡ true → release name r.1 ≡ m.held)
      → ((r.0 ≡ false) × (lookup name m.held ≢ none)) ⊎ ((r.0 ≡ true) × (lookup name m.held ≡ none))
      → (ask_store kvdb name proof r m db).0 ≡ err e
      → ((ask_store kvdb name proof r m db).1.held ≡ m.held)
        × Refused name m e db (ask_store kvdb name proof r m db).2
  unfolding ask_store take row_key
  ask_store-Refused name proof (false, l) m db e undone (inl held) h =
      (refl, inl (cc, inl held.1, λ _. refl))
  ask_store-Refused name proof (false, l) m db e undone (inr free) h = cc
  ask_store-Refused name proof (true, l) m db e undone (inl held) h = cc
  ask_store-Refused name proof (true, l) m db e undone (inr free) h =
      let reserved = record m { held = l } in
      let (back, why) =
        settle-Refused reserved name proof (take kvdb reserved name proof db).0 db
          (take kvdb reserved name proof db).1 e
          (kvdb.set_value_persistent_if_not_exists_law (row_key reserved name) proof db) h in
      (
        back ∙ undone refl,
        elim why [
          | inl (locked, stands, same) ↦ inl (locked, inr stands, same)
          | inr (s, failed_, said) ↦ inr (s, proof, failed_, free.1, said)
        ],
      )

  -- An ask that is refused leaves the instance's ledger as it was. It is refused as locked only if the
  -- instance held the name or a row of the name stood in the store, and then no row has changed; or
  -- with the store's error only if the name was free in the instance and the store's call failed.
  pub acquire-Refused :
      (name : String) (m : Manager) (db : Db) (e : AskError)
      → (acquire kvdb name m db).0 ≡ err e
      → ((acquire kvdb name m db).1.held ≡ m.held) × Refused name m e db (acquire kvdb name m db).2
  unfolding acquire new_proof
  acquire-Refused name m db e h =
      let p = new_proof m in
      ask_store-Refused name p.0 (reserve name p.0 p.1.held) p.1 db e
        (reserve-release name p.0 p.1.held) (reserve-held name p.0 p.1.held) h

  settle-granted :
      (m : Manager) (name proof p : String) (a : Result String Bool) (db db' : Db)
      → Put (row_key m name) (record { value = proof; until = none }) (rows db) a (rows db')
      → (settle kvdb name proof a m).0 ≡ ok p
      → (p ≡ proof)
        × ((settle kvdb name proof a m).1 ≡ m)
        × (rows db (row_key m name) ≡ none)
        × IsSame
            (with_entry (row_key m name) (some (record { value = proof; until = none })) (rows db))
            (rows db')
  unfolding settle
  settle-granted m name proof p (err s) db db' put h = cc
  settle-granted m name proof p (ok false) db db' put h = cc
  settle-granted m name proof p (ok true) db db' put h =
      let (free, made) = Put-won put refl in (cc, refl, free, made)

  -- What a grant makes of an instance and of the store.
  abbrev Granted : String → String → Manager → Db → Manager → Db → Type 0
  Granted name p m db m' db' =
      (release name m'.held ≡ m.held)
      × (m'.prefix ≡ m.prefix)
      × (rows db (row_key m name) ≡ none)
      × IsSame (with_entry (row_key m name) (some (record { value = p; until = none })) (rows db))
          (rows db')

  ask_store-Granted :
      (name proof p : String) (r : Bool × Ledger String) (m : Manager) (db : Db)
      → (r.0 ≡ true → release name r.1 ≡ m.held)
      → (ask_store kvdb name proof r m db).0 ≡ ok p
      → let a = ask_store kvdb name proof r m db in Granted name p m db a.1 a.2
  unfolding ask_store take row_key
  ask_store-Granted name proof p (false, l) m db undone h = cc
  ask_store-Granted name proof p (true, l) m db undone h =
      let reserved = record m { held = l } in
      let (same, kept_, free, made) =
        settle-granted reserved name proof p (take kvdb reserved name proof db).0 db
          (take kvdb reserved name proof db).1
          (kvdb.set_value_persistent_if_not_exists_law (row_key reserved name) proof db) h in
      rw (kept_, same) (undone refl, refl, free, made)

  acquire-Granted :
      (name p : String) (m : Manager) (db : Db)
      → (acquire kvdb name m db).0 ≡ ok p
      → let a = acquire kvdb name m db in Granted name p m db a.1 a.2
  unfolding acquire new_proof row_key
  acquire-Granted name p m db h =
      let q = new_proof m in
      ask_store-Granted name q.0 p (reserve name q.0 q.1.held) q.1 db
        (reserve-release name q.0 q.1.held) h

  -- A name that was granted and is given back under its proof, by a call that the store answers, leaves
  -- the instance's ledger and every row of the store as they were before the ask.
  pub give_back-acquire :
      (name p : String) (m : Manager) (db : Db)
      → (acquire kvdb name m db).0 ≡ ok p
      → let a = acquire kvdb name m db in
        let b = give_back kvdb name p a.1 a.2 in
        IsAnswered (retire kvdb a.1 name p a.2).0
        → (b.0.held ≡ m.held) × IsSame (rows db) (rows b.1)
  unfolding give_back retire row_key
  give_back-acquire name p m db h answered =
      let a = acquire kvdb name m db in
      let (undone, same_prefix, free, made) = acquire-Granted name p m db h in
      let row = row_key m name in
      let key : row_key a.1 name ≡ row = unfold row_key in ap (λ q. append q name) same_prefix in
      let stands : rows a.2 row ≡ some (record { value = p; until = none }) =
        rw (made row) (ground (arith, eq_iff row row)) in
      let gone =
        Drop-answered (kvdb.delete_value_if_equals_law (row_key a.1 name) p a.2) answered
          (none, rw key stands) in
      (
        undone,
        λ k.
            removed row k (record { value = p; until = none }) (rows db) (rows a.2) _ free made
              (subst
                (λ r.
                  IsSame (with_entry r none (rows a.2)) (rows (give_back kvdb name p a.1 a.2).1))
                key gone),
      )
