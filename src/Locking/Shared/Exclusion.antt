-- ===== src/Locking/Shared/Exclusion.antt =====
-- Instances over one store and prefix: a name runs in one of them at a time.
use gwf.Common.{
  String, refl, Bool, true, false, none, some, arith, eq_iff, Result, ok, err, ◌≡◌, ◌≢◌, String_eq,
  ℕ_eq,
}
use text.Mathlib.TextLemmas.{append_cancel_left}
use gwf.Kvdb.{Entry, Put, Put-won, Put-keeps, Drop-keeps, Kvdb}
use gwf.Locking.{Ledger, reserve}
use gwf.Locking.Shared.{
  Manager, AskError, new_proof, row_key, take, retire, settle, ask_store, acquire, give_back,
}

module _ (kvdb : Kvdb) where
  open kvdb use {Db, rows}

  take-Put :
      (m : Manager) (name proof : String) (db : Db)
      → let r = take kvdb m name proof db in
        Put (row_key m name) (record { value = proof; until = none }) (rows db) r.0 (rows r.1)
  unfolding take
  take-Put m name proof db = kvdb.set_value_persistent_if_not_exists_law (row_key m name) proof db

  -- What an ask leaves: the rows that stood, and for a grant a row that did not.
  pub record IsAsked (m : Manager) (name : String) (db : Db)
      (r : Result AskError String × Manager × Db) : Type 0 where
    pub keeps : (k : String) (x : Entry) → rows db k ≡ some x → rows r.2 k ≡ some x
    pub same_prefix : r.1.prefix ≡ m.prefix
    pub granted :
        (proof : String)
        → r.0 ≡ ok proof
        → (rows db (row_key m name) ≡ none)
          × (rows r.2 (row_key m name) ≡ some (record { value = proof; until = none }))

  settled-IsAsked :
      (m : Manager) (name proof : String) (db : Db) (a : Result String Bool) (db' : Db)
      → Put (row_key m name) (record { value = proof; until = none }) (rows db) a (rows db')
      → let s = settle kvdb name proof a m in IsAsked m name db (s.0, s.1, db')
  unfolding settle
  settled-IsAsked m name proof db (err e) db' put = record {
    keeps = λ k x h. Put-keeps k x put h;
    same_prefix = refl;
    granted = λ p h. cc;
  }
  settled-IsAsked m name proof db (ok false) db' put = record {
    keeps = λ k x h. Put-keeps k x put h;
    same_prefix = refl;
    granted = λ p h. cc;
  }
  settled-IsAsked m name proof db (ok true) db' put = record {
    keeps = λ k x h. Put-keeps k x put h;
    same_prefix = refl;
    granted = λ p h.
        let (free, made) = Put-won put refl in
        let e : proof ≡ p = cc in
        (
          free,
          rw⁻¹ e (
              rw (made (row_key m name))
                (ground (arith, eq_iff (row_key m name) (row_key m name)))),
        );
  }

  ask_store-IsAsked :
      (name proof : String) (r : Bool × Ledger String) (m : Manager) (db : Db)
      → IsAsked m name db (ask_store kvdb name proof r m db)
  unfolding ask_store row_key
  ask_store-IsAsked name proof (false, l) m db = record {
    keeps = λ k x h. h;
    same_prefix = refl;
    granted = λ p h. cc;
  }
  ask_store-IsAsked name proof (true, l) m db =
      let reserved = record m { held = l } in
      let asked =
        settled-IsAsked reserved name proof db (take kvdb reserved name proof db).0
          (take kvdb reserved name proof db).1 (take-Put reserved name proof db) in
      record { keeps = asked.keeps; same_prefix = asked.same_prefix; granted = asked.granted }

  pub acquire-IsAsked :
      (name : String) (m : Manager) (db : Db) → IsAsked m name db (acquire kvdb name m db)
  unfolding acquire new_proof row_key
  acquire-IsAsked name m db =
      let p = new_proof m in
      let asked = ask_store-IsAsked name p.0 (reserve name p.0 p.1.held) p.1 db in
      record { keeps = asked.keeps; same_prefix = asked.same_prefix; granted = asked.granted }

  -- Giving a name back leaves the rows of the others.
  pub give_back-keeps :
      (m : Manager) (name proof other : String) (db : Db)
      → name ≢ other
      → rows (give_back kvdb name proof m db).1 (row_key m other) ≡ rows db (row_key m other)
  unfolding give_back retire row_key
  give_back-keeps m name proof other db ne =
      Drop-keeps _ (λ e. ne (append_cancel_left m.prefix name other e))
        (kvdb.delete_value_if_equals_law _ proof db)

  -- While a row stands, whoever wrote it, every instance of its prefix is refused the name, and the
  -- ask leaves the row: so too after an ask whose write was made and whose answer was lost, which its
  -- own instance does not take back.
  pub standing_refuses :
      (name : String) (m : Manager) (db : Db) (x : Entry)
      → rows db (row_key m name) ≡ some x
      → ((p : String) → (acquire kvdb name m db).0 ≢ ok p)
        × (rows (acquire kvdb name m db).2 (row_key m name) ≡ some x)
  standing_refuses name m db x stands =
      let asked = acquire-IsAsked name m db in
      (
        λ p granted. ground (arith, (asked.granted p granted).0, stands),
        asked.keeps (row_key m name) x stands,
      )
