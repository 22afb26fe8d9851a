-- ===== src/Locking/Shared.antt =====
-- gw/locking/managerkvdbledger.go and kvdbledger.go: the manager that keeps its ledger as its own
-- slice of one held in a KVDB, which other instances use as well.
pub mod Restores
pub mod Exclusion
pub mod Fleet
mod Tests
use Prim.Native.String.{◌++◌ as append}
use gwf.Common.{
  ℕ, String, Bool, true, false, not, Option, none, some, List, Result, ok, err, ◌+◌, ◌%◌, ◌^◌, ◌∷◌,
  ◌++◌, ◌==◌, [], if◌then◌else◌, String_eq,
}
use gwf.Common.Decimal.{decimal}
use gwf.Kvdb.{Kvdb}
use gwf.Locking.{Ledger, reserve, release, names}

-- `id` is this instance's boot id; beside each name held stands the proof of its grant.
pub record Manager : Type 0 where
  pub name : String
  pub prefix : String
  pub id : String
  pub seq : ℕ
  pub held : Ledger String

pub data ManagerError : Type 0 where
  name_required kvdb_required prefix_required : ManagerError

-- The second argument is whether a KVDB was given, the last one the random id.
pub new_manager : String → Bool → String → String → Result ManagerError Manager
new_manager name given prefix id =
    if name == ""
    then err name_required
    else if not given
    then err kvdb_required
    else if prefix == ""
    then err prefix_required
    else ok (record { name = name; prefix = prefix; id = id; seq = 0; held = [] })

pub data AskError : Type 0 where
  ended : AskError
  action_locked : String → AskError
  store_failed : String → AskError
  fn_failed : String → AskError

-- The counter is a uint64.
pub new_proof : Manager → String × Manager
unfolding decimal
new_proof m =
    let seq = (m.seq + 1) % 2 ^ 64 in
    (append m.id (append ":" (decimal seq)), record m { seq = seq })

pub row_key : Manager → String → String
row_key m name = append m.prefix name

module _ (kvdb : Kvdb) where
  open kvdb use {Db}

  pub take : Manager → String → String → Db → Result String Bool × Db
  unfolding row_key
  take m name proof db = kvdb.set_value_persistent_if_not_exists (row_key m name) proof db

  pub retire : Manager → String → String → Db → Result String Bool × Db
  unfolding row_key
  retire m name proof db = kvdb.delete_value_if_equals (row_key m name) proof db

  -- What the store's answer makes of a name that is reserved.
  settle : String → String → Result String Bool → Manager → Result AskError String × Manager
  unfolding release
  settle name proof (err e) m = (err (store_failed e), record m { held = release name m.held })
  settle name proof (ok false) m =
      (err (action_locked name), record m { held = release name m.held })
  settle name proof (ok true) m = (ok proof, m)

  ask_store :
      String → String → Bool × Ledger String → Manager → Db → Result AskError String × Manager × Db
  unfolding settle take
  ask_store name proof (false, l) m db = (err (action_locked name), m, db)
  ask_store name proof (true, l) m db =
      let reserved = record m { held = l } in
      let answer = take reserved name proof db in
      let s = settle name proof answer.0 reserved in (s.0, s.1, answer.1)

  -- One step: no other ask of the instance comes between its reservation and the store's answer.
  pub acquire : String → Manager → Db → Result AskError String × Manager × Db
  unfolding new_proof ask_store
  acquire name m db = let p = new_proof m in ask_store name p.0 (reserve name p.0 p.1.held) p.1 db

  -- The ledger is cleared whatever the store answers.
  pub give_back : String → String → Manager → Db → Manager × Db
  unfolding retire
  give_back name proof m db = (record m { held = release name m.held }, (retire m name proof db).1)

  -- What happens while a function runs under its names, and its error.
  abbrev pub Fn : Type 0
  Fn = Manager → Db → Manager × Db × Option String

  answer : Option String → Option AskError
  answer none = none
  answer (some e) = some (fn_failed e)

  run_under : String → Fn → Result AskError String × Manager × Db → Manager × Db × Option AskError
  unfolding give_back answer
  run_under name fn (err e, m, db) = (m, db, some e)
  run_under name fn (ok proof, m, db) =
      let done = fn m db in
      let back = give_back name proof done.0 done.1 in (back.0, back.1, answer done.2)

  -- The first argument is whether the context has ended.
  pub acquire_do_release : Bool → String → Fn → Manager → Db → Manager × Db × Option AskError
  unfolding acquire run_under
  acquire_do_release true name fn m db = (m, db, some ended)
  acquire_do_release false name fn m db = run_under name fn (acquire name m db)

  -- The last name taken is given back first.
  pub give_back_all : List (String × String) → Manager → Db → Manager × Db
  unfolding give_back
  give_back_all [] m db = (m, db)
  give_back_all ((name, proof) ∷ taken) m db =
      let rest = give_back_all taken m db in give_back name proof rest.0 rest.1

  -- What the loop over the names comes to.
  pub data Asked : Type 0 where
    taken_all : List (String × String) → Manager → Db → Asked
    refused : AskError → Manager → Db → Asked

  next_name :
      String
      → (List (String × String) → Manager → Db → Asked)
      → List (String × String)
      → Result AskError String × Manager × Db
      → Asked
  unfolding give_back_all
  next_name name rest taken (err e, m, db) =
      let back = give_back_all taken m db in refused e back.0 back.1
  next_name name rest taken (ok proof, m, db) = rest (taken ++ (name, proof) ∷ []) m db

  pub take_all : List String → List (String × String) → Manager → Db → Asked
  unfolding acquire next_name
  take_all [] taken m db = taken_all taken m db
  take_all (name ∷ ns) taken m db =
      next_name name (λ t m' db'. take_all ns t m' db') taken (acquire name m db)

  finish_all : Fn → Asked → Manager × Db × Option AskError
  unfolding give_back_all answer
  finish_all fn (refused e m db) = (m, db, some e)
  finish_all fn (taken_all taken m db) =
      let done = fn m db in
      let back = give_back_all taken done.0 done.1 in (back.0, back.1, answer done.2)

  pub acquire_do_release_all :
      Bool → List String → Fn → Manager → Db → Manager × Db × Option AskError
  unfolding take_all finish_all
  acquire_do_release_all true ns fn m db = (m, db, some ended)
  acquire_do_release_all false ns fn m db = finish_all fn (take_all ns [] m db)
