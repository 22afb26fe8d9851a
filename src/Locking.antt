-- ===== src/Locking.antt =====
-- gw/locking/manager.go and managerlocalledgeronly.go: the names that an instance holds, and the
-- manager that keeps them in memory only.
pub mod AllOrNone
pub mod Shared
mod Tests
use gwf.Common.{
  String, Bool, true, false, not, Option, none, some, List, Dict, keys, is_some, lookup, insert,
  delete, ◌∷◌, ◌++◌, [], if◌then◌else◌, String_eq,
}

pub data LockError : Type 0 where
  ctx_ended : LockError
  action_locked : String → LockError
  fn_failed : String → LockError

-- The names held, each with what its manager keeps beside it.
abbrev pub Ledger {ℓ} : Type ℓ → Type ℓ
Ledger V = Dict String V

-- The test and the write are one step under the mutex.
pub reserve {ℓ} : {V : Type ℓ} → String → V → Ledger V → Bool × Ledger V
reserve name v l = if is_some (lookup name l) then (false, l) else (true, insert name v l)

pub release {ℓ} : {V : Type ℓ} → String → Ledger V → Ledger V
release name l = delete name l

pub names {ℓ} : {V : Type ℓ} → Ledger V → List String
names l = keys l

-- A manager over the internal ledger only keeps nothing beside a name.
abbrev pub LocalLedger : Type 0
LocalLedger = Ledger (Unit {0})

-- What happens while a function runs under its names: the ledger that it leaves, and its error.
abbrev pub Fn : Type 0
Fn = LocalLedger → LocalLedger × Option String

pub answer : Option String → Option LockError
answer none = none
answer (some e) = some (fn_failed e)

-- AcquireDoRelease of ManagerLocalLedgerOnly; the first argument is whether the context has ended.
pub acquire_do_release : Bool → String → Fn → LocalLedger → LocalLedger × Option LockError
acquire_do_release ended name fn l =
    if ended
    then (l, some ctx_ended)
    else let r = reserve name tt l in
      if not r.0
      then (r.1, some (action_locked name))
      else let done = fn r.1 in (release name done.0, answer done.1)

-- The last name taken is released first.
pub give_back : List String → LocalLedger → LocalLedger
give_back [] l = l
give_back (name ∷ taken) l = release name (give_back taken l)

-- What the loop over the names comes to: the names taken, or the name that was refused.
pub data Asked : Type 0 where
  taken_all : List String → LocalLedger → Asked
  refused_at : String → LocalLedger → Asked

pub take_all : List String → List String → LocalLedger → Asked
take_all [] taken l = taken_all taken l
take_all (name ∷ ns) taken l =
    let r = reserve name tt l in
    let rest = take_all ns (taken ++ name ∷ []) r.1 in
    if r.0 then rest else refused_at name (give_back taken r.1)

run_taken : Fn → Asked → LocalLedger × Option LockError
run_taken fn (refused_at name l) = (l, some (action_locked name))
run_taken fn (taken_all taken l) = let done = fn l in (give_back taken done.0, answer done.1)

-- AcquireDoReleaseAll of ManagerLocalLedgerOnly.
pub acquire_do_release_all : Bool → List String → Fn → LocalLedger → LocalLedger × Option LockError
unfolding run_taken
acquire_do_release_all ended ns fn l =
    if ended then (l, some ctx_ended) else run_taken fn (take_all ns [] l)
