-- ===== src/Jobs/Claim.antt =====
-- gw/jobsched/kvdbledger.go: the ledger of claims kept in a KVDB. `stamp` is the text of the moment
-- that the claim is written with; nothing reads it.
pub mod Fleet
mod Tests
use Prim.Native.String.{◌++◌}
use gwf.Common.{ℕ, String, Bool, not, Result, ok, err, ◌==◌, if◌then◌else◌, String_eq}
use gwf.Common.Decimal.{decimal}
use gwf.Common.Int.{pos}
use gwf.Kvdb.{Kvdb}
use gwf.Jobs.{Ledger}

-- In nanoseconds.
abbrev pub mark_lifetime : ℕ
mark_lifetime = 300000000000

pub data NewLedgerError : Type 0 where
  kvdb_required prefix_required : NewLedgerError

-- The ledger is its prefix; the first argument is whether a KVDB was given.
pub new_kvdb_ledger : Bool → String → Result NewLedgerError String
new_kvdb_ledger given prefix =
    if not given then err kvdb_required else if prefix == "" then err prefix_required else ok prefix

pub mark_key : String → String → ℕ → String
unfolding decimal
mark_key prefix id minute = prefix ++ id ++ ":" ++ decimal minute

ledger_error : Result String Bool → Result String Bool
ledger_error (ok won) = ok won
ledger_error (err m) = err ("jobsched ledger: " ++ m)

pub claim : (kvdb : Kvdb) → String → String → Ledger kvdb.Db
unfolding mark_key ledger_error
claim kvdb prefix stamp id minute db =
    let r = kvdb.set_value_if_not_exists (mark_key prefix id minute) stamp (pos mark_lifetime) db in
    (ledger_error r.0, r.1)
