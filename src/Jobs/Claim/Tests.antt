-- ===== src/Jobs/Claim/Tests.antt =====
-- Two instances that claim the same minute, and a store whose first answer is lost.
use gwf.Common.{refl, false, arith, ok, err, lookup, insert, ◌≤◌, ◌≡◌, ◌∷◌, [], String_eq, ℕ_eq}
use gwf.Common.Decimal.{decimal}
use gwf.Kvdb.InMemory.{memory, put_for}
use gwf.Kvdb.Memory.{Memory, early, pass, put, next_fault, put_with, still, is_live}
use gwf.Jobs.Claim.{mark_key, ledger_error, claim}
use gwf.Jobs.Claim.Fleet.{start, waits, claims, times_won, once_per_app_lem}

abbrev empty : Memory
empty = record { now = 600000000000; entries = []; faults = [] }

mark_key_example : mark_key "app:" "report" 10 ≡ "app:report:10"
unfolding mark_key decimal
mark_key_example = refl

-- The second claim loses.
loses :
    (claim memory "app:" "601" "report" 10 (claim memory "app:" "600" "report" 10 empty).1).0
    ≡ ok false
unfolding claim put_for put mark_key decimal next_fault put_with ledger_error lookup insert
loses = refl

-- A claim that fails is no win.
fails :
    (claim memory "app:" "600" "report" 10 (record empty { faults = early ∷ [] })).0
    ≡ err "jobsched ledger: connection lost"
unfolding claim put_for put mark_key decimal next_fault put_with ledger_error lookup insert
fails = refl

once_per_app_lem_example : times_won "report" 10 (("report", 10) ∷ []) ≤ 1
unfolding claim put_for put mark_key decimal next_fault put_with ledger_error pass still is_live
    lookup insert
once_per_app_lem_example =
    once_per_app_lem memory "app:" 120000000000 180000000000 _ (("report", 10) ∷ []) (omega arith)
      (claims "601" "report" 10 (omega arith, omega arith)
        (waits 1000000000 (claims "600" "report" 10 (omega arith, omega arith) (start empty))))
      "report" 10
