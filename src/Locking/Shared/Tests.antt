-- ===== src/Locking/Shared/Tests.antt =====
-- Two instances over one store in memory.
use gwf.Common.{
  ℕ, String, refl, none, some, arith, ok, Distinct, lookup, insert, delete, ◌≡◌, ◌≢◌, ◌∷◌, ◌==◌, [],
  if◌then◌else◌, String_eq, ℕ_eq,
}
use gwf.Common.Decimal.{decimal}
use gwf.Kvdb.InMemory.{memory}
use gwf.Kvdb.Memory.{Memory, late, rows_of, put, drop, holds, next_fault, put_with, drop_with}
use gwf.Locking.{reserve, release}
use gwf.Locking.Shared.{
  Manager, new_proof, row_key, take, retire, settle, ask_store, acquire, give_back, action_locked,
}
use gwf.Locking.Shared.Exclusion.{standing_refuses}
use gwf.Locking.Shared.Restores.{acquire-Refused, Refused, give_back-acquire}
use gwf.Locking.Shared.Fleet.{System, grant_names, after_ask, asks, start, later, mutual_exclusion}

abbrev store : Memory
store = record { now = 0; entries = []; faults = [] }

abbrev manager : String → Manager
manager id = record { name = "action"; prefix = "lock:"; id = id; seq = 0; held = [] }

abbrev managers : ℕ → Manager
managers i = if i == 0 then manager "a1" else manager "b2"

proof_example : (new_proof (manager "a1")).0 ≡ "a1:1"
unfolding new_proof decimal
proof_example = refl

abbrev at_rest : System memory
at_rest = record { db = store; managers = managers; running = [] }

-- The first takes the name, the second is refused it.
mutual_exclusion_example :
    Distinct (grant_names (after_ask 1 "pay" (after_ask 0 "pay" at_rest)).running)
mutual_exclusion_example =
    mutual_exclusion memory "lock:" (after_ask 1 "pay" (after_ask 0 "pay" at_rest))
      (later (later (start store managers (λ i. ground arith)) (asks 0 "pay")) (asks 1 "pay"))

one_runs : grant_names (after_ask 1 "pay" (after_ask 0 "pay" at_rest)).running ≡ "pay" ∷ []
unfolding after_ask acquire ask_store settle take new_proof decimal row_key reserve put put_with
    next_fault lookup insert release delete
one_runs = refl

acquire-Refused_example :
    ((acquire memory "pay" (record (manager "a1") { held = ("pay", "a1:9") ∷ [] }) store).1.held
      ≡ ("pay", "a1:9") ∷ [])
    × Refused memory "pay"
        (record (manager "a1") { held = ("pay", "a1:9") ∷ [] })
        (action_locked "pay")
        store
        store
unfolding acquire ask_store reserve lookup new_proof
acquire-Refused_example =
    acquire-Refused memory "pay" (record (manager "a1") { held = ("pay", "a1:9") ∷ [] }) store
      (action_locked "pay") refl

give_back-acquire_example :
    let a = acquire memory "pay" (manager "a1") store in
    let b = give_back memory "pay" "a1:1" a.1 a.2 in
    (b.0.held ≡ []) × ((k : String) → rows_of b.1 k ≡ rows_of store k)
unfolding acquire ask_store settle take retire new_proof decimal row_key reserve put put_with drop
    drop_with holds next_fault lookup insert
give_back-acquire_example = give_back-acquire memory "pay" "a1:1" (manager "a1") store refl tt

-- The write of the first ask was made and its answer was lost.
abbrev half_asked : Memory
half_asked = (acquire memory "pay" (manager "a1") (record store { faults = late ∷ [] })).2

standing_refuses_example :
    ((p : String) → (acquire memory "pay" (manager "b2") half_asked).0 ≢ ok p)
    × (rows_of (acquire memory "pay" (manager "b2") half_asked).2 (row_key (manager "b2") "pay")
        ≡ some (record { value = "a1:1"; until = none }))
unfolding acquire ask_store settle take new_proof decimal row_key reserve put put_with next_fault
    rows_of lookup insert
standing_refuses_example =
    standing_refuses memory "pay" (manager "b2") half_asked
      (record { value = "a1:1"; until = none }) refl
