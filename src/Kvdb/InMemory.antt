-- ===== src/Kvdb/InMemory.antt =====
-- A store in memory keeps the laws.
use gwf.Common.{
  ℕ, String, refl, inl, inr, Bool, none, some, arith, ltb, Bool-cases, Result, err, ◌+◌, ◌≤◌, ◌≡◌,
  if◌then◌else◌, String_eq,
}
use gwf.Common.Int.{pos_part}
use gwf.Kvdb.{Put, failed, Kvdb}
use gwf.Kvdb.Memory.{
  Memory, rows_of, pass, put, drop, rows_of-pass, rows_of-pass_persistent, now-pass, now-put,
  put-Put, drop-Drop,
}
use gwf.Kvdb.Reads.{tick, get, swap, outlive, get_lem, swap-Swap, rows_of-outlive, value_of-outlive}

-- A lifetime that spans no tick of the clock is an error.
unfoldable pub put_for : String → String → ℕ → Memory → Result String Bool × Memory
put_for k v life m =
    if ltb life tick
    then (err "lifetime too short", m)
    else put k (record { value = v; until = some (m.now + life) }) m

pub put_for_law :
    (k v : String) (life : ℕ) (m : Memory)
    → let r = put_for k v life m in
      (u : ℕ) × (m.now + life ≤ u)
      × Put k (record { value = v; until = some u }) (rows_of m) r.0 (rows_of r.1)
      × (r.1.now ≡ m.now)
unfolding put_for
put_for_law k v life m = elim (Bool-cases (ltb life tick)) [
  | inl short ↦ rw short (m.now + life, omega arith, failed (λ _. refl), refl)
  | inr long ↦ rw long (
    m.now + life,
    omega arith,
    put-Put k (record { value = v; until = some (m.now + life) }) m,
    now-put k _ m,
  )
]

abbrev pub memory : Kvdb
memory = record {
  Db = Memory;
  now = λ m. m.now;
  rows = rows_of;
  wait = pass;
  set_value_if_not_exists = λ k v life m. put_for k v (pos_part life) m;
  set_value_persistent_if_not_exists = λ k v m. put k (record { value = v; until = none }) m;
  delete_value_if_equals = drop;
  now-wait = now-pass;
  rows-wait = rows_of-pass;
  rows-wait_persistent = rows_of-pass_persistent;
  set_value_if_not_exists_law = λ k v life m. put_for_law k v (pos_part life) m;
  set_value_persistent_if_not_exists_law =
      λ k v m. put-Put k (record { value = v; until = none }) m;
  delete_value_if_equals_law = drop-Drop;
  get_value = get;
  set_value_if_equals = swap;
  expire = outlive;
  get_value_law = get_lem;
  set_value_if_equals_law = swap-Swap;
  expire_law = rows_of-outlive;
  expire_value_law = λ k life m h long. value_of-outlive k life m long;
  precision = tick;
}
