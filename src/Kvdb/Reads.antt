-- ===== src/Kvdb/Reads.antt =====
-- The reads, swaps and expiries of a store in memory.
use gwf.Common.{
  ℕ, String, refl, ap, inl, inr, Bool, true, false, Option, none, some, arith, eq_iff, ltb,
  Bool-cases, Result, ok, err, lookup, insert, delete, lookup-insert, lookup-delete, ◌+◌, ◌≤◌, ◌≡◌,
  ◌≢◌, if◌then◌else◌, String_eq,
}
use gwf.Common.Int.{ℤ, pos, pos_part}
use gwf.Kvdb.{
  Entry, with_entry, IsSame, Swap, swapped, unequal, swap_failed, swap_failed_late, value_of,
}
use gwf.Kvdb.Memory.{
  Fault, fine, early, late, Memory, next_fault, rows_of, holds, holds-HasValue, lacks-HasValue,
}

get_with : Fault → String → Memory → Result String (Option String) × Memory
get_with fine k m = (ok (value_of (lookup k m.entries)), m)
get_with _ k m = (err "connection lost", m)

unfoldable pub get : String → Memory → Result String (Option String) × Memory
unfolding next_fault get_with
get k m = let (f, fs) = next_fault m.faults in get_with f k (record m { faults = fs })

get_with_lem :
    (f : Fault) (k : String) (m : Memory)
    → let r = get_with f k m in
      IsSame (rows_of m) (rows_of r.1)
      × ((v : Option String) → r.0 ≡ ok v → v ≡ value_of (rows_of m k))
unfolding get_with rows_of
get_with_lem fine k m = (λ _. refl, λ v h. cc)
get_with_lem early k m = (λ _. refl, λ v h. cc)
get_with_lem late k m = (λ _. refl, λ v h. cc)

pub get_lem :
    (k : String) (m : Memory)
    → let r = get k m in
      IsSame (rows_of m) (rows_of r.1)
      × ((v : Option String) → r.0 ≡ ok v → v ≡ value_of (rows_of m k))
unfolding get rows_of
get_lem k m = get_with_lem (next_fault m.faults).0 k _

unfoldable pub written : String → String → Memory → Memory
written k v m = elim (lookup k m.entries) [
  | none ↦ m
  | some e ↦ record m { entries = insert k (record { value = v; until = e.until }) m.entries }
]

swap_with : Fault → String → String → String → Memory → Result String Bool × Memory
unfolding holds written
swap_with fine k v new m = if holds k v m then (ok true, written k new m) else (ok false, m)
swap_with early k v new m = (err "connection lost", m)
swap_with late k v new m =
    if holds k v m then (err "connection lost", written k new m) else (err "connection lost", m)

unfoldable pub swap : String → String → String → Memory → Result String Bool × Memory
unfolding next_fault swap_with
swap k v new m = let (f, fs) = next_fault m.faults in swap_with f k v new (record m { faults = fs })

rows_of-written :
    (k v : String) (m : Memory) (e : Entry)
    → lookup k m.entries ≡ some e
    → IsSame
        (with_entry k (some (record { value = v; until = e.until })) (rows_of m))
        (rows_of (written k v m))
unfolding rows_of written
rows_of-written k v m e h j =
    rw (written, h) (lookup-insert k j (record { value = v; until = e.until }) m.entries)

swap_with-Swap :
    (f : Fault) (k v new : String) (m : Memory)
    → let r = swap_with f k v new m in Swap k v new (rows_of m) r.0 (rows_of r.1)
unfolding swap_with
swap_with-Swap early k v new m = swap_failed (λ _. refl)
swap_with-Swap fine k v new m = elim (Bool-cases (holds k v m)) [
  | inl same ↦
      let (u, found) = holds-HasValue k v m same in
      rw same (
        swapped found
          (rows_of-written k new m (record { value = v; until = u }) (unfold rows_of in found)))
  | inr other ↦ rw other (unequal (lacks-HasValue k v m other) (λ _. refl))
]
swap_with-Swap late k v new m = elim (Bool-cases (holds k v m)) [
  | inl same ↦
      let (u, found) = holds-HasValue k v m same in
      rw same (
        swap_failed_late found
          (rows_of-written k new m (record { value = v; until = u }) (unfold rows_of in found)))
  | inr other ↦ rw other (swap_failed (λ _. refl))
]

pub swap-Swap :
    (k v new : String) (m : Memory)
    → let r = swap k v new m in Swap k v new (rows_of m) r.0 (rows_of r.1)
unfolding swap rows_of
swap-Swap k v new m = swap_with-Swap (next_fault m.faults).0 k v new _

-- The clock of the store ticks every millisecond: a shorter lifetime removes the key.
abbrev pub tick : ℕ
tick = 1000000

outlive_found : String → ℕ → Entry → Memory → Memory
outlive_found k life e m =
    if ltb life tick then record m { entries = delete k m.entries } else record m {
      entries = insert k (record { value = e.value; until = some (m.now + life) }) m.entries;
    }

outlive_from : Option Entry → String → ℕ → Memory → Result String Bool × Memory
unfolding outlive_found
outlive_from none k life m = (ok false, m)
outlive_from (some e) k life m = (ok true, outlive_found k life e m)

unfoldable pub outlive : String → ℤ → Memory → Result String Bool × Memory
unfolding outlive_from
outlive k life m = outlive_from (lookup k m.entries) k (pos_part life) m

rows_of-outlive_found :
    (k : String) (life : ℕ) (e : Entry) (m : Memory) (j : String)
    → k ≢ j
    → rows_of (outlive_found k life e m) j ≡ rows_of m j
unfolding outlive_found rows_of
rows_of-outlive_found k life e m j ne = ground (
  arith,
  lookup-insert k j (record { value = e.value; until = some (m.now + life) }) m.entries,
  lookup-delete k j m.entries,
  eq_iff k j,
)

rows_of-outlive_from :
    (o : Option Entry) (k : String) (life : ℕ) (m : Memory) (j : String)
    → k ≢ j
    → rows_of (outlive_from o k life m).1 j ≡ rows_of m j
unfolding outlive_from
rows_of-outlive_from none k life m j ne = refl
rows_of-outlive_from (some e) k life m j ne = rows_of-outlive_found k life e m j ne

pub rows_of-outlive :
    (k : String) (life : ℤ) (m : Memory) (j : String)
    → k ≢ j
    → rows_of (outlive k life m).1 j ≡ rows_of m j
unfolding outlive
rows_of-outlive k life m j ne = rows_of-outlive_from (lookup k m.entries) k (pos_part life) m j ne

value_of-outlive_from :
    (o : Option Entry) (k : String) (life : ℕ) (m : Memory)
    → lookup k m.entries ≡ o
    → tick ≤ life
    → value_of (rows_of (outlive_from o k life m).1 k) ≡ value_of o
unfolding rows_of outlive_from outlive_found
value_of-outlive_from none k life m h long = ap value_of h
value_of-outlive_from (some e) k life m h long =
    let fits : ltb life tick ≡ false = ground (arith, long) in
    rw (fits, lookup-insert k k (record { value = e.value; until = some (m.now + life) }) m.entries)
      (ground (arith, eq_iff k k))

pub value_of-outlive :
    (k : String) (life : ℕ) (m : Memory)
    → tick ≤ life
    → value_of (rows_of (outlive k (pos life) m).1 k) ≡ value_of (rows_of m k)
unfolding rows_of outlive
value_of-outlive k life m long = value_of-outlive_from (lookup k m.entries) k life m refl long
