-- ===== src/Kvdb/Memory.antt =====
-- A store in memory whose calls fail when they are told to: it shows that the laws can be met.
use gwf.Common.{
  ℕ, String, refl, inl, inr, Bool, true, false, none, some, List, arith, eq_iff, ltb, lt→ltb,
  Bool-cases, Option-cases, Result, ok, err, Dict, is_some, lookup, insert, delete, lookup-insert,
  lookup-delete, ◌+◌, ◌<◌, ◌≡◌, ◌∷◌, ◌==◌, [], if◌then◌else◌, String_eq,
}
use gwf.Kvdb.{
  Entry, Rows, with_entry, IsSame, Put, won, lost, failed, failed_late, HasValue, Drop, dropped,
  kept, drop_failed, drop_failed_late,
}

-- Whether a call is answered, or fails before its write or after it.
pub data Fault : Type 0 where
  fine early late : Fault

pub record Memory : Type 0 where
  pub now : ℕ
  pub entries : Dict String Entry
  -- what befalls the next calls; none where the list has ended
  pub faults : List Fault

unfoldable pub next_fault : List Fault → Fault × List Fault
next_fault [] = (fine, [])
next_fault (f ∷ fs) = (f, fs)

unfoldable pub is_live : ℕ → Entry → Bool
is_live t e = elim e.until [ none ↦ true | some u ↦ ltb t u ]

unfoldable pub rows_of : Memory → Rows
rows_of m k = lookup k m.entries

unfoldable pub still : ℕ → Dict String Entry → Dict String Entry
unfolding is_live
still t [] = []
still t ((k, e) ∷ d) = let rest = still t d in if is_live t e then (k, e) ∷ rest else rest

unfoldable pub pass : ℕ → Memory → Memory
unfolding still
pass d m = record m { now = m.now + d; entries = still (m.now + d) m.entries }

unfoldable pub put_with : Fault → String → Entry → Memory → Result String Bool × Memory
put_with fine k e m =
    if is_some (lookup k m.entries)
    then (ok false, m)
    else (ok true, record m { entries = insert k e m.entries })
put_with early k e m = (err "connection lost", m)
put_with late k e m =
    if is_some (lookup k m.entries)
    then (err "connection lost", m)
    else (err "connection lost", record m { entries = insert k e m.entries })

unfoldable pub put : String → Entry → Memory → Result String Bool × Memory
unfolding next_fault put_with
put k e m = let (f, fs) = next_fault m.faults in put_with f k e (record m { faults = fs })

unfoldable pub holds : String → String → Memory → Bool
holds k v m = elim (lookup k m.entries) [ none ↦ false | some e ↦ e.value == v ]

unfoldable pub drop_with : Fault → String → String → Memory → Result String Bool × Memory
unfolding holds
drop_with fine k v m =
    if holds k v m then (ok true, record m { entries = delete k m.entries }) else (ok false, m)
drop_with early k v m = (err "connection lost", m)
drop_with late k v m =
    if holds k v m
    then (err "connection lost", record m { entries = delete k m.entries })
    else (err "connection lost", m)

unfoldable pub drop : String → String → Memory → Result String Bool × Memory
unfolding next_fault drop_with
drop k v m = let (f, fs) = next_fault m.faults in drop_with f k v (record m { faults = fs })

inserted :
    (k : String) (e : Entry) (m : Memory)
    → IsSame
        (with_entry k (some e) (rows_of m))
        (rows_of (record m { entries = insert k e m.entries }))
unfolding rows_of
inserted k e m j = lookup-insert k j e m.entries

deleted :
    (k : String) (m : Memory)
    → IsSame (with_entry k none (rows_of m)) (rows_of (record m { entries = delete k m.entries }))
unfolding rows_of
deleted k m j = lookup-delete k j m.entries

pub put_with-Put :
    (f : Fault) (k : String) (e : Entry) (m : Memory)
    → let r = put_with f k e m in Put k e (rows_of m) r.0 (rows_of r.1)
unfolding put_with
put_with-Put early k e m = failed (λ _. refl)
put_with-Put fine k e m = elim (Option-cases (lookup k m.entries)) [
  | inl new ↦ rw new (won (unfold rows_of in new) (inserted k e m))
  | inr (x, old) ↦ rw old (lost (unfold rows_of in (λ h. cc)) (λ _. refl))
]
put_with-Put late k e m = elim (Option-cases (lookup k m.entries)) [
  | inl new ↦ rw new (failed_late (unfold rows_of in new) (inserted k e m))
  | inr (x, old) ↦ rw old (failed (λ _. refl))
]

pub holds-HasValue : (k v : String) (m : Memory) → holds k v m ≡ true → HasValue k v (rows_of m)
unfolding holds rows_of
holds-HasValue k v m h = elim (Option-cases (lookup k m.entries)) [
  | inl new ↦ absurd (ground (arith, new))
  | inr (x, old) ↦ (x.until, ground (arith, eq_iff x.value v))
]

pub lacks-HasValue :
    (k v : String) (m : Memory) → holds k v m ≡ false → ¬ (HasValue k v (rows_of m))
unfolding holds rows_of
lacks-HasValue k v m h (u, found) = ground (arith, eq_iff v v)

now-put_with : (f : Fault) (k : String) (e : Entry) (m : Memory) → (put_with f k e m).1.now ≡ m.now
unfolding put_with
now-put_with early k e m = refl
now-put_with fine k e m = ground arith
now-put_with late k e m = ground arith

pub now-put : (k : String) (e : Entry) (m : Memory) → (put k e m).1.now ≡ m.now
unfolding put
now-put k e m = now-put_with (next_fault m.faults).0 k e _

pub drop_with-Drop :
    (f : Fault) (k v : String) (m : Memory)
    → let r = drop_with f k v m in Drop k v (rows_of m) r.0 (rows_of r.1)
unfolding drop_with
drop_with-Drop early k v m = drop_failed (λ _. refl)
drop_with-Drop fine k v m = elim (Bool-cases (holds k v m)) [
  | inl same ↦ rw same (dropped (holds-HasValue k v m same) (deleted k m))
  | inr other ↦ rw other (kept (lacks-HasValue k v m other) (λ _. refl))
]
drop_with-Drop late k v m = elim (Bool-cases (holds k v m)) [
  | inl same ↦ rw same (drop_failed_late (holds-HasValue k v m same) (deleted k m))
  | inr other ↦ rw other (drop_failed (λ _. refl))
]

pub lookup-still :
    (t : ℕ) (k : String) (e : Entry) (d : Dict String Entry)
    → lookup k d ≡ some e
    → is_live t e ≡ true
    → lookup k (still t d) ≡ some e
unfolding still lookup
lookup-still t k e [] h l = cc
lookup-still t k e ((j, x) ∷ d) h l = ground (arith, lookup-still t k e d)

pub rows_of-pass :
    (d : ℕ) (m : Memory) (k v : String) (u : ℕ)
    → rows_of m k ≡ some (record { value = v; until = some u })
    → m.now + d < u
    → rows_of (pass d m) k ≡ some (record { value = v; until = some u })
unfolding pass rows_of is_live
rows_of-pass d m k v u h before =
    lookup-still (m.now + d) k (record { value = v; until = some u }) m.entries h
      (lt→ltb _ _ before)

pub rows_of-pass_persistent :
    (d : ℕ) (m : Memory) (k v : String)
    → rows_of m k ≡ some (record { value = v; until = none })
    → rows_of (pass d m) k ≡ some (record { value = v; until = none })
unfolding pass rows_of is_live
rows_of-pass_persistent d m k v h =
    lookup-still (m.now + d) k (record { value = v; until = none }) m.entries h refl

pub now-pass : (d : ℕ) (m : Memory) → (pass d m).now ≡ m.now + d
unfolding pass
now-pass d m = refl

pub put-Put :
    (k : String) (e : Entry) (m : Memory)
    → let r = put k e m in Put k e (rows_of m) r.0 (rows_of r.1)
unfolding put rows_of
put-Put k e m = put_with-Put (next_fault m.faults).0 k e _

pub drop-Drop :
    (k v : String) (m : Memory) → let r = drop k v m in Drop k v (rows_of m) r.0 (rows_of r.1)
unfolding drop rows_of
drop-Drop k v m = drop_with-Drop (next_fault m.faults).0 k v _
