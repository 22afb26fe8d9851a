-- ===== src/Kvdb.antt =====
-- gw/kvdbs/db.go: the interface `DB`, as far as the modelled clients use it. A store is a parameter
-- of its clients: a record of operations with the laws that the interface documents. A conditional
-- write is one step of the store. A call that answers with an error may have written or not.
pub mod Memory
pub mod Reads
pub mod InMemory
use gwf.Common.{
  ℕ, String, Bool, true, false, Option, none, some, arith, eq_iff, Result, ok, err, ◌+◌, ◌≤◌, ◌<◌,
  ◌≡◌, ◌≢◌, ◌==◌, if◌then◌else◌, String_eq,
}
use gwf.Common.Int.{ℤ, pos, pos_part}

-- `until` is the end of the lifetime, on the store's clock; a value without lifetime has none.
pub record Entry : Type 0 where
  pub value : String
  pub until : Option ℕ

-- What is stored under each key.
abbrev pub Rows : Type 0
Rows = String → Option Entry

abbrev pub with_entry : String → Option Entry → Rows → Rows
with_entry key e rows k = if key == k then e else rows k

abbrev pub IsSame : Rows → Rows → Type 0
IsSame rows rows' = (k : String) → rows' k ≡ rows k

-- What `SetValueIfNotExists` may answer and leave behind.
pub data Put (key : String) (e : Entry) (rows : Rows) : Result String Bool → Rows → Type 0 where
  won :
      {rows' : Rows}
      → rows key ≡ none
      → IsSame (with_entry key (some e) rows) rows'
      → Put key e rows (ok true) rows'
  lost : {rows' : Rows} → rows key ≢ none → IsSame rows rows' → Put key e rows (ok false) rows'
  failed : {rows' : Rows} {m : String} → IsSame rows rows' → Put key e rows (err m) rows'
  failed_late :
      {rows' : Rows} {m : String}
      → rows key ≡ none
      → IsSame (with_entry key (some e) rows) rows'
      → Put key e rows (err m) rows'

-- Whether a value, as stored, is stored under a key.
abbrev pub HasValue : String → String → Rows → Type 0
HasValue key value rows = (u : Option ℕ) × (rows key ≡ some (record { value = value; until = u }))

-- What `DeleteValueIfEquals` may answer and leave behind.
pub data Drop (key value : String) (rows : Rows) : Result String Bool → Rows → Type 0 where
  dropped :
      {rows' : Rows}
      → HasValue key value rows
      → IsSame (with_entry key none rows) rows'
      → Drop key value rows (ok true) rows'
  kept :
      {rows' : Rows}
      → ¬ (HasValue key value rows)
      → IsSame rows rows'
      → Drop key value rows (ok false) rows'
  drop_failed : {rows' : Rows} {m : String} → IsSame rows rows' → Drop key value rows (err m) rows'
  drop_failed_late :
      {rows' : Rows} {m : String}
      → HasValue key value rows
      → IsSame (with_entry key none rows) rows'
      → Drop key value rows (err m) rows'

-- What `SetValueIfEquals` may answer and leave behind; the lifetime is kept.
pub data Swap (key expected value : String) (rows : Rows) : Result String Bool → Rows → Type 0 where
  swapped :
      {rows' : Rows} {u : Option ℕ}
      → rows key ≡ some (record { value = expected; until = u })
      → IsSame (with_entry key (some (record { value = value; until = u })) rows) rows'
      → Swap key expected value rows (ok true) rows'
  unequal :
      {rows' : Rows}
      → ¬ (HasValue key expected rows)
      → IsSame rows rows'
      → Swap key expected value rows (ok false) rows'
  swap_failed :
      {rows' : Rows} {m : String} → IsSame rows rows' → Swap key expected value rows (err m) rows'
  swap_failed_late :
      {rows' : Rows} {m : String} {u : Option ℕ}
      → rows key ≡ some (record { value = expected; until = u })
      → IsSame (with_entry key (some (record { value = value; until = u })) rows) rows'
      → Swap key expected value rows (err m) rows'

abbrev pub value_of : Option Entry → Option String
value_of none = none
value_of (some e) = some e.value

pub record Kvdb : Type 1 where
  pub Db : Type 0
  -- the store's clock, in nanoseconds, and what it holds at that moment
  pub now : Db → ℕ
  pub rows : Db → Rows
  -- the tick of the clock, in nanoseconds
  pub precision : ℕ
  -- time passes
  pub wait : ℕ → Db → Db
  pub set_value_if_not_exists : String → String → ℤ → Db → Result String Bool × Db
  pub set_value_persistent_if_not_exists : String → String → Db → Result String Bool × Db
  pub delete_value_if_equals : String → String → Db → Result String Bool × Db
  pub get_value : String → Db → Result String (Option String) × Db
  pub set_value_if_equals : String → String → String → Db → Result String Bool × Db
  pub expire : String → ℤ → Db → Result String Bool × Db
  pub now-wait : (d : ℕ) (db : Db) → now (wait d db) ≡ now db + d
  -- a value with a lifetime stays at least until its end
  pub rows-wait :
      (d : ℕ) (db : Db) (k v : String) (u : ℕ)
      → rows db k ≡ some (record { value = v; until = some u })
      → now db + d < u
      → rows (wait d db) k ≡ some (record { value = v; until = some u })
  -- a value without lifetime stays
  pub rows-wait_persistent :
      (d : ℕ) (db : Db) (k v : String)
      → rows db k ≡ some (record { value = v; until = none })
      → rows (wait d db) k ≡ some (record { value = v; until = none })
  -- the stored lifetime covers the one asked for
  pub set_value_if_not_exists_law :
      (key value : String) (lifetime : ℤ) (db : Db)
      → let r = set_value_if_not_exists key value lifetime db in
        (u : ℕ) × (now db + pos_part lifetime ≤ u)
        × Put key (record { value = value; until = some u }) (rows db) r.0 (rows r.1)
        × (now r.1 ≡ now db)
  pub set_value_persistent_if_not_exists_law :
      (key value : String) (db : Db)
      → let r = set_value_persistent_if_not_exists key value db in
        Put key (record { value = value; until = none }) (rows db) r.0 (rows r.1)
  pub delete_value_if_equals_law :
      (key value : String) (db : Db)
      → let r = delete_value_if_equals key value db in Drop key value (rows db) r.0 (rows r.1)
  pub get_value_law :
      (key : String) (db : Db)
      → let r = get_value key db in
        IsSame (rows db) (rows r.1)
        × ((v : Option String) → r.0 ≡ ok v → v ≡ value_of (rows db key))
  pub set_value_if_equals_law :
      (key expected value : String) (db : Db)
      → let r = set_value_if_equals key expected value db in
        Swap key expected value (rows db) r.0 (rows r.1)
  -- an expiry is a matter of its own key
  pub expire_law :
      (key : String) (lifetime : ℤ) (db : Db) (k : String)
      → key ≢ k
      → rows (expire key lifetime db).1 k ≡ rows db k
  -- and leaves its value there, unless the lifetime is over or shorter than the clock's tick
  pub expire_value_law :
      (key : String) (lifetime : ℕ) (db : Db)
      → 0 < lifetime
      → precision ≤ lifetime
      → value_of (rows (expire key (pos lifetime) db).1 key) ≡ value_of (rows db key)

module _ {key : String} {e : Entry} {rows rows' : Rows} where
  pub Put-won :
      {r : Result String Bool}
      → Put key e rows r rows'
      → r ≡ ok true
      → (rows key ≡ none) × IsSame (with_entry key (some e) rows) rows'
  Put-won (won free same) h = (free, same)
  Put-won (lost _ _) h = cc
  Put-won (failed _) h = cc
  Put-won (failed_late _ _) h = cc

  -- A conditional write leaves what is stored already.
  pub Put-keeps :
      {r : Result String Bool} (k : String) (x : Entry)
      → Put key e rows r rows'
      → rows k ≡ some x
      → rows' k ≡ some x
  Put-keeps k x (won free same) h = rw (same k) (ground (arith, eq_iff key k))
  Put-keeps k x (lost _ same) h = rw (same k) h
  Put-keeps k x (failed same) h = rw (same k) h
  Put-keeps k x (failed_late free same) h = rw (same k) (ground (arith, eq_iff key k))

module _ {key value : String} {rows rows' : Rows} where
  -- A conditional removal leaves the other keys.
  pub Drop-keeps :
      {r : Result String Bool} (k : String)
      → key ≢ k
      → Drop key value rows r rows'
      → rows' k ≡ rows k
  Drop-keeps k ne (dropped _ same) = rw (same k) (ground (arith, eq_iff key k))
  Drop-keeps k ne (kept _ same) = same k
  Drop-keeps k ne (drop_failed same) = same k
  Drop-keeps k ne (drop_failed_late _ same) = rw (same k) (ground (arith, eq_iff key k))

module _ {key expected value : String} {rows rows' : Rows} where
  -- A swap that was made has stored its value.
  pub Swap-value :
      {r : Result String Bool}
      → Swap key expected value rows r rows'
      → r ≡ ok true
      → value_of (rows' key) ≡ some value
  Swap-value (swapped found same) h = rw (same key) (ground (arith, eq_iff key key))
  Swap-value (unequal _ _) h = cc
  Swap-value (swap_failed _) h = cc
  Swap-value (swap_failed_late _ _) h = cc

  -- A swap answers no only if the value is another.
  pub Swap-unequal :
      {r : Result String Bool}
      → Swap key expected value rows r rows'
      → r ≡ ok false
      → ¬ (HasValue key expected rows)
  Swap-unequal (swapped _ _) h = cc
  Swap-unequal (unequal other _) h = other
  Swap-unequal (swap_failed _) h = cc
  Swap-unequal (swap_failed_late _ _) h = cc
