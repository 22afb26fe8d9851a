-- ===== src/Throttle/Kvdb/Admit/Refines.antt =====
-- TryAdmit over a store, and the bucket in memory.
use gwf.Common.{
  ℕ, suc, String, refl, ap, inl, inr, Bool, true, false, Option, none, some, arith, Bool-cases,
  Option-cases, Result, ok, err, lookup, ◌+◌, ◌≤◌, ◌<◌, ◌≡◌, ◌∙◌, String_eq,
}
use gwf.Common.Int.{ℤ, pos, negsuc, leb_ℤ, wrap, ◌+ℤ◌}
use gwf.Kvdb.{Entry, Rows, Swap, value_of, Swap-value, Swap-unequal, Kvdb}
use gwf.Throttle.Bucket.{BucketConf, Bucket, refill, take_token, try_admit as bucket_try_admit}
use gwf.Throttle.Kvdb.Text.{parse_bucket, format_bucket}
use gwf.Throttle.Kvdb.{LimiterKvdbBuckets, refusal_stands, idle_ttl}
use gwf.Throttle.Kvdb.Memory.{refilled_lem}
use gwf.Throttle.Kvdb.Admit.{
  Turn, AdmitError, store_failed, panicked, cas_attempts, bucket_key, at_moment, before_epoch,
  stored_of, refilled_stored, extended, extend, spent, spend, settle, read_turn, next, attempts,
  remembered, ask_group, try_admit,
}

-- What a call may answer and leave behind, by what the bucket in memory does.
pub data Refines (conf : BucketConf) (now : ℕ) (b : Bucket) (key : String) (x : Entry)
    : Result AdmitError Bool → Rows → Type 0 where
  store_down : {m : String} {rows : Rows} → Refines conf now b key x (err (store_failed m)) rows
  divided_by_zero :
      {rows : Rows}
      → bucket_try_admit conf now b ≡ none
      → Refines conf now b key x (err panicked) rows
  refuses :
      {rows : Rows} {b' : Bucket}
      → bucket_try_admit conf now b ≡ some (false, b')
      → rows key ≡ some x
      → Refines conf now b key x (ok false) rows
  admits :
      {rows : Rows} {b' : Bucket}
      → bucket_try_admit conf now b ≡ some (true, b')
      → value_of (rows key) ≡ some (format_bucket b'.tokens (pos b'.last_check))
      → Refines conf now b key x (ok true) rows

refilled_stored_lem :
    (conf : BucketConf) (now last : ℕ) (tokens : ℤ)
    → refilled_stored conf now (record { tokens = tokens; last = pos last })
      ≡ stored_of 0 (refill conf now (record { tokens = tokens; last_check = last }))
unfolding refilled_stored before_epoch
refilled_stored_lem conf now last tokens =
    let same : now + 0 ≡ now = omega arith in
    rw same
      (ap (stored_of 0) (refilled_lem conf now (record { tokens = tokens; last_check = last })))

module _ (kvdb : Kvdb) (conf : BucketConf) (now : ℕ) (b : Bucket) (key : String) (x : Entry)
    (life : ℕ) (ttl : idle_ttl conf ≡ some (pos life)) (lasts : 0 < life)
    (ticks : kvdb.precision ≤ life) where
  open kvdb use {Db, rows}

  -- Where a turn that came to `t` leads, whatever the later ones do.
  abbrev LeadsTo : Turn × Db → Type 0
  LeadsTo t =
      (until : ℕ) (more : Db → Result AdmitError Bool × Db × Option ℕ)
      → let n = next kvdb t.0 t.1 until more in Refines conf now b key x n.0 (rows n.1)

  extended-LeadsTo :
      (b' : Bucket) (r : Result String Bool) (db : Db)
      → bucket_try_admit conf now b ≡ some (true, b')
      → value_of (rows db key) ≡ some (format_bucket b'.tokens (pos b'.last_check))
      → LeadsTo (extended kvdb (r, db))
  unfolding extended next
  extended-LeadsTo b' (ok a) db h v until more = admits h v
  extended-LeadsTo b' (err m) db h v until more = store_down

  spent-LeadsTo :
      (b' : Bucket) (r : Result String Bool) (db db' : Db)
      → rows db key ≡ some x
      → bucket_try_admit conf now b ≡ some (true, b')
      → Swap key x.value (format_bucket b'.tokens (pos b'.last_check)) (rows db) r (rows db')
      → LeadsTo (spent kvdb conf key (r, db'))
  unfolding spent extend next
  spent-LeadsTo b' (ok true) db db' held h s =
      let e = kvdb.expire key (pos life) db' in
      simp ttl (
        extended-LeadsTo b' e.0 e.1 h
          (kvdb.expire_value_law key life db' lasts ticks ∙ Swap-value s refl))
  spent-LeadsTo b' (ok false) db db' held h s = absurd (Swap-unequal s refl (x.until, held))
  spent-LeadsTo b' (err m) db db' held h s = λ until more. store_down

  spend-LeadsTo :
      (db : Db)
      → rows db key ≡ some x
      → LeadsTo (spend kvdb conf key x.value (stored_of 0 (refill conf now b)) db)
  unfolding spend stored_of at_moment bucket_try_admit next take_token
  spend-LeadsTo db held = elim (Option-cases (refill conf now b)) [
    | inl panics ↦ λ until more. rw panics (divided_by_zero (rw panics refl))
    | inr (b', found) ↦ elim (Bool-cases (leb_ℤ b'.tokens (pos 0))) [
      | inl spent_up ↦ λ until more.
          simp (found, spent_up) (refuses {b' = b'} (simp (found, spent_up) refl) held)
      | inr has_some ↦
          let after : Bucket = record b' { tokens = wrap (b'.tokens +ℤ negsuc 0) } in
          let new = format_bucket after.tokens (pos b'.last_check) in
          let s = kvdb.set_value_if_equals key x.value new db in
          simp (found, has_some)
            (spent-LeadsTo after s.0 db s.1 held (simp (found, has_some) refl)
              (kvdb.set_value_if_equals_law key x.value new db))
    ]
  ]

  read_turn-LeadsTo :
      (r : Result String (Option String)) (db : Db)
      → rows db key ≡ some x
      → parse_bucket (some x.value) ≡ some (record { tokens = b.tokens; last = pos b.last_check })
      → ((v : Option String) → r ≡ ok v → v ≡ some x.value)
      → let t = read_turn kvdb conf now key (r, db) in LeadsTo (t.0, t.1)
  unfolding read_turn settle next
  read_turn-LeadsTo (err m) db held reads says = λ until more. store_down
  read_turn-LeadsTo (ok raw) db held reads says =
      let e : raw ≡ some x.value = says raw refl in
      rw (e, reads, refilled_stored_lem conf now b.last_check b.tokens) (spend-LeadsTo db held)

  attempts-Refines :
      (n : ℕ) (db : Db)
      → rows db key ≡ some x
      → parse_bucket (some x.value) ≡ some (record { tokens = b.tokens; last = pos b.last_check })
      → let a = attempts kvdb (suc n) conf now key db in Refines conf now b key x a.0 (rows a.1)
  unfolding attempts
  attempts-Refines n db held reads =
      let got = kvdb.get_value key db in
      let (same, says) = kvdb.get_value_law key db in
      read_turn-LeadsTo got.0 got.1 (same key ∙ held) reads (λ v e. says v e ∙ ap value_of held) _ _

  remembered-Refines :
      (l : LimiterKvdbBuckets) (a : Result AdmitError Bool × Db × Option ℕ)
      → Refines conf now b key x a.0 (rows a.1)
      → let r = remembered kvdb key now l a in Refines conf now b key x r.0 (rows r.2)
  unfolding remembered
  remembered-Refines l (r, db, none) h = h
  remembered-Refines l (r, db, some until) h = h

  ask_group-Refines :
      (l : LimiterKvdbBuckets) (db : Db)
      → refusal_stands key now l ≡ false
      → rows db key ≡ some x
      → parse_bucket (some x.value) ≡ some (record { tokens = b.tokens; last = pos b.last_check })
      → let r = ask_group kvdb (some conf) key now l db in Refines conf now b key x r.0 (rows r.2)
  unfolding ask_group
  ask_group-Refines l db none_stands held reads = simp none_stands (
      remembered-Refines l (attempts kvdb cas_attempts conf now key db)
        (attempts-Refines 2 db held reads))

-- Where no refusal is remembered, the store holds a bucket, and the lifetime of a bucket is not shorter
-- than the tick of the store's clock, a call that no other disturbs answers
-- as the bucket in memory does, and an admission leaves in the store the bucket that it becomes there;
-- a refusal leaves the store's. The only other outcomes are an error of the store, and a panic where
-- the bucket in memory divides by zero.
pub try_admit-Refines :
    (kvdb : Kvdb) (group id : String) (conf : BucketConf) (now : ℕ) (b : Bucket)
    (l : LimiterKvdbBuckets) (x : Entry) (db : kvdb.Db) (life : ℕ)
    → lookup group l.groups ≡ some conf
    → refusal_stands (bucket_key l group id) now l ≡ false
    → idle_ttl conf ≡ some (pos life)
    → 0 < life
    → kvdb.precision ≤ life
    → kvdb.rows db (bucket_key l group id) ≡ some x
    → parse_bucket (some x.value) ≡ some (record { tokens = b.tokens; last = pos b.last_check })
    → let r = try_admit kvdb group id now l db in
      Refines conf now b (bucket_key l group id) x r.0 (kvdb.rows r.2)
unfolding try_admit
try_admit-Refines kvdb group id conf now b l x db life known none_stands ttl lasts ticks held
      reads =
    rw known (
      ask_group-Refines kvdb conf now b (bucket_key l group id) x life ttl lasts ticks l db
        none_stands held reads)
