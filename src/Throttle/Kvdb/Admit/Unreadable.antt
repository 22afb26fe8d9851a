-- ===== src/Throttle/Kvdb/Admit/Unreadable.antt =====
-- A stored value that cannot be read as a bucket.
use gwf.Common.{
  ℕ, zero, suc, String, refl, ap, Bool, true, false, Option, none, some, arith, Result, ok, err,
  lookup, ◌≡◌, ◌∙◌, ◌≢◌, String_eq,
}
use gwf.Common.Int.{ℤ}
use gwf.Kvdb.{Entry, Put, Put-won, Put-keeps, value_of, Kvdb}
use gwf.Throttle.Bucket.{BucketConf}
use gwf.Throttle.Kvdb.Text.{parse_bucket}
use gwf.Throttle.Kvdb.{LimiterKvdbBuckets, refusal_stands, idle_ttl}
use gwf.Throttle.Kvdb.Admit.{
  Turn, admitted, refused, failed, again, AdmitError, cas_attempts, bucket_key, created,
  create_with, create, settle, read_turn, next, attempts, remembered, ask_group, try_admit,
}

abbrev IsStuck : Turn → Type 0
IsStuck again = Unit
IsStuck (failed e) = Unit
IsStuck _ = ⊥

module _ (kvdb : Kvdb) where
  open kvdb use {Db, rows}

  created-IsStuck :
      (key : String) (e x : Entry) (db : Db) (r : Result String Bool) (db' : Db)
      → rows db key ≡ some x
      → Put key e (rows db) r (rows db')
      → IsStuck (created kvdb (r, db')).0 × (rows (created kvdb (r, db')).1 key ≡ some x)
  unfolding created
  created-IsStuck key e x db (ok true) db' h put = absurd (ground (arith, (Put-won put refl).0, h))
  created-IsStuck key e x db (ok false) db' h put = (tt, Put-keeps key x put h)
  created-IsStuck key e x db (err m) db' h put = (tt, Put-keeps key x put h)

  create_with-IsStuck :
      (ttl : Option ℤ) (conf : BucketConf) (now : ℕ) (key : String) (x : Entry) (db : Db)
      → rows db key ≡ some x
      → let t = create_with kvdb ttl conf now key db in IsStuck t.0 × (rows t.1 key ≡ some x)
  unfolding create_with
  create_with-IsStuck none conf now key x db h = (tt, h)
  create_with-IsStuck (some ttl) conf now key x db h =
      let (u, covers, put, same) = kvdb.set_value_if_not_exists_law key _ ttl db in
      created-IsStuck key (record { value = _; until = some u }) x db _ _ h put

  settle-IsStuck :
      (conf : BucketConf) (now : ℕ) (key : String) (x : Entry) (raw : Option String) (db : Db)
      → rows db key ≡ some x
      → raw ≡ some x.value
      → let t = settle kvdb conf now key raw none db in IsStuck t.0 × (rows t.1 key ≡ some x)
  unfolding settle create
  settle-IsStuck conf now key x none db h e = cc
  settle-IsStuck conf now key x (some raw) db h e =
      create_with-IsStuck (idle_ttl conf) conf now key x db h

  read_turn-IsStuck :
      (conf : BucketConf) (now : ℕ) (key : String) (x : Entry) (r : Result String (Option String))
      (db : Db)
      → rows db key ≡ some x
      → parse_bucket (some x.value) ≡ none
      → ((v : Option String) → r ≡ ok v → v ≡ some x.value)
      → let t = read_turn kvdb conf now key (r, db) in IsStuck t.0 × (rows t.1 key ≡ some x)
  unfolding read_turn
  read_turn-IsStuck conf now key x (err m) db h bad says = (tt, h)
  read_turn-IsStuck conf now key x (ok raw) db h bad says =
      let e : raw ≡ some x.value = says raw refl in
      let unread : parse_bucket raw ≡ none = rw e bad in
      rw unread (settle-IsStuck conf now key x raw db h e)

  -- Neither an admission nor a refusal, and the value is as it was.
  abbrev pub IsUndecided : String → Entry → Result AdmitError Bool → Db → Type 0
  IsUndecided key x r db = ((b : Bool) → r ≢ ok b) × (rows db key ≡ some x)

  next-IsUndecided :
      (key : String) (x : Entry) (t : Turn) (db : Db) (until : ℕ)
      (more : Db → Result AdmitError Bool × Db × Option ℕ)
      → IsStuck t
      → rows db key ≡ some x
      → ((db' : Db) → rows db' key ≡ some x → IsUndecided key x (more db').0 (more db').1)
      → IsUndecided key x (next kvdb t db until more).0 (next kvdb t db until more).1
  unfolding next
  next-IsUndecided key x admitted db until more stuck h rest = absurd stuck
  next-IsUndecided key x refused db until more stuck h rest = absurd stuck
  next-IsUndecided key x (failed e) db until more stuck h rest = (λ b e'. cc, h)
  next-IsUndecided key x again db until more stuck h rest = rest db h

  pub attempts-IsUndecided :
      (n : ℕ) (conf : BucketConf) (now : ℕ) (key : String) (x : Entry) (db : Db)
      → rows db key ≡ some x
      → parse_bucket (some x.value) ≡ none
      → let a = attempts kvdb n conf now key db in IsUndecided key x a.0 a.1
  unfolding attempts
  attempts-IsUndecided zero conf now key x db h bad = (λ b e. cc, h)
  attempts-IsUndecided (suc n) conf now key x db h bad =
      let got = kvdb.get_value key db in
      let (same, says) = kvdb.get_value_law key db in
      let stuck =
        read_turn-IsStuck conf now key x got.0 got.1 (same key ∙ h) bad
          (λ v e. says v e ∙ ap value_of h) in
      let t = read_turn kvdb conf now key got in
      next-IsUndecided key x t.0 t.1 t.2 (λ db'. attempts kvdb n conf now key db') stuck.0 stuck.1
        (λ db' there. attempts-IsUndecided n conf now key x db' there bad)

  remembered-IsUndecided :
      (key other : String) (now : ℕ) (l : LimiterKvdbBuckets) (x : Entry)
      (a : Result AdmitError Bool × Db × Option ℕ)
      → IsUndecided other x a.0 a.1
      → let r = remembered kvdb key now l a in IsUndecided other x r.0 r.2
  unfolding remembered
  remembered-IsUndecided key other now l x (r, db, none) u = u
  remembered-IsUndecided key other now l x (r, db, some until) u = u

  ask_group-IsUndecided :
      (conf : BucketConf) (key : String) (now : ℕ) (l : LimiterKvdbBuckets) (x : Entry) (db : Db)
      → refusal_stands key now l ≡ false
      → rows db key ≡ some x
      → parse_bucket (some x.value) ≡ none
      → let r = ask_group kvdb (some conf) key now l db in IsUndecided key x r.0 r.2
  unfolding ask_group
  ask_group-IsUndecided conf key now l x db none_stands h bad = simp none_stands (
      remembered-IsUndecided key key now l x (attempts kvdb cas_attempts conf now key db)
        (attempts-IsUndecided cas_attempts conf now key x db h bad))

  -- While the store holds a value that is no bucket, no call for that bucket comes to a verdict where
  -- none is remembered, and each leaves the value there: the write that is to replace it is one that
  -- an existing value refuses.
  pub try_admit-IsUndecided :
      (group id : String) (conf : BucketConf) (now : ℕ) (l : LimiterKvdbBuckets) (x : Entry)
      (db : Db)
      → lookup group l.groups ≡ some conf
      → refusal_stands (bucket_key l group id) now l ≡ false
      → rows db (bucket_key l group id) ≡ some x
      → parse_bucket (some x.value) ≡ none
      → let r = try_admit kvdb group id now l db in IsUndecided (bucket_key l group id) x r.0 r.2
  unfolding try_admit
  try_admit-IsUndecided group id conf now l x db known none_stands h bad =
      rw known (ask_group-IsUndecided conf (bucket_key l group id) now l x db none_stands h bad)
