-- ===== src/Throttle/Kvdb/Admit.antt =====
-- gw/throttle/limiterkvdbbuckets.go: TryAdmit, over a store given as a parameter.
pub mod Unreadable
pub mod Refines
mod Tests
use Prim.Native.String.{◌++◌ as append}
use gwf.Common.{
  ℕ, zero, suc, String, Bool, true, false, Option, none, some, Result, ok, err, lookup, ◌+◌,
  if◌then◌else◌, String_eq,
}
use gwf.Common.Int.{ℤ, pos, negsuc, pos_part, leb_ℤ, wrap, ◌+ℤ◌}
use gwf.Kvdb.{Kvdb}
use gwf.Throttle.Bucket.{BucketConf, Bucket, add_time}
use gwf.Throttle.Kvdb.{LimiterKvdbBuckets, refusal_stands, remember_refusal, refilled, idle_ttl}
use gwf.Throttle.Kvdb.Text.{Stored, parse_bucket, format_bucket}

pub data AdmitError : Type 0 where
  store_failed : String → AdmitError
  unsettled : AdmitError
  -- a division by zero
  panicked : AdmitError

abbrev pub cas_attempts : ℕ
cas_attempts = 3

-- One turn of the loop comes to a verdict, or to another turn.
pub data Turn : Type 0 where
  admitted refused : Turn
  failed : AdmitError → Turn
  again : Turn

pub bucket_key : LimiterKvdbBuckets → String → String → String
bucket_key l group id = append l.prefix (append group (append ":" id))

before_epoch : ℤ → ℕ
before_epoch (pos n) = 0
before_epoch (negsuc n) = n + 1

at_moment : ℕ → ℕ → ℤ
at_moment zero n = pos n
at_moment (suc shift) n = pos n +ℤ negsuc shift

stored_of : ℕ → Option Bucket → Option Stored
unfolding at_moment
stored_of shift none = none
stored_of shift (some b) = some (record { tokens = b.tokens; last = at_moment shift b.last_check })

-- `refilled`, with both moments counted from the earlier of the epoch and the moment stored.
refilled_stored : BucketConf → ℕ → Stored → Option Stored
unfolding before_epoch stored_of refilled
refilled_stored conf now b =
    let shift = before_epoch b.last in
    stored_of shift
      (refilled conf (now + shift) (record { tokens = b.tokens; last_check = pos_part b.last }))

module _ (kvdb : Kvdb) where
  open kvdb use {Db}

  created : Result String Bool × Db → Turn × Db
  created (ok true, db) = (admitted, db)
  created (ok false, db) = (again, db)
  created (err m, db) = (failed (store_failed m), db)

  -- A lifetime that divides by zero panics before the write.
  create_with : Option ℤ → BucketConf → ℕ → String → Db → Turn × Db
  unfolding created
  create_with none conf now key db = (failed panicked, db)
  create_with (some ttl) conf now key db = created (
      kvdb.set_value_if_not_exists key (format_bucket (wrap (conf.burst +ℤ negsuc 0)) (pos now)) ttl
        db)

  create : BucketConf → ℕ → String → Db → Turn × Db
  unfolding create_with
  create conf now key db = create_with (idle_ttl conf) conf now key db

  extended : Result String Bool × Db → Turn × Db
  extended (ok b, db) = (admitted, db)
  extended (err m, db) = (failed (store_failed m), db)

  extend : Option ℤ → String → Db → Turn × Db
  unfolding extended
  extend none key db = (failed panicked, db)
  extend (some ttl) key db = extended (kvdb.expire key ttl db)

  spent : BucketConf → String → Result String Bool × Db → Turn × Db
  unfolding extend
  spent conf key (ok true, db) = extend (idle_ttl conf) key db
  spent conf key (ok false, db) = (again, db)
  spent conf key (err m, db) = (failed (store_failed m), db)

  -- The bucket read, refilled: empty, or a token less is written.
  spend : BucketConf → String → String → Option Stored → Db → Turn × Db
  unfolding spent
  spend conf key raw none db = (failed panicked, db)
  spend conf key raw (some b) db =
      if leb_ℤ b.tokens (pos 0)
      then (refused, db)
      else spent conf key
          (kvdb.set_value_if_equals key raw (format_bucket (wrap (b.tokens +ℤ negsuc 0)) b.last) db)

  -- The moment at which a refused bucket is worth asking again; one before the epoch has passed.
  ask_again : BucketConf → Option Stored → ℕ → ℕ
  ask_again conf none now = now
  ask_again conf (some b) now = pos_part (b.last +ℤ conf.incr_period)

  settle : BucketConf → ℕ → String → Option String → Option Stored → Db → Turn × Db × ℕ
  unfolding create spend ask_again refilled_stored
  settle conf now key none held db = let t = create conf now key db in (t.0, t.1, now)
  settle conf now key (some raw) none db = let t = create conf now key db in (t.0, t.1, now)
  settle conf now key (some raw) (some b) db =
      let r = refilled_stored conf now b in
      let t = spend conf key raw r db in (t.0, t.1, ask_again conf r now)

  read_turn : BucketConf → ℕ → String → Result String (Option String) × Db → Turn × Db × ℕ
  unfolding settle
  read_turn conf now key (err m, db) = (failed (store_failed m), db, now)
  read_turn conf now key (ok raw, db) = settle conf now key raw (parse_bucket raw) db

  next :
      Turn
      → Db
      → ℕ
      → (Db → Result AdmitError Bool × Db × Option ℕ)
      → Result AdmitError Bool × Db × Option ℕ
  next admitted db until more = (ok true, db, none)
  next refused db until more = (ok false, db, some until)
  next (failed e) db until more = (err e, db, none)
  next again db until more = more db

  -- The verdict, the store, and the moment to remember of a refusal.
  pub attempts : ℕ → BucketConf → ℕ → String → Db → Result AdmitError Bool × Db × Option ℕ
  unfolding read_turn next
  attempts zero conf now key db = (err unsettled, db, none)
  attempts (suc n) conf now key db =
      let t = read_turn conf now key (kvdb.get_value key db) in
      next t.0 t.1 t.2 (λ db'. attempts n conf now key db')

  remembered :
      String
      → ℕ
      → LimiterKvdbBuckets
      → Result AdmitError Bool × Db × Option ℕ
      → Result AdmitError Bool × LimiterKvdbBuckets × Db
  unfolding remember_refusal
  remembered key now l (r, db, none) = (r, l, db)
  remembered key now l (r, db, some until) = (r, remember_refusal key until now l, db)

  ask_group :
      Option BucketConf
      → String
      → ℕ
      → LimiterKvdbBuckets
      → Db
      → Result AdmitError Bool × LimiterKvdbBuckets × Db
  unfolding remembered attempts refusal_stands
  ask_group none key now l db = (ok false, l, db)
  ask_group (some conf) key now l db =
      if refusal_stands key now l
      then (ok false, l, db)
      else remembered key now l (attempts cas_attempts conf now key db)

  pub try_admit :
      String
      → String
      → ℕ
      → LimiterKvdbBuckets
      → Db
      → Result AdmitError Bool × LimiterKvdbBuckets × Db
  unfolding ask_group bucket_key
  try_admit group id now l db = ask_group (lookup group l.groups) (bucket_key l group id) now l db
