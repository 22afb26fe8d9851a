-- ===== src/Throttle/Bucket.antt =====
-- gw/throttle/bucket.go and bucketconf.go: one token bucket. A moment is a number of nanoseconds
-- since a fixed origin; a method runs under the bucket's mutex, so it is one step.
pub mod Refill
pub mod Rate
pub mod Tests
use mathlib.Core.Option
use gwf.Common.{ℕ, min, Bool, true, false, Option, some, map, leb, ◌-◌, if◌then◌else◌}
use gwf.Common.Int.{ℤ, pos, negsuc, pos_part, sub_ℕ, ◌+ℤ◌, ◌*ℤ◌, leb_ℤ, ltb_ℤ, quot, wrap, max_int}

pub record BucketConf : Type 0 where
  pub burst : ℤ
  pub increment : ℤ
  pub incr_period : ℤ

-- `parentGroup` is the argument `conf` of the operations.
pub record Bucket : Type 0 where
  pub tokens : ℤ
  pub last_check : ℕ

-- `now.Sub(last)`: a `time.Duration`, saturated.
unfoldable pub sub_time : ℕ → ℕ → ℤ
sub_time now last =
    if leb last now then pos (min (now - last) max_int) else negsuc (min (last - now - 1) max_int)

-- `last.Add(d)`.
unfoldable pub add_time : ℕ → ℤ → ℕ
add_time last d = pos_part (pos last +ℤ d)

abbrev pub cap_at : ℤ → ℤ → ℤ
cap_at burst tokens = if ltb_ℤ burst tokens then burst else tokens

refill_by : BucketConf → Bucket → ℤ → Bucket
refill_by conf b times = record {
  tokens = cap_at conf.burst (wrap (b.tokens +ℤ wrap (times *ℤ conf.increment)));
  last_check = add_time b.last_check (wrap (times *ℤ conf.incr_period));
}

-- `none` is the panic of a division by zero.
unfoldable pub refill : BucketConf → ℕ → Bucket → Option Bucket
unfolding refill_by
refill conf now b =
    let elapsed = sub_time now b.last_check in
    if leb_ℤ conf.incr_period elapsed
    then Option.map (λ times. refill_by conf b (wrap times)) (quot elapsed conf.incr_period)
    else some b

unfoldable pub take_token : Bucket → Bool × Bucket
take_token b =
    if leb_ℤ b.tokens (pos 0)
    then (false, b)
    else (true, record b { tokens = wrap (b.tokens +ℤ negsuc 0) })

unfoldable pub try_admit : BucketConf → ℕ → Bucket → Option (Bool × Bucket)
unfolding take_token
try_admit conf now b = Option.map take_token (refill conf now b)
