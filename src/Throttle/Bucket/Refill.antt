-- ===== src/Throttle/Bucket/Refill.antt =====
-- What `refill` computes at a rate that cannot overflow an `int`: whole periods only, capped.
use native.Mathlib.Decide.{dec_le}
use native.Mathlib.Nat.{mul-le-mul_right, div-le_self, div-eq_of_lt}
use gwf.Common.{ℕ, min, some, arith, ◌+◌, ◌-◌, ◌*◌, ◌/◌, ◌≤◌, ◌<◌, ◌≡◌}
use gwf.Common.Int.{pos, wrap_pos, max_int, +ℤ-pos, *ℤ-pos, quot}
use gwf.Throttle.Bucket.{BucketConf, Bucket, refill, refill_by, sub_time, add_time}

-- A group's numbers when they are not negative.
pub record Rate : Type 0 where
  pub burst : ℕ
  pub increment : ℕ
  pub incr_period : ℕ

abbrev pub conf_of : Rate → BucketConf
conf_of r = record {
  burst = pos r.burst;
  increment = pos r.increment;
  incr_period = pos r.incr_period;
}

-- Positive numbers, and no count of periods that a `time.Duration` can span overflows an `int`.
pub record IsSane (r : Rate) : Type 0 where
  pub some_burst : 1 ≤ r.burst
  pub some_period : 1 ≤ r.incr_period
  pub fits : r.burst + (max_int / r.incr_period) * r.increment ≤ max_int

abbrev pub holding : ℕ → ℕ → Bucket
holding t last = record { tokens = pos t; last_check = last }

-- The whole periods between two moments.
unfoldable pub periods : Rate → ℕ → ℕ → ℕ
periods r last now = min (now - last) max_int / r.incr_period

periods-le :
    (r : Rate) (last now : ℕ) → 1 ≤ r.incr_period → periods r last now ≤ max_int / r.incr_period
unfolding periods
periods-le r last now h = grind arith

pub periods-mul-le :
    (r : Rate) (last now : ℕ)
    → 1 ≤ r.incr_period
    → periods r last now * r.incr_period ≤ min (now - last) max_int
unfolding periods
periods-mul-le r last now h = grind arith

-- No wrap-around happens for a count of periods that a duration can hold.
refill_by_lem :
    (r : Rate) (t last k : ℕ)
    → t + k * r.increment ≤ max_int
    → k * r.incr_period ≤ max_int
    → refill_by (conf_of r) (holding t last) (pos k)
      ≡ holding (min r.burst (t + k * r.increment)) (last + k * r.incr_period)
unfolding refill_by add_time
refill_by_lem r t last k h h' =
    rw
      (
        *ℤ-pos,
        *ℤ-pos,
        wrap_pos _ h',
        wrap_pos (k * r.increment) (omega arith),
        +ℤ-pos,
        +ℤ-pos,
        wrap_pos _ h,
      )
      (ground arith)

-- The count of periods stays in range, and so do the tokens and the moment.
periods_fit :
    (r : Rate) (t last now : ℕ)
    → IsSane r
    → t ≤ r.burst
    → (t + periods r last now * r.increment ≤ max_int)
      × (periods r last now * r.incr_period ≤ max_int)
      × (periods r last now ≤ max_int)
periods_fit r t last now s h =
    let le = periods-le r last now s.some_period in
    let scaled = mul-le-mul_right r.increment le in
    let span = periods-mul-le r last now s.some_period in
    (omega arith, omega arith, omega (arith, small))
  where
    small : periods r last now ≤ min (now - last) max_int
    small = unfold periods in div-le_self (min (now - last) max_int) r.incr_period

after : Rate → ℕ → ℕ → ℕ → Bucket
after r t last k = holding (min r.burst (t + k * r.increment)) (last + k * r.incr_period)

sub_time_past : (last now : ℕ) → last ≤ now → sub_time now last ≡ pos (min (now - last) max_int)
unfolding sub_time
sub_time_past last now h = ground arith

refill_due :
    (r : Rate) (t last now : ℕ)
    → IsSane r
    → t ≤ r.burst
    → last ≤ now
    → r.incr_period ≤ min (now - last) max_int
    → refill (conf_of r) now (holding t last) ≡ some (after r t last (periods r last now))
unfolding refill quot after periods
refill_due r t last now s h past due =
    let (fits, spans, small) = periods_fit r t last now s h in
    let by = refill_by_lem r t last (periods r last now) fits spans in
    let unwrapped = wrap_pos (periods r last now) small in
    let elapsed = sub_time_past last now past in rw elapsed (ground (arith, by, unwrapped))

refill_early :
    (r : Rate) (t last now : ℕ)
    → IsSane r
    → t ≤ r.burst
    → min (now - last) max_int < r.incr_period
    → refill (conf_of r) now (holding t last) ≡ some (after r t last (periods r last now))
unfolding refill sub_time after periods
refill_early r t last now s h early = rw (div-eq_of_lt early) (ground arith)

-- `refill` adds the increment of each whole period, up to the burst, and moves the moment by those periods.
pub refill_lem :
    (r : Rate) (t last now : ℕ)
    → IsSane r
    → t ≤ r.burst
    → refill (conf_of r) now (holding t last)
      ≡ some (
          holding
            (min r.burst (t + periods r last now * r.increment))
            (last + periods r last now * r.incr_period))
unfolding after
refill_lem r t last now s h = elim (dec_le r.incr_period (min (now - last) max_int)) [
  | yes due ↦ refill_due r t last now s h (let p = s.some_period in omega arith) due
  | no early ↦ refill_early r t last now s h (omega arith)
]
