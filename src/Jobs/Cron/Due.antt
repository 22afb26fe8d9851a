-- ===== src/Jobs/Cron/Due.antt =====
-- A cron job is due when each part of the moment is among those it lists.
use native.Mathlib.Nat.{two-pow-succ}
use gwf.Common.{
  ℕ, zero, suc, String, refl, Bool, true, false, List, arith, nat_eq, ◌+◌, ◌-◌, ◌*◌, ◌/◌, ◌%◌, ◌^◌,
  ◌≤◌, ◌<◌, ◌≡◌, ◌&&◌, ◌||◌, ◌∷◌, [], ℕ_eq,
}
use gwf.Common.Int.{ℤ, pos, negsuc}
use gwf.Jobs.{Scope, CronJob}
use gwf.Jobs.Cron.{
  Time, IsCivil, has_bit, set_bit, add_below, bits_below, bits_from_minutes, bits_from_hours,
  bits_from_weekdays, add_day, bits_of_days, bits_from_days_of_month, new_every_min_empty_cron_job,
  matches,
}

has_bit-set_bit : (v w bits : ℕ) → has_bit w (set_bit v bits) ≡ (nat_eq v w || has_bit w bits)
unfolding has_bit set_bit
has_bit-set_bit zero zero bits = ground arith
has_bit-set_bit zero (suc w) bits =
    let e : (bits / 2 * 2 + 1) / 2 ≡ bits / 2 = omega arith in rw e (ground arith)
has_bit-set_bit (suc v) zero bits = ground arith
has_bit-set_bit (suc v) (suc w) bits =
    let e : (bits % 2 + 2 * set_bit v (bits / 2)) / 2 ≡ set_bit v (bits / 2) = omega arith in
    rw e (ground (arith, has_bit-set_bit v w (bits / 2)))

-- Whether a list names a number.
abbrev pub mentions : List ℤ → ℕ → Bool
mentions [] w = false
mentions (pos v ∷ list) w = nat_eq v w || mentions list w
mentions (negsuc v ∷ list) w = mentions list w

has_bit-bits_below :
    (limit w bits : ℕ) (list : List ℤ)
    → w < limit
    → has_bit w (bits_below limit bits list) ≡ (has_bit w bits || mentions list w)
unfolding bits_below add_below
has_bit-bits_below limit w bits [] h = ground arith
has_bit-bits_below limit w bits (pos v ∷ list) h = ground (
  arith,
  has_bit-bits_below limit w (add_below limit (pos v) bits) list h,
  has_bit-set_bit v w bits,
)
has_bit-bits_below limit w bits (negsuc v ∷ list) h = has_bit-bits_below limit w bits list h

has_bit-bits_of_days :
    (w bits : ℕ) (list : List ℤ)
    → w < 31
    → has_bit w (bits_of_days bits list) ≡ (has_bit w bits || mentions list (suc w))
unfolding bits_of_days add_day
has_bit-bits_of_days w bits [] h = ground arith
has_bit-bits_of_days w bits (pos v ∷ list) h =
    ground
      (arith, has_bit-bits_of_days w (add_day (pos v) bits) list h, has_bit-set_bit (v - 1) w bits)
has_bit-bits_of_days w bits (negsuc v ∷ list) h = has_bit-bits_of_days w bits list h

has_bit-zero : (w : ℕ) → has_bit w 0 ≡ false
unfolding has_bit
has_bit-zero zero = refl
has_bit-zero (suc w) = has_bit-zero w

-- At a moment whose parts are in range, a cron job whose sets are made from four lists is due
-- exactly if its lists name the minute, the hour, the day of the month and the day of the week.
pub matches_lem :
    (job : CronJob) (minutes hours days weekdays : List ℤ) (now : Time)
    → IsCivil now
    → matches
        (record job {
          minutes = bits_from_minutes minutes;
          hours = bits_from_hours hours;
          days_of_month = bits_from_days_of_month days;
          weekdays = bits_from_weekdays weekdays;
        })
        now
      ≡ (mentions minutes now.minute
          && mentions hours now.hour
          && mentions days now.day
          && mentions weekdays now.weekday)
unfolding matches bits_from_minutes bits_from_hours bits_from_days_of_month bits_from_weekdays
matches_lem job minutes hours days weekdays now c =
    let day : suc (now.day - 1) ≡ now.day = omega (arith, c.day_range) in
    rw
      (
        has_bit-bits_below 60 now.minute 0 minutes c.minute_range,
        has_bit-bits_below 24 now.hour 0 hours c.hour_range,
        has_bit-bits_of_days (now.day - 1) 0 days (omega (arith, c.day_range)),
        has_bit-bits_below 7 now.weekday 0 weekdays c.weekday_range,
        has_bit-zero now.minute,
        has_bit-zero now.hour,
        has_bit-zero (now.day - 1),
        has_bit-zero now.weekday,
        day,
      )
      (ground arith)

pow_pos : (n : ℕ) → 1 ≤ 2 ^ n
pow_pos zero = omega arith
pow_pos (suc n) = omega (arith, two-pow-succ n, pow_pos n)

has_bit-full : (n w : ℕ) → w < n → has_bit w (2 ^ n - 1) ≡ true
unfolding has_bit
has_bit-full zero w h = absurd (omega arith)
has_bit-full (suc n) zero h = ground (arith, two-pow-succ n, pow_pos n)
has_bit-full (suc n) (suc w) h =
    let e : (2 ^ suc n - 1) / 2 ≡ 2 ^ n - 1 = omega (arith, two-pow-succ n, pow_pos n) in
    rw e (has_bit-full n w (omega arith))

-- The template is due at every moment whose parts are in range.
pub matches-new_every_min_empty_cron_job :
    (id : String) (scope : Scope) (now : Time)
    → IsCivil now
    → matches (new_every_min_empty_cron_job id scope) now ≡ true
unfolding matches new_every_min_empty_cron_job
matches-new_every_min_empty_cron_job id scope now c =
    rw
      (
        has_bit-full 60 now.minute c.minute_range,
        has_bit-full 24 now.hour c.hour_range,
        has_bit-full 31 (now.day - 1) (omega (arith, c.day_range)),
        has_bit-full 7 now.weekday c.weekday_range,
      )
      refl
