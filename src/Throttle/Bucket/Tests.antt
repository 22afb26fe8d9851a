-- ===== src/Throttle/Bucket/Tests.antt =====
-- A rate of five, and one more every second.
use gwf.Common.{ℕ, true, false, some, arith, ltb, ◌+◌, ◌-◌, ◌≤◌, ◌≡◌, ◌∷◌, [], if◌then◌else◌}
use gwf.Throttle.Bucket.{Bucket, try_admit}
use gwf.Throttle.Bucket.Refill.{Rate, conf_of, IsSane, holding}
use gwf.Throttle.Bucket.Rate.{found, moved, try_admit_lem, admitted, worth, admitted-le}

abbrev pub five : Rate
five = record { burst = 5; increment = 1; incr_period = 1000000000 }

pub five-IsSane : IsSane five
five-IsSane = record { some_burst = omega arith; some_period = omega arith; fits = omega arith }

try_admit_example :
    try_admit (conf_of five) 3000000000 (holding 0 0)
    ≡ some (
        if ltb 0 (found five 0 0 3000000000)
        then (true, holding (found five 0 0 3000000000 - 1) (moved five 0 3000000000))
        else (false, holding 0 (moved five 0 3000000000)))
try_admit_example = try_admit_lem five 0 0 3000000000 five-IsSane (omega arith)

admitted-le_example :
    (n : ℕ) × (b : Bucket) × (admitted (conf_of five) (holding 1 0) (10 ∷ 20 ∷ 1500000000 ∷ [])
      ≡ some (n, b))
    × (n ≤ 1 + worth five 0 2000000000)
admitted-le_example =
    admitted-le five 1 0 2000000000 (10 ∷ 20 ∷ 1500000000 ∷ []) five-IsSane (omega arith)
      (omega arith, (omega arith, (omega arith, tt)))
