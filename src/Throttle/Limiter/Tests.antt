-- ===== src/Throttle/Limiter/Tests.antt =====
-- A limiter with one group and one empty bucket.
use gwf.Common.{
  String, refl, true, false, some, arith, lookup, insert, ◌+◌, ◌≤◌, ◌<◌, ◌≡◌, ◌&&◌, ◌∷◌, ◌==◌, [],
  if◌then◌else◌, String_eq,
}
use gwf.Common.Int.{pos}
use gwf.Svc.{new_service}
use gwf.Throttle.Bucket.{Bucket, sub_time}
use gwf.Throttle.Bucket
use gwf.Throttle.Bucket.Refill.{conf_of, holding, periods}
use gwf.Throttle.Bucket.Rate.{moved, try_admit_lem}
use gwf.Throttle.Bucket.Tests.{five, five-IsSane}
use gwf.Throttle.Limiter.{
  BucketGroup, Limiter, fresh, is_stale, cleanup, try_admit, admit_in, load_or_create_bucket,
}
use gwf.Throttle.Limiter.Buckets.{bucket_of, held_or_fresh, verdict, try_admit_spends}
use gwf.Throttle.Limiter.Distinct.{HasDistinct}
use gwf.Throttle.Limiter.Sweep.{kept, bucket_of-cleanup, dropped_admits_alike, cleanup_forgets}

abbrev group : BucketGroup
group = record { conf = conf_of five; buckets = ("10.0.0.1", holding 0 0) ∷ [] }

-- Buckets are dropped a tenth of a second after their last refill.
abbrev limiter : Limiter
limiter = record {
  service = new_service;
  cleanup_cycle = pos 1000000000;
  cleanup_older_than = pos 100000000;
  groups = ("api", group) ∷ [];
}

limiter-HasDistinct : HasDistinct limiter.groups
limiter-HasDistinct = ((refl, tt), tt)

known : lookup "api" limiter.groups ≡ some group
unfolding lookup
known = refl

bucket : lookup "10.0.0.1" group.buckets ≡ some (holding 0 0)
unfolding lookup
bucket = refl

bucket_of-cleanup_example :
    bucket_of "api" "10.0.0.1" (cleanup 500000000 limiter)
    ≡ kept 100000000 500000000 (bucket_of "api" "10.0.0.1" limiter)
bucket_of-cleanup_example =
    bucket_of-cleanup "api" "10.0.0.1" 500000000 100000000 limiter limiter-HasDistinct refl

cleanup_forgets_example :
    (verdict "api" "10.0.0.1" 500000000 limiter ≡ some false)
    × (verdict "api" "10.0.0.1" 500000000 (cleanup 500000000 limiter) ≡ some true)
cleanup_forgets_example =
    cleanup_forgets five "api" "10.0.0.1" 500000000 0 100000000 limiter group five-IsSane
      limiter-HasDistinct refl known refl bucket (omega arith) (omega arith) (omega arith)

dropped_admits_alike_example :
    (Bucket.try_admit (conf_of five) 7000000000 (holding 2 0)
      ≡ some (true, holding 4 (moved five 0 7000000000)))
    × (Bucket.try_admit (conf_of five) 7000000000 (fresh (conf_of five) 7000000000)
        ≡ some (true, holding 4 7000000000))
    × (moved five 0 7000000000 ≤ 7000000000)
    × (7000000000 < moved five 0 7000000000 + 1000000000)
dropped_admits_alike_example =
    dropped_admits_alike five 2 0 5000000000 6000000000 7000000000 five-IsSane (omega arith)
      (omega arith) (omega arith) (omega arith) stale (omega arith) (omega arith)
  where
    stale : is_stale (pos 5000000000) 6000000000 (holding 2 0) ≡ true
    stale = unfold is_stale sub_time in refl

-- Half a second in, the bucket is still empty.
call : try_admit "api" "10.0.0.1" 500000000 limiter ≡ some (false, limiter)
unfolding try_admit admit_in load_or_create_bucket lookup insert periods
call = rw (try_admit_lem five 0 0 500000000 five-IsSane (omega arith)) refl

try_admit_spends_example :
    (b : Bucket) × (Bucket.try_admit
        (conf_of five)
        500000000
        (held_or_fresh (conf_of five) 500000000 (bucket_of "api" "10.0.0.1" limiter))
      ≡ some (false, b))
    × ((gid' id' : String)
        → bucket_of gid' id' limiter
          ≡ (if "api" == gid' && "10.0.0.1" == id' then some b else bucket_of gid' id' limiter))
try_admit_spends_example = try_admit_spends "api" "10.0.0.1" 500000000 limiter group known call
