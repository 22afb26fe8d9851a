-- ===== src/Throttle/Limiter/Sweep.antt =====
-- The cleanup cycle: which buckets it drops, and what dropping one changes.
use mathlib.Core.Option
use native.Mathlib.Nat.{
  div-eq_of_lt, mul-le-mul_right, le-div_iff_mul-le, le_trans, div-add-mod', mod-lt,
}
use gwf.Common.{
  ℕ, min, String, refl, true, false, Option, none, some, arith, eq_iff, ltb, Distinct, Dict, keys,
  lookup, is_some-lookup, ◌+◌, ◌-◌, ◌*◌, ◌/◌, ◌≤◌, ◌<◌, ◌≡◌, ◌∙◌, ◌∷◌, [], if◌then◌else◌, String_eq,
}
use gwf.Common.Int.{ℤ, pos, max_int}
use gwf.Throttle.Bucket.{BucketConf, Bucket, sub_time, refill}
use gwf.Throttle.Bucket
use gwf.Throttle.Bucket.Refill.{Rate, conf_of, IsSane, holding, periods}
use gwf.Throttle.Bucket.Rate.{try_admit_lem, moved}
use gwf.Throttle.Limiter.{BucketGroup, Limiter, fresh, is_stale, sweep, sweep_groups, cleanup}
use gwf.Throttle.Limiter.Distinct.{HasDistinct, HasDistinct-lookup}
use gwf.Throttle.Limiter.Buckets.{bucket_in, bucket_of, verdict, verdict_lem}

-- What the test of a cleanup leaves of a bucket.
abbrev unless_stale : ℤ → ℕ → Option Bucket → Option Bucket
unless_stale older now none = none
unless_stale older now (some b) = if is_stale older now b then none else some b

-- A bucket stays whose last refill is not longer ago than `older`; a duration stops at its largest.
abbrev pub kept : ℕ → ℕ → Option Bucket → Option Bucket
kept older now none = none
kept older now (some b) = if ltb older (min (now - b.last_check) max_int) then none else some b

unless_stale_lem :
    (older now : ℕ) (o : Option Bucket) → unless_stale (pos older) now o ≡ kept older now o
unfolding is_stale sub_time
unless_stale_lem older now none = refl
unless_stale_lem older now (some b) = ground arith

lookup-sweep :
    (older : ℤ) (now : ℕ) (id : String) (m : Dict String Bucket)
    → Distinct (keys m)
    → lookup id (sweep older now m) ≡ unless_stale older now (lookup id m)
unfolding sweep lookup
lookup-sweep older now id [] d = refl
lookup-sweep older now id ((j, b) ∷ m) d =
    ground (arith, lookup-sweep older now id m d.1, is_some-lookup j m, eq_iff j id)

bucket_in-sweep :
    (older : ℤ) (now : ℕ) (gid id : String) (m : Dict String BucketGroup)
    → HasDistinct m
    → bucket_in id (lookup gid (sweep_groups older now m))
      ≡ unless_stale older now (bucket_in id (lookup gid m))
unfolding sweep_groups lookup
bucket_in-sweep older now gid id [] d = refl
bucket_in-sweep older now gid id ((j, g) ∷ m) d =
    ground (arith, bucket_in-sweep older now gid id m d.1, lookup-sweep older now id g.buckets d.0)

-- Where no group holds a bucket id twice and the configured time is not negative, the cleanup drops
-- exactly the buckets whose last refill is longer ago than that, and leaves every other as it is.
pub bucket_of-cleanup :
    (gid id : String) (now older : ℕ) (l : Limiter)
    → HasDistinct l.groups
    → l.cleanup_older_than ≡ pos older
    → bucket_of gid id (cleanup now l) ≡ kept older now (bucket_of gid id l)
unfolding cleanup
bucket_of-cleanup gid id now older l d conf_older =
    bucket_in-sweep l.cleanup_older_than now gid id l.groups d
    ∙ rw conf_older (unless_stale_lem older now (bucket_of gid id l))

-- The time that an empty bucket takes to fill, in whole periods.
abbrev pub fill_time : Rate → ℕ
fill_time r = (r.burst + r.increment - 1) / r.increment * r.incr_period

-- A rounded-up quotient covers the dividend.
ceil-le : (b c : ℕ) → 1 ≤ c → b ≤ (b + c - 1) / c * c
ceil-le b c h = omega (arith, div-add-mod' (b + c - 1) c, mod-lt (b + c - 1) h)

stale-lt :
    (older now last t : ℕ) → is_stale (pos older) now (holding t last) ≡ true → older < now - last
unfolding is_stale sub_time
stale-lt older now last t h = ground arith

periods_none : (r : Rate) (now : ℕ) → periods r now now ≡ 0
unfolding periods
periods_none r now = ground arith

filled :
    (r : Rate) (t last older now later : ℕ)
    → 1 ≤ r.increment
    → 1 ≤ r.incr_period
    → fill_time r ≤ older
    → older ≤ max_int
    → is_stale (pos older) now (holding t last) ≡ true
    → now ≤ later
    → r.burst ≤ periods r last later * r.increment
unfolding periods
filled r t last older now later hi hp long fits stale le =
    let gone = stale-lt older now last t stale in
    let whole : (r.burst + r.increment - 1) / r.increment
        ≤ min (later - last) max_int / r.incr_period =
      (le-div_iff_mul-le hp).1 (omega arith) in
    le_trans (ceil-le r.burst r.increment hi) (mul-le-mul_right r.increment whole)

new_admits :
    (r : Rate) (now : ℕ)
    → IsSane r
    → Bucket.try_admit (conf_of r) now (holding r.burst now)
      ≡ some (true, holding (r.burst - 1) now)
new_admits r now s =
    let some_token = s.some_burst in
    rw (try_admit_lem r r.burst now now s (omega arith)) (rw (periods_none r now) (ground arith))

moved-near :
    (r : Rate) (last later : ℕ)
    → 1 ≤ r.incr_period
    → last ≤ later
    → later - last ≤ max_int
    → (moved r last later ≤ later) × (later < moved r last later + r.incr_period)
unfolding periods
moved-near r last later hp past fits =
    let whole : min (later - last) max_int ≡ later - last = omega (arith, fits) in
    rw whole (
      omega (arith, div-add-mod' (later - last) r.incr_period),
      omega (arith, div-add-mod' (later - last) r.incr_period, mod-lt (later - last) hp),
    )

-- At a sane rate with a positive increment, where the configured time is at least the time that a
-- bucket takes to fill: at any later moment that a duration still spans, a bucket that the cleanup
-- drops and a new one both admit the call and both are left with one token less than the burst. They
-- differ only in the moment of the last refill, which the dropped one has earlier by less than one
-- period, so that its next refill comes earlier by that.
pub dropped_admits_alike :
    (r : Rate) (t last older now later : ℕ)
    → IsSane r
    → 1 ≤ r.increment
    → t ≤ r.burst
    → fill_time r ≤ older
    → older ≤ max_int
    → is_stale (pos older) now (holding t last) ≡ true
    → now ≤ later
    → later - last ≤ max_int
    → (Bucket.try_admit (conf_of r) later (holding t last)
        ≡ some (true, holding (r.burst - 1) (moved r last later)))
      × (Bucket.try_admit (conf_of r) later (fresh (conf_of r) later)
          ≡ some (true, holding (r.burst - 1) later))
      × (moved r last later ≤ later)
      × (later < moved r last later + r.incr_period)
unfolding fresh
dropped_admits_alike r t last older now later s hi h long fits stale le spans =
    let full = filled r t last older now later hi s.some_period long fits stale le in
    let some_token = s.some_burst in
    let gone = stale-lt older now last t stale in
    let near = moved-near r last later s.some_period (omega arith) spans in
    (
      rw (try_admit_lem r t last later s h) (ground arith),
      unfold fresh in new_admits r later s,
      near.0,
      near.1,
    )

abbrev swept : ℤ → ℕ → BucketGroup → BucketGroup
swept older now g = record g { buckets = sweep older now g.buckets }

lookup-sweep_groups :
    (older : ℤ) (now : ℕ) (gid : String) (m : Dict String BucketGroup)
    → lookup gid (sweep_groups older now m) ≡ Option.map (swept older now) (lookup gid m)
unfolding sweep_groups lookup
lookup-sweep_groups older now gid [] = refl
lookup-sweep_groups older now gid ((j, g) ∷ m) = ground (arith, lookup-sweep_groups older now gid m)

refused :
    (r : Rate) (now last : ℕ)
    → IsSane r
    → now - last < r.incr_period
    → Bucket.try_admit (conf_of r) now (holding 0 last) ≡ some (false, holding 0 last)
unfolding periods
refused r now last s early = rw (try_admit_lem r 0 last now s (omega arith)) (
    let none_whole : min (now - last) max_int / r.incr_period ≡ 0 = div-eq_of_lt (omega arith) in
    ground arith)

-- Where no group holds a bucket id twice and the configured time is shorter than the refill
-- period of a group of a sane rate, the cleanup can undo a refusal: an empty bucket whose period
-- has not passed and whose last refill is longer ago than the configured time refuses the call,
-- and after a cleanup at that moment the same call is admitted.
pub cleanup_forgets :
    (r : Rate) (gid id : String) (now last older : ℕ) (l : Limiter) (g : BucketGroup)
    → IsSane r
    → HasDistinct l.groups
    → l.cleanup_older_than ≡ pos older
    → lookup gid l.groups ≡ some g
    → g.conf ≡ conf_of r
    → lookup id g.buckets ≡ some (holding 0 last)
    → older < now - last
    → now - last < r.incr_period
    → now - last ≤ max_int
    → (verdict gid id now l ≡ some false) × (verdict gid id now (cleanup now l) ≡ some true)
cleanup_forgets r gid id now last older l g s d conf_older known conf bucket stale early fits = (
  rw (verdict_lem gid id now l g known, bucket, conf, refused r now last s early) refl,
  rw
      (
        verdict_lem gid id now (cleanup now l) (swept (pos older) now g) in_swept,
        gone,
        conf,
        new_admits r now s,
      )
      refl,
)
  where
    in_swept : lookup gid (cleanup now l).groups ≡ some (swept (pos older) now g)
    in_swept = unfold cleanup in rw (conf_older, lookup-sweep_groups, known) refl

    gone : lookup id (sweep (pos older) now g.buckets) ≡ none
    gone =
        rw
          (
            lookup-sweep (pos older) now id g.buckets (HasDistinct-lookup gid l.groups g d known),
            bucket,
          )
          (unfold is_stale sub_time in ground arith)
