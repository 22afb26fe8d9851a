-- ===== src/Throttle/Kvdb/Memory.antt =====
-- What the limiter computes and remembers agrees with the bucket in the store.
use native.Mathlib.Nat.{mul-le-mul_right, div-lt_iff_lt-mul}
use gwf.Common.{
  ℕ, suc, String, refl, inl, inr, false, not, some, arith, eq_iff, ltb, leb, Bool-cases, length,
  Dict, lookup, lookup-insert, ◌+◌, ◌≤◌, ◌<◌, ◌≡◌, ◌∷◌, [], if◌then◌else◌, String_eq,
}
use gwf.Common.Int.{ℤ, ltb_ℤ, leb_ℤ}
use gwf.Throttle.Bucket.{BucketConf, Bucket, refill, sub_time}
use gwf.Throttle.Bucket.Refill.{Rate, conf_of, IsSane, holding, periods}
use gwf.Throttle.Bucket.Rate.{found, moved, try_admit_lem}
use gwf.Throttle.Bucket
use gwf.Throttle.Kvdb.{LimiterKvdbBuckets, refilled, refusal_stands, remember_refusal, drop_passed}

test : (elapsed period : ℤ) → ltb_ℤ elapsed period ≡ not (leb_ℤ period elapsed)
test elapsed period = ground arith

-- The refill of a bucket that was read from the store is the refill of a bucket in memory.
pub refilled_lem :
    (conf : BucketConf) (now : ℕ) (b : Bucket) → refilled conf now b ≡ refill conf now b
unfolding refilled refill
refilled_lem conf now b =
    rw (test (sub_time now b.last_check) conf.incr_period)
      (elim (Bool-cases (leb_ℤ conf.incr_period (sub_time now b.last_check))) [
        | inl due ↦ rw due refl
        | inr early ↦ rw early refl
      ])

lookup-drop_passed :
    (now : ℕ) (key : String) (m : Dict String ℕ) (until : ℕ)
    → lookup key (drop_passed now m) ≡ some until
    → now < until
unfolding drop_passed lookup
lookup-drop_passed now key [] until h = absurd (ground arith)
lookup-drop_passed now key ((j, u) ∷ m) until h = ground (arith, lookup-drop_passed now key m until)

-- A refusal is remembered until the moment given, and no longer.
pub refusal_stands-remember_refusal :
    (key : String) (until now later : ℕ) (l : LimiterKvdbBuckets)
    → refusal_stands key later (remember_refusal key until now l) ≡ ltb later until
unfolding refusal_stands remember_refusal
refusal_stands-remember_refusal key until now later l =
    rw
      (
        refusal_stands,
        lookup-insert key key until
            (if leb 1024 (length l.ask_after) then drop_passed now l.ask_after else l.ask_after),
      )
      (ground (arith, eq_iff key key))

no_more :
    (r : Rate) (last now later : ℕ)
    → 1 ≤ r.incr_period
    → later < moved r last now + r.incr_period
    → periods r last later ≤ periods r last now
no_more r last now later h before =
    let k = periods r last now in
    let lt : periods r last later < suc k =
      unfold periods in (div-lt_iff_lt-mul h).1 (omega arith) in
    omega arith

-- At a sane rate, a bucket of at most a burst of tokens that a read at `now` finds empty refuses
-- every call from `now` on and before the moment that is remembered of it: a refusal answered
-- from memory is one that the bucket in the store would give.
remembered_refusal :
    (r : Rate) (t last now later : ℕ)
    → IsSane r
    → t ≤ r.burst
    → found r t last now ≡ 0
    → now ≤ later
    → later < moved r last now + r.incr_period
    → Bucket.try_admit (conf_of r) later (holding t last)
      ≡ some (false, holding 0 (moved r last later))
remembered_refusal r t last now later s h empty le before =
    let fewer = mul-le-mul_right r.increment (no_more r last now later s.some_period before) in
    let some_burst = s.some_burst in
    let still : found r t last later ≡ 0 = omega arith in
    rw (try_admit_lem r t last later s h, still) refl
