-- ===== src/Throttle/Bucket/Rate.antt =====
-- What a bucket lets through over any sequence of calls.
use mathlib.Core.Option
use native.Mathlib.Nat.{add-mul-div_right, mul-le-mul_right}
use gwf.Common.{
  ℕ, suc, min, refl, ap, inl, inr, true, false, Option, some, List, arith, ltb, ltb→lt, Bool-cases,
  All, ◌+◌, ◌-◌, ◌*◌, ◌/◌, ◌≤◌, ◌≡◌, ◌∷◌, [], if◌then◌else◌,
}
use gwf.Common.Int.{wrap, max_int, ◌+ℤ◌}
use gwf.Throttle.Bucket.{BucketConf, Bucket, try_admit, take_token}
use gwf.Throttle.Bucket.Refill.{Rate, conf_of, IsSane, holding, periods, periods-mul-le, refill_lem}

-- The tokens that a call finds after the refill.
abbrev pub found : Rate → ℕ → ℕ → ℕ → ℕ
found r t last now = min r.burst (t + periods r last now * r.increment)

abbrev pub moved : Rate → ℕ → ℕ → ℕ
moved r last now = last + periods r last now * r.incr_period

take_token_lem :
    (x last : ℕ)
    → x ≤ max_int
    → take_token (holding x last)
      ≡ (if ltb 0 x then (true, holding (x - 1) last) else (false, holding 0 last))
unfolding take_token wrap ◌+ℤ◌
take_token_lem x last h = ground arith

-- At a sane rate and with at most a burst of tokens, a call is admitted exactly when the refill
-- leaves a token, and an admitted call takes one token.
pub try_admit_lem :
    (r : Rate) (t last now : ℕ)
    → IsSane r
    → t ≤ r.burst
    → try_admit (conf_of r) now (holding t last)
      ≡ some (
          if ltb 0 (found r t last now)
          then (true, holding (found r t last now - 1) (moved r last now))
          else (false, holding 0 (moved r last now)))
unfolding try_admit
try_admit_lem r t last now s h =
    let fits = s.fits in
    rw (refill_lem r t last now s h) (ap some (take_token_lem _ _ (omega arith)))

-- The calls made at the given moments, one after the other: how many were admitted.
unfoldable pub admitted : BucketConf → Bucket → List ℕ → Option (ℕ × Bucket)
admitted conf b [] = some (0, b)
admitted conf b (now ∷ rest) =
    Option.bind (try_admit conf now b)
      (λ r. Option.map (λ n. ((if r.0 then suc n.0 else n.0), n.1)) (admitted conf r.1 rest))

-- The increments that a span of time is worth.
abbrev pub worth : Rate → ℕ → ℕ → ℕ
worth r last end = (end - last) / r.incr_period * r.increment

pub div_mono : (a b p : ℕ) → 1 ≤ p → a ≤ b → a / p ≤ b / p
div_mono a b p h le = grind arith

-- What a refill adds, it takes from the span that is left.
worth-moved :
    (r : Rate) (last now end : ℕ)
    → 1 ≤ r.incr_period
    → now ≤ end
    → periods r last now * r.increment + worth r (moved r last now) end ≤ worth r last end
worth-moved r last now end h le =
    let k = periods r last now in
    let spent = periods-mul-le r last now h in
    let d : ℕ = end - (last + k * r.incr_period) in
    let split : (d + k * r.incr_period) / r.incr_period ≡ d / r.incr_period + k =
      add-mul-div_right d k h in
    let grown : (d + k * r.incr_period) / r.incr_period ≤ (end - last) / r.incr_period =
      div_mono _ _ _ h (omega arith) in
    omega (arith, mul-le-mul_right r.increment grown, ap (λ (x : ℕ). x * r.increment) split)

-- At a sane rate, from at most a burst of tokens and whatever the moments of the calls up to
-- `end`, no call panics and the calls admitted are at most the tokens held at the start and the
-- increments of the whole periods up to `end`.
pub admitted-le :
    (r : Rate) (t last end : ℕ) (nows : List ℕ)
    → IsSane r
    → t ≤ r.burst
    → All (λ now. now ≤ end) nows
    → (n : ℕ) × (b : Bucket) × (admitted (conf_of r) (holding t last) nows ≡ some (n, b))
      × (n ≤ t + worth r last end)
unfolding admitted Option.bind
admitted-le r t last end [] s h le = (0, holding t last, refl, omega arith)
admitted-le r t last end (now ∷ nows) s h le = elim (Bool-cases (ltb 0 (found r t last now))) [
  | inl hit ↦
      let (n, b, e, bound) =
        admitted-le r (found r t last now - 1) (moved r last now) end nows s (omega arith) le.1 in
      (
        suc n,
        b,
        rw (try_admit_lem r t last now s h, hit, e) refl,
        (let w = worth-moved r last now end s.some_period le.0 in
            let x = ltb→lt _ _ hit in omega arith),
      )
  | inr miss ↦
      let (n, b, e, bound) = admitted-le r 0 (moved r last now) end nows s (omega arith) le.1 in
      (
        n,
        b,
        rw (try_admit_lem r t last now s h, miss, e) refl,
        (let w = worth-moved r last now end s.some_period le.0 in omega arith),
      )
]
