-- ===== src/Throttle/Conf/Checked.antt =====
-- What a validated configuration gives the buckets.
use gwf.Common.{
  ℕ, zero, suc, String, refl, inl, inr, false, none, some, arith, eq_iff, Bool-cases, ok, Dict,
  lookup, ◌*◌, ◌%◌, ◌^◌, ◌≤◌, ◌≡◌, ◌≢◌, ◌↔◌, ◌∷◌, ◌==◌, [], String_eq,
}
use gwf.Common.Int.{ℤ, pos, negsuc, max_int, wrap, wrap_pos, *ℤ-pos, quot}
use gwf.Throttle.Bucket.{BucketConf, Bucket, refill, sub_time}
use gwf.Throttle.Bucket.Refill.{Rate}
use gwf.Throttle.Conf.{
  Conf, GroupConf, validate, validate_groups, bad_numbers, below_one, bucket_confs, confs_of,
  bucket_conf, seconds,
}

-- The numbers of a group that has passed the checks.
abbrev pub rate_of : ℕ → ℕ → ℕ → Rate
rate_of burst increment secs = record {
  burst = burst;
  increment = increment;
  incr_period = secs * 1_000_000_000;
}

at_least_one : (n : ℤ) → below_one n ≡ false → (m : ℕ) × (n ≡ pos m) × (1 ≤ m)
unfolding below_one
at_least_one (pos m) h = (m, refl, ground arith)
at_least_one (negsuc m) h = ground arith

seconds_lem :
    (secs : ℕ) → secs * 1_000_000_000 ≤ max_int → seconds (pos secs) ≡ pos (secs * 1_000_000_000)
unfolding seconds
seconds_lem secs h = rw *ℤ-pos (wrap_pos _ h)

-- `c` has positive numbers and a period of a positive count of seconds.
abbrev pub IsChecked : BucketConf → Type 0
IsChecked c =
    (b n s : ℕ) × (c ≡ record { burst = pos b; increment = pos n; incr_period = seconds (pos s) })
    × (1 ≤ b)
    × (1 ≤ n)
    × (1 ≤ s)

group-IsChecked : (g : GroupConf) → bad_numbers g ≡ false → IsChecked (bucket_conf g)
unfolding bad_numbers bucket_conf
group-IsChecked g h =
    let (b, eb, lb) = at_least_one g.burst (ground arith) in
    let (n, en, ln) = at_least_one g.increment (ground arith) in
    let (s, es, ls) = at_least_one g.incr_period_secs (ground arith) in
    (b, n, s, rw (eb, en, es) refl, lb, ln, ls)

groups-IsChecked :
    (id : String) (g : Dict String GroupConf) (c : BucketConf)
    → validate_groups g ≡ ok tt
    → lookup id (confs_of g) ≡ some c
    → (id ≢ "") × IsChecked c
unfolding validate_groups confs_of lookup
groups-IsChecked id [] c h e = ground arith
groups-IsChecked id ((j, g) ∷ rest) c h e = elim (Bool-cases (j == id)) [
  | inl here ↦ (
    ground (arith, eq_iff j id, eq_iff j ""),
    (let p : bucket_conf g ≡ c = ground arith in rw (← p) (group-IsChecked g (ground arith))),
  )
  | inr there ↦ groups-IsChecked id rest c (ground arith) (ground arith)
]

-- A configuration that passes names at least one group, and every group has a name, a positive
-- burst and increment, and a positive count of seconds for its period.
pub validate-IsChecked :
    (c : Conf) (id : String) (b : BucketConf)
    → validate c ≡ ok tt
    → lookup id (bucket_confs c) ≡ some b
    → (c.groups ≢ []) × (id ≢ "") × IsChecked b
unfolding validate bucket_confs
validate-IsChecked c id b h e =
    let (named, checked) = groups-IsChecked id c.groups b (ground arith) e in
    (ground arith, named, checked)

wrap_multiple : (n : ℕ) → (wrap (pos n) ≡ pos 0) ↔ (n % 2 ^ 64 ≡ 0)
unfolding wrap
wrap_multiple n = (λ h. ground (arith, h), λ h. ground (arith, h))

multiple : (secs : ℕ) → (secs * 1_000_000_000 % 2 ^ 64 ≡ 0) ↔ (secs % 2 ^ 55 ≡ 0)
multiple secs = (λ h. omega (arith, h), λ h. omega (arith, h))

-- The count of nanoseconds wraps to 0 exactly if the count of seconds is a multiple of 2 ^ 55.
seconds_multiple : (secs : ℕ) → (seconds (pos secs) ≡ pos 0) ↔ (secs % 2 ^ 55 ≡ 0)
unfolding seconds
seconds_multiple secs =
    let w = wrap_multiple (secs * 1_000_000_000) in
    let m = multiple secs in rw (*ℤ-pos secs 1_000_000_000) (λ h. m.0 (w.0 h), λ h. w.1 (m.1 h))

-- A refill at a moment that is not before the last one divides by zero exactly if the period is 0.
refill-none :
    (burst increment period : ℤ) (bucket : Bucket) (now : ℕ)
    → bucket.last_check ≤ now
    → (refill (record { burst = burst; increment = increment; incr_period = period }) now bucket
        ≡ none)
      ↔ (period ≡ pos 0)
unfolding refill sub_time quot
refill-none burst increment (pos zero) bucket now past = (λ h. refl, λ h. ground (arith, past))
refill-none burst increment (pos (suc p)) bucket now past =
    (λ h. absurd (ground (arith, past, h)), λ h. absurd (ground (arith, h)))
refill-none burst increment (negsuc p) bucket now past =
    (λ h. absurd (ground (arith, past, h)), λ h. absurd (ground (arith, h)))

-- A group of positive numbers passes the checks of `Validate`, and a refill of its buckets at a moment
-- that is not before the last one panics exactly if its count of seconds is a multiple of 2 ^ 55.
pub validate_admits_panic :
    (b n secs : ℕ) (bucket : Bucket) (now : ℕ)
    → 1 ≤ b
    → 1 ≤ n
    → 1 ≤ secs
    → secs ≤ max_int
    → bucket.last_check ≤ now
    → let g : GroupConf = record {
      burst = pos b;
      increment = pos n;
      incr_period_secs = pos secs;
    } in
      (validate (record {
        cleanup_cycle_secs = pos 1;
        cleanup_older_than_secs = pos 1;
        groups = ("api", g) ∷ [];
      })
        ≡ ok tt)
      × ((refill (bucket_conf g) now bucket ≡ none) ↔ (secs % 2 ^ 55 ≡ 0))
unfolding validate bucket_conf
validate_admits_panic b n secs bucket now hb hn hs fits past =
    let r = refill-none (pos b) (pos n) (seconds (pos secs)) bucket now past in
    let z = seconds_multiple secs in (ground arith, (λ h. z.0 (r.0 h), λ h. r.1 (z.1 h)))
