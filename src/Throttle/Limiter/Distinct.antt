-- ===== src/Throttle/Limiter/Distinct.antt =====
-- A map holds a key once: so it is for the buckets of every group, after any calls.
use mathlib.Core.Option
use gwf.Common.{
  ℕ, String, refl, inl, inr, Bool, false, Option, none, some, List, arith, Bool-cases, Option-cases,
  Result, ok, err, contains, Distinct, Dict, keys, lookup, insert, keys-insert-Distinct, ◌≡◌, ◌∷◌,
  ◌==◌, [], String_eq,
}
use gwf.Common.Int.{ℤ}
use gwf.Throttle.Bucket.{BucketConf, Bucket}
use gwf.Svc.{State, ready}
use gwf.Throttle.Limiter.{
  BucketGroup, Limiter, fresh, is_stale, new_limiter, set_bucket_group, add_group,
  load_or_create_bucket, admit_in, try_admit, sweep, sweep_groups, cleanup,
}

-- Every group keeps each bucket id once.
abbrev pub HasDistinct : Dict String BucketGroup → Type 0
HasDistinct [] = Unit
HasDistinct ((id, g) ∷ m) = Distinct (keys g.buckets) × HasDistinct m

insert-HasDistinct :
    (gid : String) (g : BucketGroup) (m : Dict String BucketGroup)
    → Distinct (keys g.buckets)
    → HasDistinct m
    → HasDistinct (insert gid g m)
unfolding insert
insert-HasDistinct gid g [] d h = (d, tt)
insert-HasDistinct gid g ((j, k) ∷ m) d h = elim (Bool-cases (j == gid)) [
  | inl here ↦ rw here (d, h.1)
  | inr there ↦ rw there (h.0, insert-HasDistinct gid g m d h.1)
]

pub HasDistinct-lookup :
    (gid : String) (m : Dict String BucketGroup) (g : BucketGroup)
    → HasDistinct m
    → lookup gid m ≡ some g
    → Distinct (keys g.buckets)
unfolding lookup
HasDistinct-lookup gid [] g d e = absurd (ground arith)
HasDistinct-lookup gid ((j, h) ∷ m) g d e = elim (Bool-cases (j == gid)) [
  | inl here ↦ (let p : h ≡ g = ground arith in rw (← p) d.0)
  | inr there ↦ HasDistinct-lookup gid m g d.1 (ground arith)
]

contains-sweep :
    (older : ℤ) (now : ℕ) (j : String) (m : Dict String Bucket)
    → contains (keys m) j ≡ false
    → contains (keys (sweep older now m)) j ≡ false
unfolding sweep
contains-sweep older now j [] h = refl
contains-sweep older now j ((i, b) ∷ m) h = ground (arith, contains-sweep older now j m)

sweep-Distinct :
    (older : ℤ) (now : ℕ) (m : Dict String Bucket)
    → Distinct (keys m)
    → Distinct (keys (sweep older now m))
unfolding sweep
sweep-Distinct older now [] d = tt
sweep-Distinct older now ((i, b) ∷ m) d = elim (Bool-cases (is_stale older now b)) [
  | inl stale ↦ rw stale (sweep-Distinct older now m d.1)
  | inr kept ↦ rw kept (contains-sweep older now i m d.0, sweep-Distinct older now m d.1)
]

sweep_groups-HasDistinct :
    (older : ℤ) (now : ℕ) (m : Dict String BucketGroup)
    → HasDistinct m
    → HasDistinct (sweep_groups older now m)
unfolding sweep_groups
sweep_groups-HasDistinct older now [] d = tt
sweep_groups-HasDistinct older now ((i, g) ∷ m) d =
    (sweep-Distinct older now g.buckets d.0, sweep_groups-HasDistinct older now m d.1)

-- The calls that change a limiter. A call that panics leaves no limiter.
pub data Call : Type 0 where
  sets : String → BucketConf → Call
  admits : String → String → ℕ → Call
  cleans : ℕ → Call

abbrev or_unchanged : Limiter → Result State Limiter → Limiter
or_unchanged l (ok l') = l'
or_unchanged l (err s) = l

pub after : Limiter → Call → Option Limiter
after l (sets id conf) = some (or_unchanged l (set_bucket_group id conf l))
after l (admits gid id now) = Option.map (λ r. r.1) (try_admit gid id now l)
after l (cleans now) = some (cleanup now l)

pub run : Option Limiter → List Call → Option Limiter
run o [] = o
run o (c ∷ cs) = run (Option.bind o (λ l. after l c)) cs

abbrev pub WhenSome : (Limiter → Type 0) → Option Limiter → Type 0
WhenSome P none = Unit
WhenSome P (some l) = P l

created-eq :
    (id : String) (now : ℕ) (g : BucketGroup)
    → lookup id g.buckets ≡ none
    → (load_or_create_bucket id now g).1.buckets ≡ insert id (fresh g.conf now) g.buckets
unfolding load_or_create_bucket
created-eq id now g e = ground arith

created :
    (id : String) (now : ℕ) (g : BucketGroup)
    → Distinct (keys g.buckets)
    → Distinct (keys (load_or_create_bucket id now g).1.buckets)
unfolding load_or_create_bucket
created id now g d = elim (Option-cases (lookup id g.buckets)) [
  | inl e ↦ rw (created-eq id now g e) (keys-insert-Distinct id (fresh g.conf now) g.buckets d)
  | inr (b, e) ↦ rw (e, load_or_create_bucket) d
]

admit_in-Distinct :
    (id : String) (now : ℕ) (g : BucketGroup) (r : Bool × BucketGroup)
    → Distinct (keys g.buckets)
    → admit_in id now g ≡ some r
    → Distinct (keys r.1.buckets)
unfolding admit_in
admit_in-Distinct id now g r d e =
    let h = (load_or_create_bucket id now g).1 in
    let (s, _, into) =
      (Option.map-eq-some_iff
          (λ (s : Bool × Bucket). (s.0, record h { buckets = insert id s.1 h.buckets })) _).0
        e in
    rw (← into) (keys-insert-Distinct id s.1 h.buckets (created id now g d))

admit-HasDistinct :
    (gid : String) (l : Limiter) (o : Option (Bool × BucketGroup))
    → HasDistinct l.groups
    → ((r : Bool × BucketGroup) → o ≡ some r → Distinct (keys r.1.buckets))
    → WhenSome
        (λ k. HasDistinct k.groups)
        (Option.map {A = Bool × Limiter}
          (λ r. r.1)
          (Option.map (λ r. (r.0, record l { groups = insert gid r.1 l.groups })) o))
admit-HasDistinct gid l none d h = tt
admit-HasDistinct gid l (some r) d h = insert-HasDistinct gid r.1 l.groups (h r refl) d

set-HasDistinct :
    (s : State) (id : String) (conf : BucketConf) (l : Limiter)
    → HasDistinct l.groups
    → HasDistinct (or_unchanged l (add_group s id conf l)).groups
unfolding add_group
set-HasDistinct ready id conf l d = insert-HasDistinct id _ l.groups tt d
set-HasDistinct _ id conf l d = d

after-HasDistinct :
    (l : Limiter) (c : Call)
    → HasDistinct l.groups
    → WhenSome (λ k. HasDistinct k.groups) (after l c)
unfolding after try_admit
after-HasDistinct l (sets id conf) d =
    unfold set_bucket_group in set-HasDistinct l.state id conf l d
after-HasDistinct l (admits gid id now) d = elim (Option-cases (lookup gid l.groups)) [
  | inl e ↦ rw (e, try_admit) d
  | inr (g, e) ↦
      rw (e, try_admit)
        (admit-HasDistinct gid l (admit_in id now g) d
          (λ r p. admit_in-Distinct id now g r (HasDistinct-lookup gid l.groups g d e) p))
]
after-HasDistinct l (cleans now) d =
    unfold cleanup in sweep_groups-HasDistinct l.cleanup_older_than now l.groups d

run-HasDistinct :
    (o : Option Limiter) (cs : List Call)
    → WhenSome (λ k. HasDistinct k.groups) o
    → WhenSome (λ k. HasDistinct k.groups) (run o cs)
unfolding run Option.bind
run-HasDistinct o [] d = d
run-HasDistinct none (c ∷ cs) d = run-HasDistinct none cs tt
run-HasDistinct (some l) (c ∷ cs) d = run-HasDistinct (after l c) cs (after-HasDistinct l c d)

-- After any calls on a new limiter, no group holds a bucket id twice.
pub new_limiter-HasDistinct :
    (cycle older : ℤ) (cs : List Call)
    → WhenSome (λ k. HasDistinct k.groups) (run (some (new_limiter cycle older)) cs)
new_limiter-HasDistinct cycle older cs = run-HasDistinct _ cs (unfold new_limiter in tt)
