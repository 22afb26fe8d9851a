-- ===== src/Throttle/Limiter/Buckets.antt =====
-- Which bucket a call spends from, and that it touches no other.
use mathlib.Core.Option
use gwf.Common.{
  ℕ, String, refl, sym, Bool, Option, none, some, arith, eq_iff, lookup, insert, lookup-insert, ◌≡◌,
  ◌∙◌, ◌&&◌, ◌==◌, if◌then◌else◌, String_eq,
}
use gwf.Throttle.Bucket.{BucketConf, Bucket}
use gwf.Throttle.Bucket
use gwf.Throttle.Limiter.{BucketGroup, Limiter, fresh, admit_in, try_admit, load_or_create_bucket}

-- The bucket that a limiter holds under a group and an id.
abbrev pub bucket_in : String → Option BucketGroup → Option Bucket
bucket_in id none = none
bucket_in id (some g) = lookup id g.buckets

abbrev pub bucket_of : String → String → Limiter → Option Bucket
bucket_of group_id id l = bucket_in id (lookup group_id l.groups)

-- The bucket that a call at `now` spends from: the one held, or else a full one.
abbrev pub held_or_fresh : BucketConf → ℕ → Option Bucket → Bucket
held_or_fresh conf now none = record { tokens = conf.burst; last_check = now }
held_or_fresh conf now (some b) = b

spends : String → ℕ → BucketGroup → Option (Bool × Bucket)
spends id now g = Bucket.try_admit g.conf now (held_or_fresh g.conf now (lookup id g.buckets))

-- The group after a call has left `b` under `id`.
abbrev leaves : String → ℕ → BucketGroup → Bucket → BucketGroup
leaves id now g b = record g { buckets = insert id b (load_or_create_bucket id now g).1.buckets }

admit_in_lem :
    (id : String) (now : ℕ) (g : BucketGroup)
    → admit_in id now g ≡ Option.map (λ r. (r.0, leaves id now g r.1)) (spends id now g)
unfolding admit_in load_or_create_bucket spends
admit_in_lem id now g = ground arith

lookup-leaves :
    (id j : String) (now : ℕ) (g : BucketGroup) (b : Bucket)
    → lookup j (leaves id now g b).buckets ≡ (if id == j then some b else lookup j g.buckets)
unfolding load_or_create_bucket
lookup-leaves id j now g b = ground (
  arith,
  lookup-insert id j b g.buckets,
  lookup-insert id j b (insert id (fresh g.conf now) g.buckets),
  lookup-insert id j (fresh g.conf now) g.buckets,
)

bucket_of-leaves :
    (gid id gid' id' : String) (now : ℕ) (l : Limiter) (g : BucketGroup) (b : Bucket)
    → lookup gid l.groups ≡ some g
    → bucket_of gid' id' (record l { groups = insert gid (leaves id now g b) l.groups })
      ≡ (if gid == gid' && id == id' then some b else bucket_of gid' id' l)
bucket_of-leaves gid id gid' id' now l g b known =
    rw lookup-insert (ground (arith, lookup-leaves id id' now g b, eq_iff gid gid'))

abbrev left : String → String → ℕ → Limiter → BucketGroup → Bucket → Limiter
left gid id now l g b = record l { groups = insert gid (leaves id now g b) l.groups }

try_admit-eq :
    (gid id : String) (now : ℕ) (l : Limiter) (g : BucketGroup)
    → lookup gid l.groups ≡ some g
    → try_admit gid id now l ≡ Option.map (λ r. (r.0, left gid id now l g r.1)) (spends id now g)
unfolding try_admit
try_admit-eq gid id now l g known = rw (known, try_admit, admit_in_lem) (ground arith)

answer :
    (gid id : String) (now : ℕ) (l : Limiter) (g : BucketGroup) {v : Bool} {l' : Limiter}
    (o : Option (Bool × Bucket))
    → Option.map {B = Bool × Limiter} (λ r. (r.0, left gid id now l g r.1)) o ≡ some (v, l')
    → (b : Bucket) × (o ≡ some (v, b)) × (left gid id now l g b ≡ l')
answer gid id now l g none e = ground arith
answer gid id now l g (some (w, b)) e = (b, ground arith, ground arith)

-- A call on a registered group that answers takes its answer from the one bucket that it names,
-- held or else created full, leaves that bucket as its `TryAdmit` leaves it, and changes no
-- other bucket of any group.
pub try_admit_spends :
    (gid id : String) (now : ℕ) (l : Limiter) (g : BucketGroup) {v : Bool} {l' : Limiter}
    → lookup gid l.groups ≡ some g
    → try_admit gid id now l ≡ some (v, l')
    → (b : Bucket) × (Bucket.try_admit g.conf now (held_or_fresh g.conf now (bucket_of gid id l))
        ≡ some (v, b))
      × ((gid' id' : String)
          → bucket_of gid' id' l'
            ≡ (if gid == gid' && id == id' then some b else bucket_of gid' id' l))
unfolding spends
try_admit_spends gid id now l g known e =
    let (b, spent, into) =
      answer gid id now l g (spends id now g) (sym (try_admit-eq gid id now l g known) ∙ e) in
    (b, rw known spent, λ gid' id'. rw (← into) (bucket_of-leaves gid id gid' id' now l g b known))

-- The answer of a call.
abbrev pub verdict : String → String → ℕ → Limiter → Option Bool
verdict gid id now l = Option.map (λ r. r.0) (try_admit gid id now l)

verdict_of :
    (gid id : String) (now : ℕ) (l : Limiter) (g : BucketGroup) (o : Option (Bool × Bucket))
    → Option.map {A = Bool × Limiter}
        (λ r. r.0)
        (Option.map (λ r. (r.0, left gid id now l g r.1)) o)
      ≡ Option.map (λ r. r.0) o
verdict_of gid id now l g none = refl
verdict_of gid id now l g (some r) = refl

pub verdict_lem :
    (gid id : String) (now : ℕ) (l : Limiter) (g : BucketGroup)
    → lookup gid l.groups ≡ some g
    → verdict gid id now l
      ≡ Option.map
          (λ r. r.0)
          (Bucket.try_admit g.conf now (held_or_fresh g.conf now (lookup id g.buckets)))
unfolding spends
verdict_lem gid id now l g known =
    rw (try_admit-eq gid id now l g known) (verdict_of gid id now l g (spends id now g))
