-- ===== src/Throttle/Limiter.antt =====
-- gw/throttle/limiterinmembuckets.go and bucketgroup.go: the limiter that keeps its buckets in this
-- process. Each method on a group's map and each method of a bucket is one step. `none` is the
-- panic of a division by zero; the error of `TryAdmit` is always nil and has no place here.
pub mod Buckets
pub mod Distinct
pub mod Sweep
mod Tests
use mathlib.Core.Option
use gwf.Common.{
  ℕ, String, Bool, false, Option, none, some, List, map, Result, ok, err, Dict, keys, is_some,
  lookup, insert, ◌*◌, ◌∷◌, [], if◌then◌else◌, String_eq,
}
use gwf.Common.Int.{ℤ, ltb_ℤ}
use gwf.Svc.{State, ready, Service, new_service}
use gwf.Throttle.Bucket.{BucketConf, Bucket, sub_time}
use gwf.Throttle.Bucket

pub record BucketGroup : Type 0 where
  pub conf : BucketConf
  pub buckets : Dict String Bucket

-- The buckets of a group, each a full one when it is first seen.
pub fresh : BucketConf → ℕ → Bucket
fresh conf now = record { tokens = conf.burst; last_check = now }

abbrev load_or_store : String → Bucket → Dict String Bucket → Bucket × Dict String Bucket
load_or_store id b m = elim (lookup id m) [ none ↦ (b, insert id b m) | some held ↦ (held, m) ]

unfoldable pub load_or_create_bucket : String → ℕ → BucketGroup → Bucket × BucketGroup
unfolding fresh
load_or_create_bucket id now g = elim (lookup id g.buckets) [
  | some b ↦ (b, g)
  | none ↦
      let (b, m) = load_or_store id (fresh g.conf now) g.buckets in (b, record g { buckets = m })
]

pub record Limiter : Type 0 where
  pub service : Service
  pub open service use *
  pub cleanup_cycle : ℤ
  pub cleanup_older_than : ℤ
  pub groups : Dict String BucketGroup

pub new_limiter : ℤ → ℤ → Limiter
unfolding new_service
new_limiter cycle older = record {
  service = new_service;
  cleanup_cycle = cycle;
  cleanup_older_than = older;
  groups = [];
}

pub has_group : String → Limiter → Bool
has_group id l = is_some (lookup id l.groups)

-- Refused with the state in any state but READY.
add_group : State → String → BucketConf → Limiter → Result State Limiter
add_group ready id conf l =
    ok (record l { groups = insert id (record { conf = conf; buckets = [] }) l.groups })
add_group other id conf l = err other

unfoldable pub set_bucket_group : String → BucketConf → Limiter → Result State Limiter
unfolding add_group
set_bucket_group id conf l = add_group l.state id conf l

admit_in : String → ℕ → BucketGroup → Option (Bool × BucketGroup)
unfolding load_or_create_bucket
admit_in id now g =
    let (b, h) = load_or_create_bucket id now g in
    Option.map (λ r. (r.0, record h { buckets = insert id r.1 h.buckets }))
      (Bucket.try_admit h.conf now b)

unfoldable pub try_admit : String → String → ℕ → Limiter → Option (Bool × Limiter)
unfolding admit_in
try_admit group_id bucket_id now l = elim (lookup group_id l.groups) [
  | none ↦ some (false, l)
  | some g ↦
      Option.map (λ r. (r.0, record l { groups = insert group_id r.1 l.groups }))
        (admit_in bucket_id now g)
]

-- The ids of every group's buckets.
bucket_ids : Dict String BucketGroup → Dict String (List String)
bucket_ids [] = []
bucket_ids ((id, g) ∷ m) = (id, keys g.buckets) ∷ bucket_ids m

pub inspect : Limiter → Dict String (List String)
unfolding bucket_ids
inspect l = bucket_ids l.groups

-- now.Sub(last) > cleanupOlderThan
pub is_stale : ℤ → ℕ → Bucket → Bool
is_stale older now b = ltb_ℤ older (sub_time now b.last_check)

sweep : ℤ → ℕ → Dict String Bucket → Dict String Bucket
sweep older now [] = []
sweep older now ((id, b) ∷ m) =
    let rest = sweep older now m in if is_stale older now b then rest else (id, b) ∷ rest

sweep_groups : ℤ → ℕ → Dict String BucketGroup → Dict String BucketGroup
unfolding sweep
sweep_groups older now [] = []
sweep_groups older now ((id, g) ∷ m) =
    (id, record g { buckets = sweep older now g.buckets }) ∷ sweep_groups older now m

unfoldable pub cleanup : ℕ → Limiter → Limiter
unfolding sweep_groups
cleanup now l = record l { groups = sweep_groups l.cleanup_older_than now l.groups }
