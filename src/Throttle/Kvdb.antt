-- ===== src/Throttle/Kvdb.antt =====
-- gw/throttle/limiterkvdbbuckets.go: what the limiter over a KVDB keeps and computes in its own
-- process. Text has the form that a bucket has in the store, and Admit the calls of the store.
pub mod Memory
pub mod Text
pub mod Admit
use mathlib.Core.Option
use gwf.Common.{
  ℕ, String, Bool, false, Option, none, some, List, map, ltb, leb, Result, ok, err, length, Dict,
  is_some, lookup, insert, ◌||◌, ◌∷◌, [], if◌then◌else◌, String_eq,
}
use gwf.Common.Int.{ℤ, pos, ltb_ℤ, leb_ℤ, quot, wrap, ◌+ℤ◌, ◌*ℤ◌, negsuc}
use gwf.Svc.{State, ready, running, terminating, LifecycleError, cannot_start, cannot_stop}
use gwf.Throttle.Bucket.{BucketConf, Bucket, sub_time, add_time, cap_at}

pub record LimiterKvdbBuckets : Type 0 where
  pub state : State
  -- what has been sent on the channel `terminated`, latest first
  pub terminated : List (Option LifecycleError)
  pub prefix : String
  pub groups : Dict String BucketConf
  -- the moment from which the store is worth asking again, by bucket key
  pub ask_after : Dict String ℕ

pub new_limiter_kvdb_buckets : String → LimiterKvdbBuckets
new_limiter_kvdb_buckets prefix = record {
  state = ready;
  terminated = [];
  prefix = prefix;
  groups = [];
  ask_after = [];
}

start_from : State → LimiterKvdbBuckets → LimiterKvdbBuckets × Option LifecycleError
start_from running l = (l, none)
start_from ready l = (record l { state = running }, none)
start_from other l = (l, some (cannot_start other))

pub start : LimiterKvdbBuckets → LimiterKvdbBuckets × Option LifecycleError
unfolding start_from
start l = start_from l.state l

stop_from : State → LimiterKvdbBuckets → LimiterKvdbBuckets × Option LifecycleError
stop_from ready l = (l, none)
stop_from running l = (record l { state = ready }, none)
stop_from other l = (l, some (cannot_stop other))

pub stop : LimiterKvdbBuckets → LimiterKvdbBuckets × Option LifecycleError
unfolding stop_from
stop l = stop_from l.state l

terminate_from : State → LimiterKvdbBuckets → LimiterKvdbBuckets
terminate_from terminating l = l
terminate_from other l = record l { state = terminating; terminated = none ∷ l.terminated }

pub terminate : LimiterKvdbBuckets → LimiterKvdbBuckets
unfolding terminate_from
terminate l = terminate_from l.state l

pub data GroupError : Type 0 where
  conf_required not_positive : String → GroupError

pub set_bucket_group :
    String → Option BucketConf → LimiterKvdbBuckets → Result GroupError LimiterKvdbBuckets
set_bucket_group id none l = err (conf_required id)
set_bucket_group id (some conf) l =
    if ltb_ℤ conf.burst (pos 1) || ltb_ℤ conf.increment (pos 1) || leb_ℤ conf.incr_period (pos 0)
    then err (not_positive id)
    else ok (record l { groups = insert id conf l.groups })

pub has_group : String → LimiterKvdbBuckets → Bool
has_group id l = is_some (lookup id l.groups)

-- A refusal that still stands answers without the store.
pub refusal_stands : String → ℕ → LimiterKvdbBuckets → Bool
refusal_stands key now l = elim (lookup key l.ask_after) [
  | some until ↦ ltb now until
  | none ↦ false
]

abbrev pub deny_sweep_at : ℕ
deny_sweep_at = 1024

drop_passed : ℕ → Dict String ℕ → Dict String ℕ
drop_passed now [] = []
drop_passed now ((key, until) ∷ m) =
    let rest = drop_passed now m in if ltb now until then (key, until) ∷ rest else rest

pub remember_refusal : String → ℕ → ℕ → LimiterKvdbBuckets → LimiterKvdbBuckets
unfolding drop_passed
remember_refusal key until now l = record l {
  ask_after =
      insert key until (
        if leb deny_sweep_at (length l.ask_after)
        then drop_passed now l.ask_after
        else l.ask_after);
}

-- `none` is the panic of a division by zero.
pub refilled : BucketConf → ℕ → Bucket → Option Bucket
refilled conf now b =
    let elapsed = sub_time now b.last_check in
    if ltb_ℤ elapsed conf.incr_period
    then some b
    else Option.map
        (λ n.
          let times = wrap n in
          let tokens = wrap (b.tokens +ℤ wrap (times *ℤ conf.increment)) in
          record {
            tokens = if ltb_ℤ conf.burst tokens then conf.burst else tokens;
            last_check = add_time b.last_check (wrap (times *ℤ conf.incr_period));
          })
        (quot elapsed conf.incr_period)

-- How long an untouched bucket is kept: the periods that it takes to fill, rounded up.
pub idle_ttl : BucketConf → Option ℤ
idle_ttl conf =
    Option.map (λ periods. wrap (wrap periods *ℤ conf.incr_period))
      (quot (wrap (wrap (conf.burst +ℤ conf.increment) +ℤ negsuc 0)) conf.increment)
