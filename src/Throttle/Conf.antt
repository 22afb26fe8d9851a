-- ===== src/Throttle/Conf.antt =====
-- gw/throttle/conf.go: what a limiter is built from, and the numbers that its buckets get. Reading
-- the file is not modelled.
pub mod Checked
mod Tests
use gwf.Common.{
  String, Bool, true, false, List, Result, ok, err, Dict, ◌||◌, ◌∷◌, ◌==◌, [], if◌then◌else◌, ◌>>◌,
  String_eq,
}
use gwf.Common.Int.{ℤ, pos, ltb_ℤ, ◌*ℤ◌, wrap}
use gwf.Throttle.Bucket.{BucketConf}

pub record GroupConf : Type 0 where
  pub burst : ℤ
  pub increment : ℤ
  pub incr_period_secs : ℤ

pub record Conf : Type 0 where
  pub cleanup_cycle_secs : ℤ
  pub cleanup_older_than_secs : ℤ
  pub groups : Dict String GroupConf

pub data ConfError : Type 0 where
  no_group empty_group_id bad_cleanup : ConfError
  bad_rate : String → ConfError

below_one : ℤ → Bool
below_one n = ltb_ℤ n (pos 1)

bad_numbers : GroupConf → Bool
unfolding below_one
bad_numbers g = below_one g.burst || below_one g.increment || below_one g.incr_period_secs

validate_groups : Dict String GroupConf → Result ConfError (Unit {0})
unfolding bad_numbers
validate_groups [] = ok tt
validate_groups ((id, g) ∷ rest) =
    if id == ""
    then err empty_group_id
    else if bad_numbers g
    then err (bad_rate id)
    else validate_groups rest

is_empty {ℓ} : {A : Type ℓ} → List A → Bool
is_empty [] = true
is_empty (x ∷ xs) = false

unfoldable pub validate : Conf → Result ConfError (Unit {0})
unfolding validate_groups is_empty
validate c = if is_empty c.groups then err no_group else do
  validate_groups c.groups
  if below_one c.cleanup_cycle_secs || below_one c.cleanup_older_than_secs
      then err bad_cleanup
      else ok tt

-- time.Second
abbrev pub second : ℤ
second = pos 1_000_000_000

-- time.Duration(secs) * time.Second
unfoldable pub seconds : ℤ → ℤ
seconds secs = wrap (secs *ℤ second)

pub bucket_conf : GroupConf → BucketConf
bucket_conf g = record {
  burst = g.burst;
  increment = g.increment;
  incr_period = seconds g.incr_period_secs;
}

confs_of : Dict String GroupConf → Dict String BucketConf
unfolding bucket_conf
confs_of [] = []
confs_of ((id, g) ∷ rest) = (id, bucket_conf g) ∷ confs_of rest

unfoldable pub bucket_confs : Conf → Dict String BucketConf
unfolding confs_of
bucket_confs c = confs_of c.groups

pub cleanup_cycle : Conf → ℤ
cleanup_cycle c = seconds c.cleanup_cycle_secs

pub cleanup_older_than : Conf → ℤ
cleanup_older_than c = seconds c.cleanup_older_than_secs
