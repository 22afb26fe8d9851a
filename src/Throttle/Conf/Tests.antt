-- ===== src/Throttle/Conf/Tests.antt =====
-- A configuration with one group.
use gwf.Common.{refl, none, some, arith, ok, lookup, ◌*◌, ◌%◌, ◌^◌, ◌≡◌, ◌↔◌, ◌∷◌, [], String_eq}
use gwf.Common.Int.{pos}
use gwf.Throttle.Bucket.{Bucket, refill}
use gwf.Throttle.Conf.{
  Conf, GroupConf, validate, validate_groups, bad_numbers, below_one, is_empty, bucket_confs,
  confs_of, bucket_conf,
}
use gwf.Throttle.Conf.Checked.{validate_admits_panic}

abbrev api : GroupConf
api = record { burst = pos 5; increment = pos 1; incr_period_secs = pos 1 }

abbrev conf : Conf
conf = record {
  cleanup_cycle_secs = pos 60;
  cleanup_older_than_secs = pos 600;
  groups = ("api", api) ∷ [];
}

conf_passes : validate conf ≡ ok tt
unfolding validate validate_groups bad_numbers below_one is_empty
conf_passes = refl

conf_has : lookup "api" (bucket_confs conf) ≡ some (bucket_conf api)
unfolding bucket_confs confs_of lookup
conf_has = refl

abbrev overflowing : GroupConf
overflowing = record { burst = pos 5; increment = pos 1; incr_period_secs = pos (1 * 2 ^ 55) }

abbrev full : Bucket
full = record { tokens = pos 5; last_check = 0 }

validate_admits_panic_example :
    (validate (record {
      cleanup_cycle_secs = pos 1;
      cleanup_older_than_secs = pos 1;
      groups = ("api", overflowing) ∷ [];
    })
      ≡ ok tt)
    × ((refill (bucket_conf overflowing) 7 full ≡ none) ↔ (1 * 2 ^ 55 % 2 ^ 55 ≡ 0))
validate_admits_panic_example =
    validate_admits_panic 5 1 (1 * 2 ^ 55) full 7 (omega arith) (omega arith) (omega arith)
      (omega arith) (omega arith)
