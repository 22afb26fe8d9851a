-- ===== src/Throttle/Kvdb/Admit/Tests.antt =====
-- A store in memory, with a bucket and a text that is none.
use gwf.Common.{refl, none, some, arith, lookup, ◌≡◌, ◌∷◌, [], String_eq}
use gwf.Common.Int.{pos, quot, wrap, ◌+ℤ◌, ◌*ℤ◌}
use gwf.Svc.{running}
use gwf.Kvdb.{Entry}
use gwf.Kvdb.Memory.{Memory, rows_of}
use gwf.Kvdb.InMemory.{memory}
use gwf.Throttle.Bucket.{BucketConf}
use gwf.Throttle.Kvdb.{LimiterKvdbBuckets, refusal_stands, idle_ttl}
use gwf.Throttle.Kvdb.Text.{parse_bucket, format_bucket, cut, parse_cut}
use gwf.Throttle.Kvdb.Text.RoundTrip.{parse_bucket-format_bucket}
use gwf.Throttle.Kvdb.Admit.{bucket_key, try_admit}
use gwf.Throttle.Kvdb.Admit.Refines.{Refines, try_admit-Refines}
use gwf.Throttle.Kvdb.Admit.Unreadable.{IsUndecided, try_admit-IsUndecided}

abbrev three : BucketConf
three = record { burst = pos 3; increment = pos 1; incr_period = pos 1000000000 }

abbrev limiter : LimiterKvdbBuckets
limiter = record {
  state = running;
  terminated = [];
  prefix = "p:";
  groups = ("g", three) ∷ [];
  ask_after = [];
}

abbrev junk : Entry
junk = record { value = "junk"; until = none }

abbrev with_junk : Memory
with_junk = record { now = 0; entries = ("p:g:b", junk) ∷ []; faults = [] }

parse_bucket-format_bucket_example :
    parse_bucket (some (format_bucket (pos 4) (pos 900000000)))
    ≡ some (record { tokens = pos 4; last = pos 900000000 })
parse_bucket-format_bucket_example =
    parse_bucket-format_bucket 4 900000000 (omega arith) (omega arith)

try_admit-IsUndecided_example :
    let r = try_admit memory "g" "b" 7 limiter with_junk in
    IsUndecided memory (bucket_key limiter "g" "b") junk r.0 r.2
unfolding bucket_key refusal_stands lookup rows_of parse_bucket cut parse_cut
try_admit-IsUndecided_example =
    try_admit-IsUndecided memory "g" "b" three 7 limiter junk with_junk refl refl refl refl

abbrev two_left : Entry
two_left = record { value = format_bucket (pos 2) (pos 5); until = some 3000000000 }

abbrev with_bucket : Memory
with_bucket = record { now = 0; entries = ("p:g:b", two_left) ∷ []; faults = [] }

try_admit-Refines_example :
    let r = try_admit memory "g" "b" 1000000007 limiter with_bucket in
    Refines three 1000000007
      (record { tokens = pos 2; last_check = 5 })
      (bucket_key limiter "g" "b")
      two_left
      r.0
      (rows_of r.2)
unfolding bucket_key refusal_stands lookup rows_of idle_ttl quot wrap ◌+ℤ◌ ◌*ℤ◌
try_admit-Refines_example =
    try_admit-Refines memory "g" "b" three 1000000007 (record { tokens = pos 2; last_check = 5 })
      limiter two_left with_bucket 3000000000 refl refl refl (omega arith) (omega arith) refl
      (parse_bucket-format_bucket 2 5 (omega arith) (omega arith))
