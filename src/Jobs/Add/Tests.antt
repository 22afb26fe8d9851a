-- ===== src/Jobs/Add/Tests.antt =====
-- A job half a minute ahead.
use gwf.Common.{refl, none, lookup, insert, ◌+◌, ◌*◌, ◌/◌, ◌≤◌, ◌<◌, ◌≡◌, ◌∷◌, [], ℕ_eq}
use gwf.Jobs.{once_per_app, returns, OneTimeJob}
use gwf.Jobs.Add.{minute, margin, minute_key, get_list, file_job, store_one_time_job}
use gwf.Jobs.Add.Filed.{store_one_time_job_lem}

-- Its moment is 90.5 seconds after the epoch.
abbrev late : OneTimeJob
late = record {
  id = "mail";
  scope = once_per_app;
  exec_time = 90500000000;
  task = returns none;
  on_added = none;
  on_finished = none;
}

minute_key_example : minute_key 90500000000 ≡ 2
unfolding minute_key
minute_key_example = refl

store_one_time_job_lem_example :
    (60000000000 + margin ≤ 90500000000)
    × (90500000000 ≤ 2 * minute)
    × (2 * minute < 90500000000 + minute)
    × (60000000000 / minute < 2)
    × (get_list 2 ((2, late ∷ []) ∷ []) ≡ late ∷ [])
unfolding store_one_time_job minute_key file_job insert lookup
store_one_time_job_lem_example =
    store_one_time_job_lem 60000000000 late [] ((2, late ∷ []) ∷ []) 2 refl
