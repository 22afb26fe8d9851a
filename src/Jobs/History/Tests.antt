-- ===== src/Jobs/History/Tests.antt =====
-- A scheduler across processes, with a provider that fails at first.
use gwf.Common.{
  ℕ, String, refl, false, none, some, arith, eq_iff, ok, err, lookup, ◌+◌, ◌≡◌, ◌≢◌, ◌∷◌, ◌==◌, [],
  String_eq, ℕ_eq,
}
use gwf.Coord.{crossproc}
use gwf.Svc
use gwf.Jobs.{
  once_per_app, Ledger, Provider, Scheduler, CronJob, OneTimeJob, returns, new_service_as,
  no_callbacks,
}
use gwf.Jobs.Cron.{Time, new_every_min_empty_cron_job}
use gwf.Jobs.Add.{get_list}
use gwf.Jobs.Add.Boxes.{IsValid}
use gwf.Jobs.Delete.{get_cron_jobs, delete_cron_job, get_cron_jobs-delete_cron_job}
use gwf.Jobs.Tick.{tick, one_time}
use gwf.Jobs.Tick.Taken.{tick_takes}
use gwf.Jobs.History.{adds_cron, deletes_cron, ticks, run, run-new_service_as-IsValid}

-- It wins what is claimed first; the world counts the claims.
abbrev first_wins : Ledger ℕ
first_wins id minute w = (ok (w == 0), w + 1)

abbrev failing : Provider ℕ
failing w = (err "not prepared", w)

abbrev fresh : Scheduler ℕ
fresh = record {
  name = "jobs";
  coord_mode = crossproc;
  cycle = record {
    state = Svc.ready;
    alive = false;
    canceled = false;
    parent_done = false;
    terminated = [];
  };
  one_time_jobs_per_instance = [];
  cron_jobs_per_instance = [];
  one_time_jobs_per_app = [];
  cron_jobs_per_app = [];
  provider = some failing;
  ledger = none;
  callbacks = no_callbacks;
}

abbrev report : CronJob
report = new_every_min_empty_cron_job "report" once_per_app

abbrev epoch : Time
epoch = record { unix_nano = 0; minute = 0; hour = 0; day = 1; weekday = 4 }

run-new_service_as-IsValid_example :
    IsValid (run (fresh, 0) (adds_cron report ∷ ticks epoch ∷ deletes_cron "report" ∷ [])).0
unfolding Svc.new_service new_service_as
run-new_service_as-IsValid_example =
    run-new_service_as-IsValid "jobs" crossproc (some failing) fresh 0
      (adds_cron report ∷ ticks epoch ∷ deletes_cron "report" ∷ []) refl

abbrev registered : Scheduler ℕ
registered = record fresh {
  cron_jobs_per_instance = ("sweep", new_every_min_empty_cron_job "sweep" once_per_app) ∷ [];
  cron_jobs_per_app = ("report", report) ∷ [];
  ledger = some first_wins;
}

differ : ◌≢◌ {A = String} "sweep" "report"
differ h = ground (arith, eq_iff "sweep" "report")

registered-IsValid : IsValid registered
unfolding lookup
registered-IsValid = record {
  distinct_per_instance = (refl, tt);
  distinct_per_app = (refl, tt);
  apart = λ id h. ground (arith, eq_iff "sweep" id, eq_iff "report" id, differ, h);
  ledger_first = λ h. cc;
}

get_cron_jobs-delete_cron_job_example :
    lookup "report" (get_cron_jobs (delete_cron_job "report" registered)) ≡ none
get_cron_jobs-delete_cron_job_example =
    get_cron_jobs-delete_cron_job "report" "report" registered registered-IsValid

abbrev once : String → OneTimeJob
once id = record {
  id = id;
  scope = once_per_app;
  exec_time = 125;
  task = returns none;
  on_added = none;
  on_finished = none;
}

abbrev waiting : Scheduler ℕ
waiting = record fresh {
  one_time_jobs_per_instance = (2, once "a" ∷ []) ∷ (3, once "later" ∷ []) ∷ [];
  one_time_jobs_per_app = (2, once "b" ∷ once "c" ∷ []) ∷ [];
  ledger = some first_wins;
}

abbrev third_minute : Time
third_minute = record epoch { unix_nano = 125000000000; minute = 2 }

-- Of the app's jobs the first is won, and the second is not.
tick_takes_example :
    let s' = (tick third_minute waiting 0).1 in
    ((tick third_minute waiting 0).0 ≡ one_time (once "a") ∷ one_time (once "b") ∷ [])
    × (get_list 2 s'.one_time_jobs_per_instance ≡ [])
    × (get_list 2 s'.one_time_jobs_per_app ≡ [])
    × (s'.cron_jobs_per_instance ≡ [])
    × (s'.cron_jobs_per_app ≡ [])
    × (s'.ledger ≡ some first_wins)
unfolding lookup
tick_takes_example = tick_takes third_minute 2 waiting 0 2 (omega arith) (omega arith)
