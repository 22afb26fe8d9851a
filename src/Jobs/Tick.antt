-- ===== src/Jobs/Tick.antt =====
-- gw/jobsched/service.go: what one tick of the scheduler takes, claims and starts, and what a job's
-- goroutine calls. A started job runs by itself; the tick goes on.
pub mod Taken
use gwf.Common.{
  ℕ, String, Bool, false, Option, none, some, List, map, Result, ok, err, Dict, delete, ◌/◌, ◌∷◌,
  ◌++◌, [], if◌then◌else◌, String_eq, ℕ_eq,
}
use gwf.Jobs.{Outcome, returns, panics, OneTimeJob, CronJob, Callbacks, Ledger, Scheduler}
use gwf.Jobs.Cron.{Time, matches}
use gwf.Jobs.Add.{get_list}

pub data Started : Type 0 where
  one_time : OneTimeJob → Started
  cron : CronJob → Started

pub data TaskError : Type 0 where
  failed : String → TaskError
  -- the kind of job and its id
  panicked : String → String → String → TaskError

-- A panic of the task becomes its error.
pub run_task : String → String → Outcome → Option TaskError
run_task kind id (returns none) = none
run_task kind id (returns (some m)) = some (failed m)
run_task kind id (panics m) = some (panicked kind id m)

-- The callbacks that a job's goroutine calls, with the error that they are given.
pub data FinishCall : Type 0 where
  job_finished service_finished : String → Option TaskError → FinishCall

called : Option Outcome → FinishCall → List FinishCall
called none call = []
called (some f) call = call ∷ []

-- A callback that panics does not keep the next from its call.
pub run_one_time_job : Callbacks → OneTimeJob → List FinishCall
unfolding run_task called
run_one_time_job cb job =
    let e = run_task "one-time job" job.id job.task in
    called job.on_finished (job_finished job.id e)
    ++ called cb.on_one_time_job_finished (service_finished job.id e)

pub run_cron_job : Callbacks → CronJob → List FinishCall
unfolding run_task called
run_cron_job cb job =
    let e = run_task "cron job" job.id job.task in
    called job.on_finished (job_finished job.id e)
    ++ called cb.on_cron_job_finished (service_finished job.id e)

unfoldable pub planned_minute : Time → ℕ
planned_minute now = now.unix_nano / 1000000000 / 60

won : Result String Bool → Bool
won (ok b) = b
won (err m) = false

-- The jobs that this instance claims, in turn: a job whose claim fails or is lost is passed over.
pub claim_each : {W : Type 0} {A : Type 0} → (A → String) → Ledger W → ℕ → List A → W → List A × W
unfolding won
claim_each id ledger key [] w = ([], w)
claim_each id ledger key (job ∷ jobs) w =
    let r = ledger (id job) key w in
    let rest = claim_each id ledger key jobs r.1 in if won r.0 then (job ∷ rest.0, rest.1) else rest

pub due : Time → Dict String CronJob → List CronJob
due now [] = []
due now ((id, job) ∷ box) = let rest = due now box in if matches job now then job ∷ rest else rest

module _ {W : Type 0} where
  pub run_one_time_jobs_per_instance : Time → Scheduler W → List OneTimeJob × Scheduler W
  unfolding planned_minute
  run_one_time_jobs_per_instance now s =
      let key = planned_minute now in
      (
        get_list key s.one_time_jobs_per_instance,
        record s { one_time_jobs_per_instance = delete key s.one_time_jobs_per_instance },
      )

  pub run_cron_jobs_per_instance : Time → Scheduler W → List CronJob
  unfolding due
  run_cron_jobs_per_instance now s = due now s.cron_jobs_per_instance

  -- Without a ledger nothing is run.
  claim_with : {A : Type 0} → Option (Ledger W) → (A → String) → ℕ → List A → W → List A × W
  unfolding claim_each
  claim_with none id key jobs w = ([], w)
  claim_with (some ledger) id key jobs w = claim_each id ledger key jobs w

  pub run_one_time_jobs_per_app : Time → Scheduler W → W → List OneTimeJob × Scheduler W × W
  unfolding planned_minute claim_with
  run_one_time_jobs_per_app now s w =
      let key = planned_minute now in
      let jobs = get_list key s.one_time_jobs_per_app in
      let r = claim_with s.ledger (λ job. job.id) key jobs w in
      (r.0, record s { one_time_jobs_per_app = delete key s.one_time_jobs_per_app }, r.1)

  pub run_cron_jobs_per_app : Time → Scheduler W → W → List CronJob × W
  unfolding planned_minute claim_with due
  run_cron_jobs_per_app now s w =
      claim_with s.ledger (λ job. job.id) (planned_minute now) (due now s.cron_jobs_per_app) w

  -- The body of the loop in `run`.
  pub tick : Time → Scheduler W → W → List Started × Scheduler W × W
  unfolding run_one_time_jobs_per_instance run_cron_jobs_per_instance run_one_time_jobs_per_app
      run_cron_jobs_per_app
  tick now s w =
      let a = run_one_time_jobs_per_instance now s in
      let b = run_cron_jobs_per_instance now a.1 in
      let c = run_one_time_jobs_per_app now a.1 w in
      let d = run_cron_jobs_per_app now c.1 c.2 in
      (map one_time a.0 ++ map cron b ++ map one_time c.0 ++ map cron d.0, c.1, d.1)
