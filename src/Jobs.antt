-- ===== src/Jobs.antt =====
-- gw/jobsched: jobs, their scopes, and the scheduler's state (service.go, onetimejob.go, cronjob.go,
-- scope.go, ledger.go). A task or a callback is what its call comes to. The scheduler's mutexes make
-- each operation on its boxes one step. A scheduler comes from `NewService`: no box is nil.
pub mod Cron
pub mod Add
pub mod Delete
pub mod Tick
pub mod Claim
pub mod History
pub mod Fresh
use gwf.Common.{ℕ, String, Bool, true, false, Option, none, List, Result, ok, err, Dict, []}
use gwf.Coord.{Mode, undeclared, inproc, crossproc}
use gwf.Svc.{State, Wait, LifecycleError, ready}
use gwf.Svc

-- `unscoped` is the zero value.
pub data Scope : Type 0 where
  unscoped once_per_instance once_per_app : Scope

pub is_undeclared : Scope → Bool
is_undeclared unscoped = true
is_undeclared _ = false

pub scope_string : Scope → String
scope_string once_per_instance = "once per instance"
scope_string once_per_app = "once per app"
scope_string unscoped = "undeclared"

-- What a call of a task or of a callback comes to: an error or none, or a panic.
pub data Outcome : Type 0 where
  returns : Option String → Outcome
  panics : String → Outcome

-- `exec_time` is in nanoseconds since the epoch, as every moment here.
pub record OneTimeJob : Type 0 where
  pub id : String
  pub scope : Scope
  pub exec_time : ℕ
  pub task : Outcome
  pub on_added : Option Outcome
  pub on_finished : Option Outcome

pub record CronJob : Type 0 where
  pub id : String
  pub scope : Scope
  -- sets of bits: 60, 24, 31 and 7
  pub minutes : ℕ
  pub hours : ℕ
  pub days_of_month : ℕ
  pub weekdays : ℕ
  pub task : Outcome
  pub on_added : Option Outcome
  pub on_finished : Option Outcome

-- Functions that may be nil.
pub record Callbacks : Type 0 where
  pub on_one_time_job_added : Option Outcome
  pub on_cron_job_added : Option Outcome
  pub on_one_time_job_finished : Option Outcome
  pub on_cron_job_finished : Option Outcome
  pub on_one_time_job_deleted : Option Outcome
  pub on_cron_job_deleted : Option Outcome

abbrev pub no_callbacks : Callbacks
no_callbacks = record {
  on_one_time_job_added = none;
  on_cron_job_added = none;
  on_one_time_job_finished = none;
  on_cron_job_finished = none;
  on_one_time_job_deleted = none;
  on_cron_job_deleted = none;
}

-- `Claim` of a ledger that lives in a world `W`, by job id and planned minute.
abbrev pub Ledger : Type 0 → Type 0
Ledger W = String → ℕ → W → Result String Bool × W

-- What provides the ledger may fail, and may yield nil.
abbrev pub Provider : Type 0 → Type 0
Provider W = W → Result String (Option (Ledger W)) × W

pub record Scheduler (W : Type 0) : Type 0 where
  pub name : String
  pub coord_mode : Mode
  -- the state, the run goroutine and the channels
  pub cycle : Svc.Service
  pub one_time_jobs_per_instance : Dict ℕ (List OneTimeJob)
  pub cron_jobs_per_instance : Dict String CronJob
  pub one_time_jobs_per_app : Dict ℕ (List OneTimeJob)
  pub cron_jobs_per_app : Dict String CronJob
  pub provider : Option (Provider W)
  pub ledger : Option (Ledger W)
  pub callbacks : Callbacks

pub data JobError : Type 0 where
  no_mode : String → JobError
  not_ready : State → JobError
  undeclared_scope : String → JobError
  too_soon : String → JobError
  exists : String → JobError
  no_provider : JobError
  provider_failed : String → JobError
  no_ledger : JobError
  callback_panicked : String → JobError

module _ {W : Type 0} where
  pub new_service_as : String → Mode → Option (Provider W) → Result JobError (Scheduler W)
  new_service_as name undeclared provider = err (no_mode name)
  new_service_as name mode provider = ok (record {
    name = name;
    coord_mode = mode;
    cycle = Svc.new_service;
    one_time_jobs_per_instance = [];
    cron_jobs_per_instance = [];
    one_time_jobs_per_app = [];
    cron_jobs_per_app = [];
    provider = provider;
    ledger = none;
    callbacks = no_callbacks;
  })

  pub new_service : Mode → Option (Provider W) → Result JobError (Scheduler W)
  unfolding new_service_as
  new_service mode provider = new_service_as "JobSchedulerService" mode provider

  set_callbacks_in : State → Callbacks → Scheduler W → Result JobError (Scheduler W)
  set_callbacks_in ready cb s = ok (record s { callbacks = cb })
  set_callbacks_in other cb s = err (not_ready other)

  -- Only before the start.
  pub set_callbacks : Callbacks → Scheduler W → Result JobError (Scheduler W)
  unfolding set_callbacks_in
  set_callbacks cb s = set_callbacks_in s.cycle.state cb s

  -- The lifecycle is that of `Svc`: the same calls over the same fields.
  pub start : Scheduler W → Scheduler W × Option LifecycleError
  start s = let r = Svc.start s.cycle in (record s { cycle = r.0 }, r.1)

  pub stop : Wait → Scheduler W → Scheduler W × Option LifecycleError
  stop w s = let r = Svc.stop w s.cycle in (record s { cycle = r.0 }, r.1)

  pub terminate : Wait → Scheduler W → Scheduler W × Option LifecycleError
  terminate w s = let r = Svc.terminate w s.cycle in (record s { cycle = r.0 }, r.1)

  pub run_exit : Scheduler W → Scheduler W
  run_exit s = record s { cycle = Svc.run_exit s.cycle }
