-- ===== src/Jobs/Add.antt =====
-- gw/jobsched/service.go: the ledger's resolution, and the registration of jobs.
pub mod Boxes
pub mod Filed
mod Tests
use gwf.Common.{
  ℕ, String, Bool, true, false, Option, none, some, List, ltb, Result, ok, err, Dict, is_some,
  lookup, insert, ◌+◌, ◌*◌, ◌/◌, ◌%◌, ◌||◌, ◌∷◌, ◌++◌, [], if◌then◌else◌, String_eq, ℕ_eq,
}
use gwf.Coord.{Mode, crossproc}
use gwf.Jobs.{
  Scope, once_per_app, is_undeclared, Outcome, returns, panics, OneTimeJob, CronJob, Callbacks,
  Ledger, Provider, Scheduler, JobError, undeclared_scope, too_soon, exists, no_provider,
  provider_failed, no_ledger, callback_panicked,
}

-- One minute, and the least notice of a one-time job, in nanoseconds.
abbrev pub minute : ℕ
minute = 60000000000

abbrev pub margin : ℕ
margin = 30000000000

-- The minute that a job fires in, as `storeOneTimeJob` files it: a moment with seconds or
-- nanoseconds is rounded up. The offset of a location is taken to be of whole minutes.
pub minute_key : ℕ → ℕ
minute_key exec_time =
    let reg_time =
      if ltb 0 (exec_time / 1000000000 % 60) || ltb 0 (exec_time % 1000000000)
      then exec_time / minute * minute + minute
      else exec_time in
    reg_time / 1000000000 / 60

-- The callbacks that are called, each with the job's id, and the panic of one that is not guarded.
pub data Call : Type 0 where
  job_on_added service_on_added job_on_deleted : String → Call

calls_of : Option Outcome → (String → Call) → String → List Call
calls_of none call id = []
calls_of (some f) call id = call id ∷ []

unguarded : Option Outcome → Option JobError
unguarded (some (panics m)) = some (callback_panicked m)
unguarded _ = none

-- The job's own callback is guarded, the service's is not.
pub notify_added : Option Outcome → Option Outcome → String → List Call × Option JobError
unfolding calls_of unguarded
notify_added on_added service_cb id = (
  calls_of on_added job_on_added id ++ calls_of service_cb service_on_added id,
  unguarded service_cb,
)

abbrev pub get_list {ℓ} : {A : Type ℓ} → ℕ → Dict ℕ (List A) → List A
get_list key box = elim (lookup key box) [ none ↦ [] | some jobs ↦ jobs ]

-- into[key] = append(into[key], job)
unfoldable pub file_job : ℕ → OneTimeJob → Dict ℕ (List OneTimeJob) → Dict ℕ (List OneTimeJob)
file_job key job into = insert key (get_list key into ++ job ∷ []) into

pub store_one_time_job :
    ℕ → OneTimeJob → Dict ℕ (List OneTimeJob) → Result JobError (Dict ℕ (List OneTimeJob))
unfolding minute_key file_job
store_one_time_job now job into =
    if ltb job.exec_time (now + margin)
    then err (too_soon job.id)
    else ok (file_job (minute_key job.exec_time) job into)

-- What a registration leaves, and what it answers.
pub record Added (W : Type 0) : Type 0 where
  pub scheduler : Scheduler W
  pub world : W
  pub calls : List Call
  pub error : Option JobError

is_shared : Mode → Scope → Bool
is_shared crossproc once_per_app = true
is_shared _ _ = false

module _ {W : Type 0} where
  refused : JobError → Scheduler W → W → Added W
  refused e s w = record { scheduler = s; world = w; calls = []; error = some e }

  kept_ledger : Scheduler W → Result String (Option (Ledger W)) → Scheduler W × Option JobError
  kept_ledger s (err m) = (s, some (provider_failed m))
  kept_ledger s (ok none) = (s, some no_ledger)
  kept_ledger s (ok (some l)) = (record s { ledger = some l }, none)

  ask_provider : Option (Provider W) → Scheduler W → W → Scheduler W × W × Option JobError
  unfolding kept_ledger
  ask_provider none s w = (s, w, some no_provider)
  ask_provider (some p) s w = let a = p w in let k = kept_ledger s a.0 in (k.0, a.1, k.1)

  resolve_from : Option (Ledger W) → Scheduler W → W → Scheduler W × W × Option JobError
  unfolding ask_provider
  resolve_from (some l) s w = (s, w, none)
  resolve_from none s w = ask_provider s.provider s w

  -- A failure is not remembered, a ledger is.
  pub resolve_ledger : Scheduler W → W → Scheduler W × W × Option JobError
  unfolding resolve_from
  resolve_ledger s w = resolve_from s.ledger s w

  -- A job that was filed is announced.
  announced :
      {E : Type 0}
      → Result JobError E
      → (E → Scheduler W)
      → List Call × Option JobError
      → Scheduler W
      → W
      → Added W
  unfolding refused
  announced (err e) put calls s w = refused e s w
  announced (ok box) put calls s w = record {
    scheduler = put box;
    world = w;
    calls = calls.0;
    error = calls.1;
  }

  pub add_one_time_job_per_instance : ℕ → OneTimeJob → Scheduler W → W → Added W
  unfolding announced notify_added store_one_time_job
  add_one_time_job_per_instance now job s w =
      announced (store_one_time_job now job s.one_time_jobs_per_instance)
        (λ box. record s { one_time_jobs_per_instance = box })
        (notify_added job.on_added s.callbacks.on_one_time_job_added job.id) s w

  file_per_app : Option JobError → ℕ → OneTimeJob → Scheduler W → W → Added W
  unfolding announced notify_added store_one_time_job refused
  file_per_app (some e) now job s w = refused e s w
  file_per_app none now job s w =
      announced (store_one_time_job now job s.one_time_jobs_per_app)
        (λ box. record s { one_time_jobs_per_app = box })
        (notify_added job.on_added s.callbacks.on_one_time_job_added job.id) s w

  pub add_one_time_job_per_app_in_cross_proc_mode : ℕ → OneTimeJob → Scheduler W → W → Added W
  unfolding resolve_ledger file_per_app
  add_one_time_job_per_app_in_cross_proc_mode now job s w =
      let r = resolve_ledger s w in file_per_app r.2 now job r.0 r.1

  pub add_one_time_job : ℕ → OneTimeJob → Scheduler W → W → Added W
  unfolding is_shared is_undeclared add_one_time_job_per_instance
      add_one_time_job_per_app_in_cross_proc_mode
  add_one_time_job now job s w =
      if is_undeclared job.scope
      then refused (undeclared_scope job.id) s w
      else if is_shared s.coord_mode job.scope
      then add_one_time_job_per_app_in_cross_proc_mode now job s w
      else add_one_time_job_per_instance now job s w

  -- An id is unique across both boxes.
  pub store_cron_job :
      CronJob → Scheduler W → Dict String CronJob → Result JobError (Dict String CronJob)
  store_cron_job job s into =
      if is_some (lookup job.id s.cron_jobs_per_instance)
      then err (exists job.id)
      else if is_some (lookup job.id s.cron_jobs_per_app)
      then err (exists job.id)
      else ok (insert job.id job into)

  pub add_cron_job_per_instance : CronJob → Scheduler W → W → Added W
  unfolding announced notify_added store_cron_job
  add_cron_job_per_instance job s w =
      announced (store_cron_job job s s.cron_jobs_per_instance)
        (λ box. record s { cron_jobs_per_instance = box })
        (notify_added job.on_added s.callbacks.on_cron_job_added job.id) s w

  file_cron_per_app : Option JobError → CronJob → Scheduler W → W → Added W
  unfolding announced notify_added store_cron_job refused
  file_cron_per_app (some e) job s w = refused e s w
  file_cron_per_app none job s w =
      announced (store_cron_job job s s.cron_jobs_per_app)
        (λ box. record s { cron_jobs_per_app = box })
        (notify_added job.on_added s.callbacks.on_cron_job_added job.id) s w

  pub add_cron_job_per_app_in_cross_proc_mode : CronJob → Scheduler W → W → Added W
  unfolding resolve_ledger file_cron_per_app
  add_cron_job_per_app_in_cross_proc_mode job s w =
      let r = resolve_ledger s w in file_cron_per_app r.2 job r.0 r.1

  pub add_cron_job : CronJob → Scheduler W → W → Added W
  unfolding is_shared is_undeclared add_cron_job_per_instance
      add_cron_job_per_app_in_cross_proc_mode
  add_cron_job job s w =
      if is_undeclared job.scope
      then refused (undeclared_scope job.id) s w
      else if is_shared s.coord_mode job.scope
      then add_cron_job_per_app_in_cross_proc_mode job s w
      else add_cron_job_per_instance job s w
