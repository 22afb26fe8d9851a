-- ===== src/Jobs/History.antt =====
-- The scheduler after any sequence of registrations, removals and ticks.
mod Tests
use gwf.Common.{ℕ, String, Option, List, ok, ◌≡◌, ◌∷◌, [], String_eq, ℕ_eq}
use gwf.Coord.{Mode}
use gwf.Jobs.{OneTimeJob, CronJob, Provider, Scheduler, new_service_as}
use gwf.Jobs.Cron.{Time}
use gwf.Jobs.Add.{add_one_time_job, add_cron_job}
use gwf.Jobs.Add.Boxes.{IsValid, add_one_time_job-IsValid, add_cron_job-IsValid}
use gwf.Jobs.Delete.{
  delete_one_time_job, delete_cron_job, delete_one_time_job-IsValid, delete_cron_job-IsValid,
}
use gwf.Jobs.Tick.Taken.{tick-IsValid}
use gwf.Jobs.Fresh.{new_service_as-IsValid}
use gwf.Jobs.Tick.{tick}

pub data Event : Type 0 where
  adds_one_time : ℕ → OneTimeJob → Event
  adds_cron : CronJob → Event
  deletes_one_time deletes_cron : String → Event
  ticks : Time → Event

module _ {W : Type 0} where
  pub step : Scheduler W × W → Event → Scheduler W × W
  step (s, w) (adds_one_time now job) =
      let r = add_one_time_job now job s w in (r.scheduler, r.world)
  step (s, w) (adds_cron job) = let r = add_cron_job job s w in (r.scheduler, r.world)
  step (s, w) (deletes_one_time id) = (delete_one_time_job id s, w)
  step (s, w) (deletes_cron id) = (delete_cron_job id s, w)
  step (s, w) (ticks now) = let r = tick now s w in (r.1, r.2)

  pub run : Scheduler W × W → List Event → Scheduler W × W
  unfolding step
  run c [] = c
  run c (e ∷ es) = run (step c e) es

  step-IsValid : (c : Scheduler W × W) (e : Event) → IsValid c.0 → IsValid (step c e).0
  unfolding step
  step-IsValid (s, w) (adds_one_time now job) v = add_one_time_job-IsValid now job s w v
  step-IsValid (s, w) (adds_cron job) v = add_cron_job-IsValid job s w v
  step-IsValid (s, w) (deletes_one_time id) v = delete_one_time_job-IsValid id s v
  step-IsValid (s, w) (deletes_cron id) v = delete_cron_job-IsValid id s v
  step-IsValid (s, w) (ticks now) v = tick-IsValid now s w v

  run-IsValid : (c : Scheduler W × W) (es : List Event) → IsValid c.0 → IsValid (run c es).0
  unfolding run
  run-IsValid c [] v = v
  run-IsValid c (e ∷ es) v = run-IsValid (step c e) es (step-IsValid c e v)

-- After any history of a new scheduler, whatever its ledger's provider answers: the cron jobs' ids
-- differ, within each box and across the two, and no job is in a box of the app's while no ledger
-- is resolved, so a tick never takes a job of the app's without a ledger to claim it in.
pub run-new_service_as-IsValid :
    {W : Type 0} (name : String) (mode : Mode) (provider : Option (Provider W)) (s : Scheduler W)
    (w : W) (es : List Event)
    → new_service_as name mode provider ≡ ok s
    → IsValid (run (s, w) es).0
run-new_service_as-IsValid name mode provider s w es h =
    run-IsValid (s, w) es (new_service_as-IsValid name mode provider s h)
