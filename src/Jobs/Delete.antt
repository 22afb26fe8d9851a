-- ===== src/Jobs/Delete.antt =====
-- gw/jobsched/service.go: DeleteOneTimeJob, DeleteCronJob and the two snapshots. The callbacks that
-- `DeleteOneTimeJob` calls are taken to return.
use gwf.Common.{
  ℕ, suc, String, refl, inl, inr, none, some, List, arith, eq_iff, Bool-cases, Option-cases,
  replicate, Distinct, Dict, keys, is_some, lookup, insert, delete, lookup-insert, lookup-delete,
  is_some-lookup, keys-delete-Distinct, ◌+◌, ◌≡◌, ◌∷◌, ◌++◌, ◌==◌, [], if◌then◌else◌, String_eq,
  ℕ_eq,
}
use gwf.Jobs.{OneTimeJob, CronJob, Scheduler}
use gwf.Jobs.Add.{Call, job_on_deleted, file_job}
use gwf.Jobs.Add.Boxes.{IsValid}

-- The jobs of a list that are not the job of that id.
others : String → List OneTimeJob → List OneTimeJob
others id [] = []
others id (job ∷ jobs) = let rest = others id jobs in if job.id == id then rest else job ∷ rest

-- A minute that has no job left goes.
pub without_job : String → Dict ℕ (List OneTimeJob) → Dict ℕ (List OneTimeJob)
unfolding others
without_job id [] = []
without_job id ((key, jobs) ∷ box) =
    let rest = without_job id box in
    elim (others id jobs) [ [] ↦ rest | job ∷ kept ↦ (key, job ∷ kept) ∷ rest ]

-- How often the job of that id stands in a box.
pub count_job : String → List OneTimeJob → ℕ
count_job id [] = 0
count_job id (job ∷ jobs) = let rest = count_job id jobs in if job.id == id then suc rest else rest

pub all_jobs : Dict ℕ (List OneTimeJob) → List OneTimeJob
all_jobs [] = []
all_jobs ((key, jobs) ∷ box) = jobs ++ all_jobs box

-- result[key] = append(result[key], job), for each job under each minute.
file_list : ℕ → List OneTimeJob → Dict ℕ (List OneTimeJob) → Dict ℕ (List OneTimeJob)
unfolding file_job
file_list key [] result = result
file_list key (job ∷ jobs) result = file_list key jobs (file_job key job result)

file_all : Dict ℕ (List OneTimeJob) → Dict ℕ (List OneTimeJob) → Dict ℕ (List OneTimeJob)
unfolding file_list
file_all [] result = result
file_all ((key, jobs) ∷ box) result = file_all box (file_list key jobs result)

copy_all : Dict String CronJob → Dict String CronJob → Dict String CronJob
copy_all [] result = result
copy_all ((id, job) ∷ box) result = copy_all box (insert id job result)

lookup-copy_all :
    (box result : Dict String CronJob) (id : String)
    → Distinct (keys box)
    → lookup id (copy_all box result)
      ≡ (if is_some (lookup id box) then lookup id box else lookup id result)
unfolding copy_all lookup
lookup-copy_all [] result id d = refl
lookup-copy_all ((k, job) ∷ box) result id d = ground (
  arith,
  lookup-copy_all box (insert k job result) id d.1,
  lookup-insert k id job result,
  eq_iff k id,
  is_some-lookup k box,
)

lookup-snapshot :
    (per_instance per_app : Dict String CronJob) (id : String)
    → Distinct (keys per_instance)
    → Distinct (keys per_app)
    → lookup id (copy_all per_app (copy_all per_instance []))
      ≡ (if is_some (lookup id per_app) then lookup id per_app else lookup id per_instance)
unfolding lookup
lookup-snapshot per_instance per_app id di da = ground (
  arith,
  lookup-copy_all per_app (copy_all per_instance []) id da,
  lookup-copy_all per_instance [] id di,
)

module _ {W : Type 0} where
  pub delete_one_time_job : String → Scheduler W → Scheduler W
  unfolding without_job
  delete_one_time_job id s = record s {
    one_time_jobs_per_instance = without_job id s.one_time_jobs_per_instance;
    one_time_jobs_per_app = without_job id s.one_time_jobs_per_app;
  }

  -- The calls of the service's callback, one for each job removed.
  pub deleted_calls : String → Scheduler W → List Call
  unfolding count_job all_jobs
  deleted_calls id s = elim s.callbacks.on_one_time_job_deleted [
    | none ↦ []
    | some f ↦
        replicate
          (count_job id (all_jobs s.one_time_jobs_per_instance)
            + count_job id (all_jobs s.one_time_jobs_per_app))
          (job_on_deleted id)
  ]

  pub delete_cron_job : String → Scheduler W → Scheduler W
  delete_cron_job id s =
      if is_some (lookup id s.cron_jobs_per_instance)
      then record s { cron_jobs_per_instance = delete id s.cron_jobs_per_instance }
      else if is_some (lookup id s.cron_jobs_per_app)
      then record s { cron_jobs_per_app = delete id s.cron_jobs_per_app }
      else s

  pub get_one_time_jobs : Scheduler W → Dict ℕ (List OneTimeJob)
  unfolding file_all
  get_one_time_jobs s = file_all s.one_time_jobs_per_app (file_all s.one_time_jobs_per_instance [])

  pub get_cron_jobs : Scheduler W → Dict String CronJob
  unfolding copy_all
  get_cron_jobs s = copy_all s.cron_jobs_per_app (copy_all s.cron_jobs_per_instance [])

  -- In a valid scheduler, after the removal of an id the snapshot of the cron jobs is the one
  -- before, less that id: a job is gone whichever box it was in, and every other one is there.
  pub get_cron_jobs-delete_cron_job :
      (id other : String) (s : Scheduler W)
      → IsValid s
      → lookup other (get_cron_jobs (delete_cron_job id s))
        ≡ (if id == other then none else lookup other (get_cron_jobs s))
  unfolding get_cron_jobs delete_cron_job
  get_cron_jobs-delete_cron_job id other s v =
      let di = v.distinct_per_instance in
      let da = v.distinct_per_app in
      let inst = s.cron_jobs_per_instance in
      let app = s.cron_jobs_per_app in
      rw (lookup-snapshot inst app other di da) (elim (Option-cases (lookup id inst)) [
        | inr (job, here) ↦
            rw
              (
                here,
                lookup-snapshot (delete id inst) app other (keys-delete-Distinct id inst di) da,
              )
              (ground (arith, lookup-delete id other inst, eq_iff id other, v.apart id, here))
        | inl absent ↦ elim (Option-cases (lookup id app)) [
          | inr (job, there) ↦
              rw
                (
                  absent,
                  there,
                  lookup-snapshot inst (delete id app) other di (keys-delete-Distinct id app da),
                )
                (ground (arith, lookup-delete id other app, eq_iff id other, absent))
          | inl nowhere ↦
              rw (absent, nowhere, lookup-snapshot inst app other di da)
                (ground (arith, eq_iff id other, absent, nowhere))
        ]
      ])

  pub delete_one_time_job-IsValid :
      (id : String) (s : Scheduler W) → IsValid s → IsValid (delete_one_time_job id s)
  unfolding delete_one_time_job without_job
  delete_one_time_job-IsValid id s v = record {
    distinct_per_instance = v.distinct_per_instance;
    distinct_per_app = v.distinct_per_app;
    apart = v.apart;
    ledger_first = λ h. (rw (v.ledger_first h).0 refl, (v.ledger_first h).1);
  }

  pub delete_cron_job-IsValid :
      (id : String) (s : Scheduler W) → IsValid s → IsValid (delete_cron_job id s)
  unfolding delete_cron_job
  delete_cron_job-IsValid id s v =
      elim (Bool-cases (is_some (lookup id s.cron_jobs_per_instance))) [
        | inl here ↦ rw here (record {
          distinct_per_instance =
              keys-delete-Distinct id s.cron_jobs_per_instance v.distinct_per_instance;
          distinct_per_app = v.distinct_per_app;
          apart = λ other h.
              v.apart other (ground (arith, lookup-delete id other s.cron_jobs_per_instance));
          ledger_first = v.ledger_first;
        })
        | inr absent ↦ rw absent (elim (Bool-cases (is_some (lookup id s.cron_jobs_per_app))) [
          | inl there ↦ rw there (record {
            distinct_per_instance = v.distinct_per_instance;
            distinct_per_app = keys-delete-Distinct id s.cron_jobs_per_app v.distinct_per_app;
            apart = λ other h.
                ground (arith, lookup-delete id other s.cron_jobs_per_app, v.apart other h);
            ledger_first =
                λ h. ((v.ledger_first h).0, unfold delete in rw (v.ledger_first h).1 refl);
          })
          | inr nowhere ↦ rw nowhere v
        ])
      ]
