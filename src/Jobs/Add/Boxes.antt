-- ===== src/Jobs/Add/Boxes.antt =====
-- A cron job's id is in one box once, and a job waits on the ledger only where there is one.
use gwf.Common.{
  ℕ, String, refl, inl, inr, true, false, Option, none, some, List, arith, eq_iff, Bool-cases,
  Option-cases, Result, ok, err, Distinct, Dict, keys, is_some, lookup, insert, lookup-insert,
  keys-insert-Distinct, keys-insert-Distinct, ◌≡◌, ◌≢◌, [], String_eq, ℕ_eq,
}
use gwf.Jobs.{is_undeclared, OneTimeJob, CronJob, Ledger, Provider, Scheduler, JobError}
use gwf.Jobs.Add.{
  Call, refused, kept_ledger, ask_provider, resolve_ledger, resolve_from, announced, notify_added,
  store_one_time_job, is_shared, add_one_time_job_per_instance,
  add_one_time_job_per_app_in_cross_proc_mode, file_per_app, add_one_time_job, store_cron_job,
  add_cron_job_per_instance, file_cron_per_app, add_cron_job_per_app_in_cross_proc_mode,
  add_cron_job,
}

-- The cron jobs' ids differ, within a box and across the two; and while no ledger is resolved, no
-- job of either kind is in a box of the app's.
pub record IsValid {W : Type 0} (s : Scheduler W) : Type 0 where
  pub distinct_per_instance : Distinct (keys s.cron_jobs_per_instance)
  pub distinct_per_app : Distinct (keys s.cron_jobs_per_app)
  pub apart :
      (id : String)
      → is_some (lookup id s.cron_jobs_per_instance) ≡ true
      → is_some (lookup id s.cron_jobs_per_app) ≡ false
  pub ledger_first : s.ledger ≡ none → (s.one_time_jobs_per_app ≡ []) × (s.cron_jobs_per_app ≡ [])

module _ {W : Type 0} where
  -- What a resolution leaves: a valid scheduler, with a ledger where it has succeeded.
  abbrev Resolved : Scheduler W × W × Option JobError → Type 0
  Resolved r = IsValid r.0 × (r.2 ≡ none → r.0.ledger ≢ none)

  kept_ledger-Resolved :
      (s : Scheduler W) (a : Result String (Option (Ledger W))) (w : W)
      → IsValid s
      → let k = kept_ledger s a in Resolved (k.0, w, k.1)
  unfolding kept_ledger
  kept_ledger-Resolved s (err m) w v = (v, λ h. cc)
  kept_ledger-Resolved s (ok none) w v = (v, λ h. cc)
  kept_ledger-Resolved s (ok (some l)) w v = (
    record {
      distinct_per_instance = v.distinct_per_instance;
      distinct_per_app = v.distinct_per_app;
      apart = v.apart;
      ledger_first = λ h. cc;
    },
    λ _ h. cc,
  )

  ask_provider-Resolved :
      (p : Option (Provider W)) (s : Scheduler W) (w : W)
      → IsValid s
      → Resolved (ask_provider p s w)
  unfolding ask_provider
  ask_provider-Resolved none s w v = (v, λ h. cc)
  ask_provider-Resolved (some p) s w v = kept_ledger-Resolved s (p w).0 (p w).1 v

  resolve_from-Resolved :
      (l : Option (Ledger W)) (s : Scheduler W) (w : W)
      → s.ledger ≡ l
      → IsValid s
      → Resolved (resolve_from l s w)
  unfolding resolve_from
  resolve_from-Resolved none s w e v = ask_provider-Resolved s.provider s w v
  resolve_from-Resolved (some l) s w e v = (v, λ _ h. cc)

  pub resolve_ledger-Resolved :
      (s : Scheduler W) (w : W) → IsValid s → Resolved (resolve_ledger s w)
  unfolding resolve_ledger
  resolve_ledger-Resolved s w v = resolve_from-Resolved s.ledger s w refl v

  announced-IsValid :
      {E : Type 0} (r : Result JobError E) (put : E → Scheduler W)
      (calls : List Call × Option JobError) (s : Scheduler W) (w : W)
      → IsValid s
      → ((box : E) → r ≡ ok box → IsValid (put box))
      → IsValid (announced r put calls s w).scheduler
  unfolding announced refused
  announced-IsValid (err e) put calls s w v step = v
  announced-IsValid (ok box) put calls s w v step = step box refl

  store_cron_job-ok :
      (job : CronJob) (s : Scheduler W) (into box : Dict String CronJob)
      → store_cron_job job s into ≡ ok box
      → (lookup job.id s.cron_jobs_per_instance ≡ none)
        × (lookup job.id s.cron_jobs_per_app ≡ none)
        × (box ≡ insert job.id job into)
  unfolding store_cron_job
  store_cron_job-ok job s into box h =
      elim (Option-cases (lookup job.id s.cron_jobs_per_instance)) [
        | inr (x, old) ↦ absurd (ground (arith, h, old))
        | inl new ↦ elim (Option-cases (lookup job.id s.cron_jobs_per_app)) [
          | inr (x, old) ↦ absurd (ground (arith, h, new, old))
          | inl new' ↦ (new, new', ground (arith, h, new, new'))
        ]
      ]

  per_instance-IsValid :
      (job : CronJob) (s : Scheduler W) (box : Dict String CronJob)
      → IsValid s
      → store_cron_job job s s.cron_jobs_per_instance ≡ ok box
      → IsValid (record s { cron_jobs_per_instance = box })
  per_instance-IsValid job s box v h =
      let (new, new_app, made) = store_cron_job-ok job s _ box h in
      record {
        distinct_per_instance =
            rw made
              (keys-insert-Distinct job.id job s.cron_jobs_per_instance v.distinct_per_instance);
        distinct_per_app = v.distinct_per_app;
        apart = λ id.
            rw (made, lookup-insert job.id id job s.cron_jobs_per_instance)
              (λ there. ground (arith, v.apart id, eq_iff job.id id, new_app));
        ledger_first = v.ledger_first;
      }

  per_app-IsValid :
      (job : CronJob) (s : Scheduler W) (box : Dict String CronJob)
      → IsValid s
      → s.ledger ≢ none
      → store_cron_job job s s.cron_jobs_per_app ≡ ok box
      → IsValid (record s { cron_jobs_per_app = box })
  per_app-IsValid job s box v known h =
      let (new, new_app, made) = store_cron_job-ok job s _ box h in
      record {
        distinct_per_instance = v.distinct_per_instance;
        distinct_per_app =
            rw made (keys-insert-Distinct job.id job s.cron_jobs_per_app v.distinct_per_app);
        apart = λ id there.
            rw (made, lookup-insert job.id id job s.cron_jobs_per_app)
              (ground (arith, v.apart id there, eq_iff job.id id, new));
        ledger_first = λ unknown. absurd (known unknown);
      }

  file_per_app-IsValid :
      (e : Option JobError) (now : ℕ) (job : OneTimeJob) (s : Scheduler W) (w : W)
      → IsValid s
      → (e ≡ none → s.ledger ≢ none)
      → IsValid (file_per_app e now job s w).scheduler
  unfolding file_per_app refused
  file_per_app-IsValid (some e) now job s w v known = v
  file_per_app-IsValid none now job s w v known =
      announced-IsValid (store_one_time_job now job s.one_time_jobs_per_app)
        (λ box. record s { one_time_jobs_per_app = box })
        (notify_added job.on_added s.callbacks.on_one_time_job_added job.id) s w v
        (λ box _. record {
          distinct_per_instance = v.distinct_per_instance;
          distinct_per_app = v.distinct_per_app;
          apart = v.apart;
          ledger_first = λ unknown. absurd (known refl unknown);
        })

  file_cron_per_app-IsValid :
      (e : Option JobError) (job : CronJob) (s : Scheduler W) (w : W)
      → IsValid s
      → (e ≡ none → s.ledger ≢ none)
      → IsValid (file_cron_per_app e job s w).scheduler
  unfolding file_cron_per_app refused
  file_cron_per_app-IsValid (some e) job s w v known = v
  file_cron_per_app-IsValid none job s w v known =
      announced-IsValid (store_cron_job job s s.cron_jobs_per_app)
        (λ box. record s { cron_jobs_per_app = box })
        (notify_added job.on_added s.callbacks.on_cron_job_added job.id) s w v
        (λ box. per_app-IsValid job s box v (known refl))

  pub add_one_time_job-IsValid :
      (now : ℕ) (job : OneTimeJob) (s : Scheduler W) (w : W)
      → IsValid s
      → IsValid (add_one_time_job now job s w).scheduler
  unfolding add_one_time_job add_one_time_job_per_instance
      add_one_time_job_per_app_in_cross_proc_mode refused
  add_one_time_job-IsValid now job s w v = elim (Bool-cases (is_undeclared job.scope)) [
    | inl none_said ↦ rw none_said v
    | inr said ↦ rw said (elim (Bool-cases (is_shared s.coord_mode job.scope)) [
      | inl shared ↦ rw shared (
          let (v', known) = resolve_ledger-Resolved s w v in
          file_per_app-IsValid _ now job _ _ v' known)
      | inr own ↦ rw own (
          announced-IsValid (store_one_time_job now job s.one_time_jobs_per_instance)
            (λ box. record s { one_time_jobs_per_instance = box })
            (notify_added job.on_added s.callbacks.on_one_time_job_added job.id) s w v
            (λ box _. record {
              distinct_per_instance = v.distinct_per_instance;
              distinct_per_app = v.distinct_per_app;
              apart = v.apart;
              ledger_first = v.ledger_first;
            }))
    ])
  ]

  pub add_cron_job-IsValid :
      (job : CronJob) (s : Scheduler W) (w : W)
      → IsValid s
      → IsValid (add_cron_job job s w).scheduler
  unfolding add_cron_job add_cron_job_per_instance add_cron_job_per_app_in_cross_proc_mode refused
  add_cron_job-IsValid job s w v = elim (Bool-cases (is_undeclared job.scope)) [
    | inl none_said ↦ rw none_said v
    | inr said ↦ rw said (elim (Bool-cases (is_shared s.coord_mode job.scope)) [
      | inl shared ↦ rw shared (
          let (v', known) = resolve_ledger-Resolved s w v in
          file_cron_per_app-IsValid _ job _ _ v' known)
      | inr own ↦ rw own (
          announced-IsValid (store_cron_job job s s.cron_jobs_per_instance)
            (λ box. record s { cron_jobs_per_instance = box })
            (notify_added job.on_added s.callbacks.on_cron_job_added job.id) s w v
            (λ box. per_instance-IsValid job s box v))
    ])
  ]
