-- ===== src/Jobs/Add/Filed.antt =====
-- A one-time job is filed under the first minute that does not start before it.
use gwf.Common.{
  ℕ, inl, inr, List, arith, ltb, Bool-cases, ok, Dict, insert, lookup-insert, ◌+◌, ◌*◌, ◌/◌, ◌≤◌,
  ◌<◌, ◌≡◌, ◌∷◌, ◌++◌, ◌==◌, [], if◌then◌else◌, ℕ_eq,
}
use gwf.Jobs.{OneTimeJob}
use gwf.Jobs.Add.{minute, margin, minute_key, get_list, file_job, store_one_time_job}

-- Rounding up to whole minutes.
pub minute_key_range : (t : ℕ) → (t ≤ minute_key t * minute) × (minute_key t * minute < t + minute)
unfolding minute_key
minute_key_range t = ground arith

get_list-insert :
    (key k : ℕ) (jobs : List OneTimeJob) (box : Dict ℕ (List OneTimeJob))
    → get_list k (insert key jobs box) ≡ (if key == k then jobs else get_list k box)
get_list-insert key k jobs box = ground (arith, lookup-insert key k jobs box)

-- A one-time job that is accepted is filed at the end of the list of one minute, which starts at
-- the job's moment or less than a minute after it and later than the present minute; the other
-- minutes keep their lists. One whose moment is less than the margin ahead is refused.
pub store_one_time_job_lem :
    (now : ℕ) (job : OneTimeJob) (into box : Dict ℕ (List OneTimeJob)) (k : ℕ)
    → store_one_time_job now job into ≡ ok box
    → let key = minute_key job.exec_time in
      (now + margin ≤ job.exec_time)
      × (job.exec_time ≤ key * minute)
      × (key * minute < job.exec_time + minute)
      × (now / minute < key)
      × (get_list k box ≡ (if key == k then get_list key into ++ job ∷ [] else get_list k into))
unfolding store_one_time_job file_job
store_one_time_job_lem now job into box k h =
    let (above, below) = minute_key_range job.exec_time in
    elim (Bool-cases (ltb job.exec_time (now + margin))) [
      | inl soon ↦ absurd (ground (arith, h, soon))
      | inr late ↦
          let notice : now + margin ≤ job.exec_time = ground arith in
          let made : file_job (minute_key job.exec_time) job into ≡ box = ground (arith, h, late) in
          (
            notice,
            above,
            below,
            omega arith,
            rw⁻¹ made (get_list-insert (minute_key job.exec_time) k _ into),
          )
    ]
