-- ===== src/Jobs/Tick/Taken.antt =====
-- A tick takes the one-time jobs of its own minute, once.
use gwf.Common.{
  ℕ, String, refl, ap, Bool, true, false, Option, none, some, List, map, arith, Result, ok, err,
  Dict, delete, lookup-delete, ◌+◌, ◌*◌, ◌/◌, ◌%◌, ◌≤◌, ◌<◌, ◌≡◌, ◌∙◌, ◌∷◌, ◌++◌, ◌==◌, [],
  if◌then◌else◌, ℕ_eq,
}
use gwf.Jobs.{OneTimeJob, CronJob, Ledger, Scheduler}
use gwf.Jobs.Cron.{Time, matches}
use gwf.Jobs.Add.{get_list}
use gwf.Jobs.Add.Boxes.{IsValid}
use native.Mathlib.Nat.{div-add-mod', mod-lt}
use gwf.Jobs.Tick.{
  Started, one_time, cron, run_cron_jobs_per_instance, run_cron_jobs_per_app, planned_minute,
  claim_each, won, due, claim_with, run_one_time_jobs_per_instance, run_one_time_jobs_per_app, tick,
}

get_list-delete :
    (key k : ℕ) (box : Dict ℕ (List OneTimeJob))
    → get_list k (delete key box) ≡ (if key == k then [] else get_list k box)
get_list-delete key k box = ground (arith, lookup-delete key k box)

-- The jobs of a list that stand at the places of the answers that are yes.
abbrev pub picked {ℓ} : {A : Type ℓ} → List (Result String Bool) → List A → List A
picked [] jobs = []
picked (a ∷ answers) [] = []
picked (ok true ∷ answers) (x ∷ xs) = x ∷ picked answers xs
picked (_ ∷ answers) (x ∷ xs) = picked answers xs

-- The jobs for which a test holds.
abbrev pub those {ℓ} : {A : Type ℓ} → (A → Bool) → List A → List A
those test [] = []
those test (x ∷ xs) = if test x then x ∷ those test xs else those test xs

abbrev pub jobs_of : Dict String CronJob → List CronJob
jobs_of [] = []
jobs_of ((id, job) ∷ box) = job ∷ jobs_of box

due-those :
    (now : Time) (box : Dict String CronJob)
    → due now box ≡ those (λ job. matches job now) (jobs_of box)
unfolding due
due-those now [] = refl
due-those now ((id, job) ∷ box) = rw (due-those now box) refl

planned_minute_lem :
    (now : Time) (minute : ℕ)
    → minute * 60000000000 ≤ now.unix_nano
    → now.unix_nano < minute * 60000000000 + 60000000000
    → planned_minute now ≡ minute
unfolding planned_minute
planned_minute_lem now minute from to =
    let a : now.unix_nano % 1000000000 < 1000000000 = mod-lt now.unix_nano (omega arith) in
    let b : now.unix_nano / 1000000000 % 60 < 60 =
      mod-lt (now.unix_nano / 1000000000) (omega arith) in
    omega (
      arith,
      a,
      b,
      div-add-mod' now.unix_nano 1000000000,
      div-add-mod' (now.unix_nano / 1000000000) 60,
    )

one_claim :
    {A W : Type 0} (r : Result String Bool) (job : A) (jobs : List A) (rest : List A × W)
    (said : List (Result String Bool)) (w : W)
    → (rest.0 ≡ picked said jobs) × (rest.1 ≡ w)
    → let out = if won r then (job ∷ rest.0, rest.1) else rest in
      (out.0 ≡ picked (r ∷ said) (job ∷ jobs)) × (out.1 ≡ w)
unfolding won
one_claim (ok true) job jobs rest said w (h, k) = (ap (λ xs. job ∷ xs) h, k)
one_claim (ok false) job jobs rest said w h = h
one_claim (err m) job jobs rest said w h = h

module _ {W : Type 0} where
  -- What a ledger answers to one claim after the other; without a ledger no claim is made.
  abbrev pub answers : Option (Ledger W) → ℕ → List String → W → List (Result String Bool) × W
  answers none minute ids w = ([], w)
  answers (some ledger) minute [] w = ([], w)
  answers (some ledger) minute (id ∷ ids) w =
      let r = ledger id minute w in
      let rest = answers (some ledger) minute ids r.1 in (r.0 ∷ rest.0, rest.1)

  claim_each-picked :
      {A : Type 0} (id : A → String) (ledger : Ledger W) (minute : ℕ) (jobs : List A) (w : W)
      → let r = claim_each id ledger minute jobs w in
        let a = answers (some ledger) minute (map id jobs) w in
        (r.0 ≡ picked a.0 jobs) × (r.1 ≡ a.1)
  unfolding claim_each won
  claim_each-picked id ledger minute [] w = (refl, refl)
  claim_each-picked id ledger minute (job ∷ jobs) w =
      let r = ledger (id job) minute w in
      let a = answers (some ledger) minute (map id jobs) r.1 in
      one_claim r.0 job jobs (claim_each id ledger minute jobs r.1) a.0 a.1
        (claim_each-picked id ledger minute jobs r.1)

  claim_with-picked :
      {A : Type 0} (o : Option (Ledger W)) (id : A → String) (minute : ℕ) (jobs : List A) (w : W)
      → let r = claim_with o id minute jobs w in
        let a = answers o minute (map id jobs) w in (r.0 ≡ picked a.0 jobs) × (r.1 ≡ a.1)
  unfolding claim_with
  claim_with-picked none id minute jobs w = (refl, refl)
  claim_with-picked (some ledger) id minute jobs w = claim_each-picked id ledger minute jobs w

  -- What a tick in a given minute starts: the one-time jobs filed under the minute and the cron jobs
  -- that match, and, of those of the app's scope, the ones whose claim of the minute is won.
  abbrev pub started_in : ℕ → Time → Scheduler W → W → List Started
  started_in minute now s w =
      let filed = get_list minute s.one_time_jobs_per_app in
      let matching = those (λ job. matches job now) (jobs_of s.cron_jobs_per_app) in
      let first = answers s.ledger minute (map (λ job. job.id) filed) w in
      let second = answers s.ledger minute (map (λ job. job.id) matching) first.1 in
      map one_time (get_list minute s.one_time_jobs_per_instance)
      ++ map cron (those (λ job. matches job now) (jobs_of s.cron_jobs_per_instance))
      ++ map one_time (picked first.0 filed)
      ++ map cron (picked second.0 matching)

  tick_starts :
      (now : Time) (s : Scheduler W) (w : W)
      → (tick now s w).0 ≡ started_in (planned_minute now) now s w
  unfolding tick run_one_time_jobs_per_instance run_one_time_jobs_per_app run_cron_jobs_per_instance
      run_cron_jobs_per_app
  tick_starts now s w =
      let minute = planned_minute now in
      let (a, a') =
        claim_with-picked s.ledger (λ job. job.id) minute (get_list minute s.one_time_jobs_per_app)
          w in
      let after =
        answers s.ledger minute (map (λ job. job.id) (get_list minute s.one_time_jobs_per_app)) w in
      let (b, _) =
        claim_with-picked s.ledger (λ job. job.id) minute (due now s.cron_jobs_per_app) after.1 in
      rw (a', a, b, due-those now s.cron_jobs_per_instance, due-those now s.cron_jobs_per_app) refl

  -- A tick at a moment of a given minute since the epoch starts the per-instance one-time jobs filed under that
  -- minute and the per-instance cron jobs that match, and of those of the app's scope each one whose
  -- claim of the minute the ledger answers with a win, where the claims are made in turn; without a
  -- ledger it starts none of these. It takes the one-time jobs of its minute out of both boxes,
  -- whether they were run or not, and leaves those of every other minute, the cron jobs and the
  -- ledger as they are.
  pub tick_takes :
      (now : Time) (minute : ℕ) (s : Scheduler W) (w : W) (k : ℕ)
      → minute * 60000000000 ≤ now.unix_nano
      → now.unix_nano < minute * 60000000000 + 60000000000
      → let s' = (tick now s w).1 in
        ((tick now s w).0 ≡ started_in minute now s w)
        × (get_list k s'.one_time_jobs_per_instance
            ≡ (if minute == k then [] else get_list k s.one_time_jobs_per_instance))
        × (get_list k s'.one_time_jobs_per_app
            ≡ (if minute == k then [] else get_list k s.one_time_jobs_per_app))
        × (s'.cron_jobs_per_instance ≡ s.cron_jobs_per_instance)
        × (s'.cron_jobs_per_app ≡ s.cron_jobs_per_app)
        × (s'.ledger ≡ s.ledger)
  unfolding tick run_one_time_jobs_per_instance run_one_time_jobs_per_app
  tick_takes now minute s w k from to =
      let same = planned_minute_lem now minute from to in
      (
        tick_starts now s w ∙ ap (λ m. started_in m now s w) same,
        get_list-delete (planned_minute now) k s.one_time_jobs_per_instance ∙ rw same refl,
        get_list-delete (planned_minute now) k s.one_time_jobs_per_app ∙ rw same refl,
        refl,
        refl,
        refl,
      )

  pub tick-IsValid : (now : Time) (s : Scheduler W) (w : W) → IsValid s → IsValid (tick now s w).1
  unfolding tick run_one_time_jobs_per_instance run_one_time_jobs_per_app
  tick-IsValid now s w v = record {
    distinct_per_instance = v.distinct_per_instance;
    distinct_per_app = v.distinct_per_app;
    apart = v.apart;
    ledger_first = λ h. (unfold delete in rw (v.ledger_first h).0 refl, (v.ledger_first h).1);
  }
