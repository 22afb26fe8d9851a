-- ===== src/Jobs/Cron.antt =====
-- gw/jobsched/cronjob.go: sets of bits, and when a cron job is due.
pub mod Due
mod Tests
use gwf.Common.{
  ℕ, zero, suc, String, Bool, true, false, not, none, List, ltb, leb, ◌+◌, ◌-◌, ◌*◌, ◌/◌, ◌%◌, ◌≤◌,
  ◌<◌, ◌&&◌, ◌∷◌, ◌==◌, [], if◌then◌else◌, ℕ_eq,
}
use gwf.Common.Int.{ℤ, pos, negsuc}
use gwf.Jobs.{Scope, Outcome, panics, CronJob}

-- What Go's `time.Time` answers about a moment in its location.
pub record Time : Type 0 where
  pub unix_nano : ℕ
  pub minute : ℕ
  pub hour : ℕ
  pub day : ℕ
  pub weekday : ℕ

pub record IsCivil (t : Time) : Type 0 where
  pub minute_range : t.minute < 60
  pub hour_range : t.hour < 24
  pub day_range : (1 ≤ t.day) × (t.day ≤ 31)
  pub weekday_range : t.weekday < 7

-- bits & (1 << v) != 0
pub has_bit : ℕ → ℕ → Bool
has_bit zero bits = bits % 2 == 1
has_bit (suc v) bits = has_bit v (bits / 2)

-- bits | (1 << v)
pub set_bit : ℕ → ℕ → ℕ
set_bit zero bits = bits / 2 * 2 + 1
set_bit (suc v) bits = bits % 2 + 2 * set_bit v (bits / 2)

add_below : ℕ → ℤ → ℕ → ℕ
add_below limit (pos v) bits = if ltb v limit then set_bit v bits else bits
add_below limit (negsuc v) bits = bits

bits_below : ℕ → ℕ → List ℤ → ℕ
unfolding add_below
bits_below limit bits [] = bits
bits_below limit bits (v ∷ list) = bits_below limit (add_below limit v bits) list

pub bits_from_minutes : List ℤ → ℕ
unfolding bits_below
bits_from_minutes list = bits_below 60 0 list

pub bits_from_hours : List ℤ → ℕ
unfolding bits_below
bits_from_hours list = bits_below 24 0 list

pub bits_from_weekdays : List ℤ → ℕ
unfolding bits_below
bits_from_weekdays list = bits_below 7 0 list

-- Day 1 is bit 0.
add_day : ℤ → ℕ → ℕ
add_day (pos v) bits = if leb 1 v && leb v 31 then set_bit (v - 1) bits else bits
add_day (negsuc v) bits = bits

bits_of_days : ℕ → List ℤ → ℕ
unfolding add_day
bits_of_days bits [] = bits
bits_of_days bits (v ∷ list) = bits_of_days (add_day v bits) list

pub bits_from_days_of_month : List ℤ → ℕ
unfolding bits_of_days
bits_from_days_of_month list = bits_of_days 0 list

abbrev pub all_minutes : ℕ
all_minutes = 0xFFFFFFFFFFFFFFF

abbrev pub all_hours : ℕ
all_hours = 0xFFFFFF

abbrev pub all_weekdays : ℕ
all_weekdays = 0b01111111

abbrev pub all_days_of_month : ℕ
all_days_of_month = 0x7FFFFFFF

-- Without a task: to call it is to call nil.
pub new_every_min_empty_cron_job : String → Scope → CronJob
new_every_min_empty_cron_job id scope = record {
  id = id;
  scope = scope;
  minutes = all_minutes;
  hours = all_hours;
  days_of_month = all_days_of_month;
  weekdays = all_weekdays;
  task = panics "nil pointer";
  on_added = none;
  on_finished = none;
}

pub matches : CronJob → Time → Bool
unfolding has_bit
matches job now =
    if not (has_bit now.minute job.minutes)
    then false
    else if not (has_bit now.hour job.hours)
    then false
    else if not (has_bit (now.day - 1) job.days_of_month)
    then false
    else if not (has_bit now.weekday job.weekdays)
    then false
    else true
