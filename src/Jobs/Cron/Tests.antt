-- ===== src/Jobs/Cron/Tests.antt =====
-- Noon of a Monday.
use gwf.Common.{refl, true, arith, ◌≡◌, ◌∷◌, []}
use gwf.Common.Int.{pos, negsuc}
use gwf.Jobs.{once_per_app}
use gwf.Jobs.Cron.{
  Time, IsCivil, bits_from_minutes, bits_from_hours, bits_from_weekdays, bits_from_days_of_month,
  bits_below, add_below, set_bit, new_every_min_empty_cron_job, matches,
}
use gwf.Jobs.Cron.Due.{matches_lem}

abbrev noon : Time
noon = record { unix_nano = 43200000000000; minute = 0; hour = 12; day = 31; weekday = 1 }

abbrev noon-IsCivil : IsCivil noon
noon-IsCivil = record {
  minute_range = omega arith;
  hour_range = omega arith;
  day_range = (omega arith, omega arith);
  weekday_range = omega arith;
}

bits_example : bits_from_weekdays (pos 1 ∷ pos 5 ∷ pos 9 ∷ negsuc 0 ∷ []) ≡ 34
unfolding bits_from_weekdays bits_below add_below set_bit
bits_example = refl

matches_lem_example :
    matches
      (record (new_every_min_empty_cron_job "noon" once_per_app) {
        minutes = bits_from_minutes (pos 0 ∷ []);
        hours = bits_from_hours (pos 12 ∷ []);
        days_of_month = bits_from_days_of_month (pos 31 ∷ []);
        weekdays = bits_from_weekdays (pos 1 ∷ []);
      })
      noon
    ≡ true
matches_lem_example =
    matches_lem (new_every_min_empty_cron_job "noon" once_per_app) (pos 0 ∷ []) (pos 12 ∷ [])
      (pos 31 ∷ []) (pos 1 ∷ []) noon noon-IsCivil
