-- ===== src/Schedule/Examples.antt =====
-- An entry at 04:30 of every day, in a calendar of one month.
use helios_horizon.Common.{ℕ, ◌+◌, ◌*◌, ◌%◌, ◌≤◌, ◌<◌, ◌≡◌, refl, true, false, some, ◌==◌, arith}
use helios_horizon.Schedule.{
  Calendar, ScheduleEntry, Moment, matches_day, matches, first_some, try_minute, try_hour, try_day,
  search_days, candidate_of, find_next_fire,
}
use helios_horizon.Schedule.Days.{whole}
use helios_horizon.Schedule.First.{find_next_fire-first, find_next_fire-finds}

abbrev one_month : Calendar
one_month = record { month_of = λ d. 1; day_of = λ d. d % 31 + 1; weekday_of = λ d. d % 7 }

abbrev nightly : ScheduleEntry
nightly = record {
  enabled = true;
  minute = λ m. m == 30;
  hour = λ h. h == 4;
  day = λ d. true;
  month = λ m. true;
  weekday = λ w. true;
}

-- Day 2, at 05:00 and some seconds
abbrev early_morning : Moment
early_morning = record { minutes = 3180; has_seconds = true }

find_next_fire-first_example :
    (matches one_month nightly (whole 4590) ≡ true)
    × (candidate_of one_month nightly early_morning ≤ 4590)
    × (4590 ≤ candidate_of one_month nightly early_morning + 3 * 1440)
    × ((t' : ℕ)
        → candidate_of one_month nightly early_morning ≤ t'
        → t' < 4590
        → matches one_month nightly (whole t') ≡ false)
unfolding find_next_fire search_days first_some try_day try_hour try_minute matches_day
find_next_fire-first_example = find_next_fire-first one_month nightly early_morning 3 4590 refl

find_next_fire-finds_example : (r : ℕ) × (find_next_fire one_month nightly early_morning 3 ≡ some r)
unfolding matches matches_day
find_next_fire-finds_example =
    find_next_fire-finds one_month nightly early_morning 3 4590 refl (omega arith) (omega arith)
