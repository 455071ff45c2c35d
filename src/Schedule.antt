-- ===== src/Schedule.antt =====
-- src/game_control/schedule.py: when the entries of a schedule are due. A time is a number of
-- whole minutes from the midnight of day 0, and the calendar of `datetime` is a parameter.
use helios_horizon.Common.{
  ℕ, zero, suc, ◌+◌, ◌-◌, ◌*◌, ◌/◌, ◌%◌, Bool, true, false, ◌&&◌, Option, none, some, List, [], ◌∷◌,
  ◌==◌, leb, if◌then◌else◌,
}
pub mod Search
pub mod Days
pub mod First
pub mod Once
mod Examples

-- `date.month`, `date.day` and `date.weekday()` of the day of a number
pub record Calendar : Type 0 where
  pub month_of : ℕ → ℕ
  pub day_of : ℕ → ℕ
  pub weekday_of : ℕ → ℕ

-- ScheduleEntry, each field the membership in its `_CronField.values`, which lie within 0-59,
-- 0-23, 1-31, 1-12 and 0-6.
pub record ScheduleEntry : Type 0 where
  pub enabled : Bool
  pub minute : ℕ → Bool
  pub hour : ℕ → Bool
  pub day : ℕ → Bool
  pub month : ℕ → Bool
  pub weekday : ℕ → Bool

-- A datetime, up to its seconds and microseconds, and whether these are not zero
pub record Moment : Type 0 where
  pub minutes : ℕ
  pub has_seconds : Bool

abbrev pub minute_at : ℕ → ℕ → ℕ → ℕ
minute_at day hour minute = day * 1440 + hour * 60 + minute

abbrev pub found_or : Option ℕ → Option ℕ → Option ℕ
found_or (some r) rest = some r
found_or none rest = rest

-- `for i in range(start, start + n)` with a return
unfoldable pub first_some : (ℕ → Option ℕ) → ℕ → ℕ → Option ℕ
first_some f start zero = none
first_some f start (suc n) = found_or (f start) (first_some f (start + 1) n)

module _ (calendar : Calendar) (entry : ScheduleEntry) where
  unfoldable pub matches_day : ℕ → Bool
  matches_day d =
      entry.month (calendar.month_of d)
      && entry.day (calendar.day_of d)
      && entry.weekday ((calendar.weekday_of d + 1) % 7)

  -- `ScheduleEntry.matches`
  unfoldable pub matches : Moment → Bool
  matches now =
      entry.minute (now.minutes % 60)
      && entry.hour (now.minutes / 60 % 24)
      && matches_day (now.minutes / 1440)

  module _ (candidate endpoint : ℕ) where
    unfoldable pub try_minute : ℕ → ℕ → ℕ → Option ℕ
    try_minute d h m =
        if entry.minute m && (leb candidate (minute_at d h m) && leb (minute_at d h m) endpoint)
        then some (minute_at d h m)
        else none

    unfoldable pub try_hour : ℕ → ℕ → Option ℕ
    try_hour d h = if entry.hour h then first_some (try_minute d h) 0 60 else none

    unfoldable pub try_day : ℕ → Option ℕ
    try_day d = if matches_day d then first_some (try_hour d) 0 24 else none

    -- The days from the candidate's, while their midnight is not after the endpoint
    unfoldable pub search_days : Option ℕ
    search_days = first_some try_day (candidate / 1440) (endpoint / 1440 + 1 - candidate / 1440)

  abbrev pub candidate_of : Moment → ℕ
  candidate_of now = if now.has_seconds then now.minutes + 1 else now.minutes

  -- `_find_next_fire`, where none is a ValueError
  unfoldable pub find_next_fire : Moment → ℕ → Option ℕ
  find_next_fire now days = search_days (candidate_of now) (candidate_of now + days * 1440)

  -- `ScheduleEntry.next_fire`: None, or what `_find_next_fire` gives
  abbrev pub next_fire : Moment → Option (Option ℕ)
  next_fire now = if entry.enabled then some (find_next_fire now (366 * 4)) else none

-- ScheduleBook
pub record ScheduleBook : Type 0 where
  pub entries : List ScheduleEntry
  pub last_minute : Option ℕ

module _ (calendar : Calendar) where
  abbrev pub is_due : Moment → ScheduleEntry → Bool
  is_due now entry = entry.enabled && matches calendar entry now

  abbrev pub due_of : Moment → List ScheduleEntry → List ScheduleEntry
  due_of now [] = []
  due_of now (entry ∷ entries) =
      let rest = due_of now entries in if is_due now entry then entry ∷ rest else rest

  abbrev pub is_last : ℕ → Option ℕ → Bool
  is_last key none = false
  is_last key (some last) = key == last

  -- `ScheduleBook.due`, whose key is the minute of the datetime
  unfoldable pub due : Moment → ScheduleBook → List ScheduleEntry × ScheduleBook
  due now book =
      if is_last now.minutes book.last_minute
      then ([], book)
      else (due_of now book.entries, record book { last_minute = some now.minutes })
