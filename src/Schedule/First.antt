-- ===== src/Schedule/First.antt =====
-- The next time of an entry (src/game_control/schedule.py) is the first minute that matches it.
use helios_horizon.Common.{
  ℕ, ◌+◌, ◌-◌, ◌*◌, ◌/◌, ◌%◌, ◌≤◌, ◌<◌, ◌≡◌, sym, ◌∙◌, true, false, none, some, ltb, ltb→lt,
  Option-cases, arith, Bool-cases, inl, inr,
}
use helios_horizon.Schedule.{
  Calendar, ScheduleEntry, Moment, minute_at, matches, try_minute, try_hour, try_day, search_days,
  candidate_of, find_next_fire,
}
use helios_horizon.Schedule.Search.{IsFirst, first_some-none, first_some-IsFirst}
use helios_horizon.Schedule.Days.{
  whole, not_ltb, minute-some, hour-some, day-some, day-no_match, hour-no_match, minute-no_match,
}

module _ (calendar : Calendar) (entry : ScheduleEntry) (lo hi : ℕ) where
  module _ (t : ℕ)
      (days : IsFirst (try_day calendar entry lo hi) (lo / 1440) (hi / 1440 + 1 - lo / 1440) t)
      (hours : IsFirst (try_hour calendar entry lo hi days.index) 0 24 t)
      (minutes : IsFirst (try_minute calendar entry lo hi days.index hours.index) 0 60 t) where
    found_at : minute_at days.index hours.index minutes.index ≡ t
    found_at =
        (minute-some calendar entry lo hi days.index hours.index minutes.index t minutes.hit).0

    found-matches : matches calendar entry (whole t) ≡ true
    unfolding matches
    found-matches =
        let (same, on, low, high) =
          minute-some calendar entry lo hi days.index hours.index minutes.index t minutes.hit in
        rw
          (
            of_minute,
            of_hour,
            of_day,
            on,
            (hour-some calendar entry lo hi days.index hours.index t hours.hit).0,
          )
          (day-some calendar entry lo hi days.index t days.hit).0
      where
        of_minute : t % 60 ≡ minutes.index
        of_minute = omega (arith, found_at, minutes.upper)

        of_hour : t / 60 % 24 ≡ hours.index
        of_hour = omega (arith, found_at, minutes.upper, hours.upper)

        of_day : t / 1440 ≡ days.index
        of_day = omega (arith, found_at, minutes.upper, hours.upper)

    found-first : (t' : ℕ) → lo ≤ t' → t' < t → t ≤ hi → matches calendar entry (whole t') ≡ false
    found-first t' low early high = elim (Bool-cases (ltb (t' / 1440) days.index)) [
      | inl day_before ↦
          day-no_match calendar entry lo hi t'
            (days.before (t' / 1440) (omega arith) (ltb→lt (t' / 1440) days.index day_before)) low
            (omega arith)
      | inr same_day ↦ elim (Bool-cases (ltb (t' / 60 % 24) hours.index)) [
        | inl hour_before ↦
            hour-no_match calendar entry lo hi days.index t' (day_of same_day)
              (hours.before (t' / 60 % 24) (omega arith)
                (ltb→lt (t' / 60 % 24) hours.index hour_before))
              low (omega arith)
        | inr same_hour ↦
            minute-no_match calendar entry lo hi days.index hours.index t' (day_of same_day)
              (hour_of same_day same_hour)
              (minutes.before (t' % 60) (omega arith) (minute_of same_day same_hour)) low
              (omega arith)
      ]
    ]
      where
        day_of : ltb (t' / 1440) days.index ≡ false → t' / 1440 ≡ days.index
        day_of h =
            omega
              (arith, found_at, not_ltb (t' / 1440) days.index h, minutes.upper, hours.upper, early)

        hour_of :
            ltb (t' / 1440) days.index ≡ false
            → ltb (t' / 60 % 24) hours.index ≡ false
            → t' / 60 % 24 ≡ hours.index
        hour_of h k =
            omega (
              arith,
              found_at,
              day_of h,
              not_ltb (t' / 60 % 24) hours.index k,
              minutes.upper,
              early,
            )

        minute_of :
            ltb (t' / 1440) days.index ≡ false
            → ltb (t' / 60 % 24) hours.index ≡ false
            → t' % 60 < minutes.index
        minute_of h k = omega (arith, found_at, day_of h, hour_of h k, early)

-- The day, the hour and the minute of what the search returns
module _ (calendar : Calendar) (entry : ScheduleEntry) (lo hi t : ℕ) where
  search-first :
      search_days calendar entry lo hi ≡ some t
      → (matches calendar entry (whole t) ≡ true)
        × (lo ≤ t)
        × (t ≤ hi)
        × ((t' : ℕ) → lo ≤ t' → t' < t → matches calendar entry (whole t') ≡ false)
  unfolding search_days
  search-first found =
      let days =
        first_some-IsFirst (try_day calendar entry lo hi) (hi / 1440 + 1 - lo / 1440) (lo / 1440) t
          found in
      let hours =
        first_some-IsFirst (try_hour calendar entry lo hi days.index) 24 0 t
          (day-some calendar entry lo hi days.index t days.hit).1 in
      let minutes =
        first_some-IsFirst (try_minute calendar entry lo hi days.index hours.index) 60 0 t
          (hour-some calendar entry lo hi days.index hours.index t hours.hit).1 in
      let (same, on, low, high) =
        minute-some calendar entry lo hi days.index hours.index minutes.index t minutes.hit in
      (
        found-matches calendar entry lo hi t days hours minutes,
        low,
        high,
        λ t' from early. found-first calendar entry lo hi t days hours minutes t' from early high,
      )

-- What the search for the next time within a number of days gives is the first minute that matches
-- the entry, at or after the moment, rounded up to a whole minute; it is at most those days later.
pub find_next_fire-first :
    (calendar : Calendar) (entry : ScheduleEntry) (now : Moment) (days t : ℕ)
    → find_next_fire calendar entry now days ≡ some t
    → (matches calendar entry (whole t) ≡ true)
      × (candidate_of calendar entry now ≤ t)
      × (t ≤ candidate_of calendar entry now + days * 1440)
      × ((t' : ℕ)
          → candidate_of calendar entry now ≤ t'
          → t' < t
          → matches calendar entry (whole t') ≡ false)
unfolding find_next_fire
find_next_fire-first calendar entry now days t found =
    search-first calendar entry (candidate_of calendar entry now)
      (candidate_of calendar entry now + days * 1440) t found

-- If a minute from the moment on, rounded up to a whole minute, and at most a number of days later
-- matches the entry, then the search within those days ends with a time.
pub find_next_fire-finds :
    (calendar : Calendar) (entry : ScheduleEntry) (now : Moment) (days t : ℕ)
    → matches calendar entry (whole t) ≡ true
    → candidate_of calendar entry now ≤ t
    → t ≤ candidate_of calendar entry now + days * 1440
    → (r : ℕ) × (find_next_fire calendar entry now days ≡ some r)
unfolding find_next_fire search_days
find_next_fire-finds calendar entry now days t on low high =
    elim (Option-cases (find_next_fire calendar entry now days)) [
      | inl missed ↦ (let both = contrary missed in cc)
      | inr found ↦ found
    ]
  where
    lo : ℕ
    lo = candidate_of calendar entry now

    contrary : find_next_fire calendar entry now days ≡ none → true ≡ false
    contrary missed =
        (sym on
          ∙ day-no_match calendar entry lo (lo + days * 1440) t
              (first_some-none (try_day calendar entry lo (lo + days * 1440))
                ((lo + days * 1440) / 1440 + 1 - lo / 1440) (lo / 1440) missed (t / 1440)
                (omega arith) (omega arith))
              low high)
