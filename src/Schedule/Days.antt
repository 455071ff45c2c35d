-- ===== src/Schedule/Days.antt =====
-- Where the search of src/game_control/schedule.py finds no time, no minute matches the entry.
use helios_horizon.Common.{
  ℕ, ◌/◌, ◌%◌, ◌≤◌, ◌<◌, ◌≡◌, refl, true, false, ◌&&◌, none, some, ltb, arith, Bool-cases, inl, inr,
}
use helios_horizon.Schedule.{
  Calendar, ScheduleEntry, Moment, minute_at, first_some, matches_day, matches, try_minute,
  try_hour, try_day,
}
use helios_horizon.Schedule.Search.{first_some-none}

abbrev pub whole : ℕ → Moment
whole t = record { minutes = t; has_seconds = false }

pub not_ltb : (a b : ℕ) → ltb a b ≡ false → b ≤ a
not_ltb a b h = ground arith

module _ (calendar : Calendar) (entry : ScheduleEntry) (lo hi : ℕ) where
  minute-none :
      (d h m : ℕ)
      → try_minute calendar entry lo hi d h m ≡ none
      → lo ≤ minute_at d h m
      → minute_at d h m ≤ hi
      → entry.minute m ≡ false
  unfolding try_minute
  minute-none d h m none_there low high = ground arith

  pub minute-some :
      (d h m t : ℕ)
      → try_minute calendar entry lo hi d h m ≡ some t
      → (minute_at d h m ≡ t) × (entry.minute m ≡ true) × (lo ≤ t) × (t ≤ hi)
  unfolding try_minute
  minute-some d h m t found = ground arith

  hour-none :
      (d h m : ℕ)
      → try_hour calendar entry lo hi d h ≡ none
      → m < 60
      → lo ≤ minute_at d h m
      → minute_at d h m ≤ hi
      → entry.hour h && entry.minute m ≡ false
  unfolding try_hour
  hour-none d h m none_there small low high = elim (Bool-cases (entry.hour h)) [
    | inl on ↦ rw on (
        minute-none d h m
          (first_some-none (try_minute calendar entry lo hi d h) 60 0 (hour_on d h on none_there) m
            (omega arith) (omega arith))
          low high)
    | inr off ↦ rw off refl
  ]
    where
      hour_on :
          (d h : ℕ)
          → entry.hour h ≡ true
          → try_hour calendar entry lo hi d h ≡ none
          → first_some (try_minute calendar entry lo hi d h) 0 60 ≡ none
      hour_on d h on e = ground arith

  day-none :
      (d h m : ℕ)
      → try_day calendar entry lo hi d ≡ none
      → h < 24
      → m < 60
      → lo ≤ minute_at d h m
      → minute_at d h m ≤ hi
      → entry.minute m && entry.hour h && matches_day calendar entry d ≡ false
  unfolding try_day
  day-none d h m none_there small smaller low high =
      elim (Bool-cases (matches_day calendar entry d)) [
        | inl on ↦ ground (
          arith,
          hour-none d h m
              (first_some-none (try_hour calendar entry lo hi d) 24 0 (day_on d on none_there) h
                (omega arith) (omega arith))
              smaller low high,
        )
        | inr off ↦ ground arith
      ]
    where
      day_on :
          (d : ℕ)
          → matches_day calendar entry d ≡ true
          → try_day calendar entry lo hi d ≡ none
          → first_some (try_hour calendar entry lo hi d) 0 24 ≡ none
      day_on d on e = ground arith

  -- A day without a time has no matching minute.
  pub day-no_match :
      (t : ℕ)
      → try_day calendar entry lo hi (t / 1440) ≡ none
      → lo ≤ t
      → t ≤ hi
      → matches calendar entry (whole t) ≡ false
  unfolding matches
  day-no_match t none_there low high =
      day-none (t / 1440) (t / 60 % 24) (t % 60) none_there (omega arith) (omega arith)
        (omega arith) (omega arith)

  pub hour-some :
      (d h t : ℕ)
      → try_hour calendar entry lo hi d h ≡ some t
      → (entry.hour h ≡ true) × (first_some (try_minute calendar entry lo hi d h) 0 60 ≡ some t)
  unfolding try_hour
  hour-some d h t found = ground arith

  pub day-some :
      (d t : ℕ)
      → try_day calendar entry lo hi d ≡ some t
      → (matches_day calendar entry d ≡ true)
        × (first_some (try_hour calendar entry lo hi d) 0 24 ≡ some t)
  unfolding try_day
  day-some d t found = ground arith

  -- An hour or a minute of the day without a time does not match.
  pub hour-no_match :
      (d t : ℕ)
      → t / 1440 ≡ d
      → try_hour calendar entry lo hi d (t / 60 % 24) ≡ none
      → lo ≤ t
      → t ≤ hi
      → matches calendar entry (whole t) ≡ false
  unfolding matches
  hour-no_match d t same none_there low high = ground (
    arith,
    hour-none d (t / 60 % 24) (t % 60) none_there (omega arith) (omega arith) (omega arith),
  )

  pub minute-no_match :
      (d h t : ℕ)
      → t / 1440 ≡ d
      → t / 60 % 24 ≡ h
      → try_minute calendar entry lo hi d h (t % 60) ≡ none
      → lo ≤ t
      → t ≤ hi
      → matches calendar entry (whole t) ≡ false
  unfolding matches
  minute-no_match d h t same same_hour none_there low high =
      ground (arith, minute-none d h (t % 60) none_there (omega arith) (omega arith))
