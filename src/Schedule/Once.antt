-- ===== src/Schedule/Once.antt =====
-- A minute of the schedule (src/game_control/schedule.py) is served once.
use helios_horizon.Common.{
  ℕ, ◌≡◌, refl, true, List, [], ◌∷◌, ◌==◌, arith, Bool-cases, inl, inr, all,
}
use helios_horizon.Schedule.{
  Calendar, ScheduleEntry, Moment, ScheduleBook, is_due, is_last, due_of, due,
}

all-due_of :
    (calendar : Calendar) (now : Moment) (entries : List ScheduleEntry)
    → all (is_due calendar now) (due_of calendar now entries) ≡ true
all-due_of calendar now [] = refl
all-due_of calendar now (entry ∷ entries) = ground (arith, all-due_of calendar now entries)

-- Every entry that is given as due is enabled and matches the moment, and whatever book it was, a
-- second call within the same minute gives nothing and changes nothing.
pub due-once :
    (calendar : Calendar) (now later : Moment) (book : ScheduleBook)
    → later.minutes ≡ now.minutes
    → let (entries, book') = due calendar now book in
      (all (is_due calendar now) entries ≡ true) × (due calendar later book' ≡ ([], book'))
unfolding due
due-once calendar now later book same =
    elim (Bool-cases (is_last calendar now.minutes book.last_minute)) [
      | inl h ↦ rw (same, h) (refl, rw h refl)
      | inr h ↦ rw (same, h, own now.minutes) (all-due_of calendar now book.entries, refl)
    ]
  where
    own : (n : ℕ) → (n == n) ≡ true
    own n = ground arith
