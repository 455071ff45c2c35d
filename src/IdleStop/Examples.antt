-- ===== src/IdleStop/Examples.antt =====
-- A profile that is stopped after five minutes without players.
use helios_horizon.Common.{
  ◌+◌, ◌≤◌, ℕ, ◌≡◌, refl, true, ◌||◌, none, some, List, [], ◌∷◌, ◌++◌, arith, get, put, remove,
}
use helios_horizon.IdleStop.{
  Profile, Status, idle_limit, is_idle, continue_streak, observe_idle, observe, Event, sample, step,
  after,
}
use helios_horizon.IdleStop.Streaks.{is_quiet, IsIdleSince, stops, observe-stop, observe-due}

abbrev sunlit : Profile
sunlit = record { id = "minecraft"; idle_stop_minutes = 5 }

abbrev nobody_on : Status
nobody_on = record { state = "running"; players_online = some 0; active_job_id = none }

-- Two samples, one of them of another profile, the last one first.
abbrev two_samples : List Event
two_samples =
    sample 60000000 (record { id = "pz-rising"; idle_stop_minutes = 0 }) nobody_on
    ∷ sample 1000 sunlit nobody_on
    ∷ []

observe-stop_example :
    (is_idle sunlit nobody_on ≡ true)
    × ((start : ℕ) × (start + idle_limit sunlit ≤ 300001000)
        × IsIdleSince "minecraft" start two_samples)
unfolding after step observe observe_idle continue_streak is_idle get put remove
observe-stop_example = observe-stop 300001000 sunlit nobody_on two_samples refl

observe-due_example :
    (stops "minecraft" (sample 2000 sunlit nobody_on ∷ []) (sample 1000 sunlit nobody_on ∷ [])
      || (observe 300001000 sunlit nobody_on
          (after ((sample 2000 sunlit nobody_on ∷ []) ++ sample 1000 sunlit nobody_on ∷ []))).0)
    ≡ true
unfolding after is_idle get is_quiet
observe-due_example =
    observe-due 1000 300001000 sunlit nobody_on nobody_on (sample 2000 sunlit nobody_on ∷ []) []
      refl refl refl (refl, tt) (omega arith)
