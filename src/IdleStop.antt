-- ===== src/IdleStop.antt =====
-- src/game_control/idle_stop.py: the controller stops a server that nobody has played on for some
-- minutes. Times are microseconds; a clock without a time zone is read as UTC.
pub mod Streaks
mod Examples
use helios_horizon.Common.{
  ℕ, zero, suc, ◌+◌, ◌-◌, ◌*◌, String, Bool, true, false, not, ◌&&◌, ◌||◌, Option, none, some, List,
  [], ◌∷◌, leb, ltb, ◌==◌, str_eq, if◌then◌else◌, Dict, get, put, remove,
}

-- `_Streak`
pub record Streak : Type 0 where
  pub started_at : ℕ
  pub attempted : Bool

-- What `observe` reads of the profile: its key, and the setting, 0 if it is absent or no positive
-- whole number.
pub record Profile : Type 0 where
  pub id : String
  pub idle_stop_minutes : ℕ

-- What `observe` reads of the status.
pub record Status : Type 0 where
  pub state : String
  pub players_online : Option ℕ
  pub active_job_id : Option String

-- timedelta(minutes=minutes)
abbrev pub idle_limit : Profile → ℕ
idle_limit profile = profile.idle_stop_minutes * 60 * 1000000

abbrev pub has_no_players : Option ℕ → Bool
has_no_players none = false
has_no_players (some n) = n == 0

abbrev pub has_no_job : Option String → Bool
has_no_job none = true
has_no_job (some x) = false

-- Neither of the first two returns is taken.
unfoldable pub is_idle : Profile → Status → Bool
is_idle profile status =
    ltb 0 profile.idle_stop_minutes
    && str_eq status.state "running"
    && has_no_players status.players_online
    && has_no_job status.active_job_id

-- An idle sample of a profile with a streak. The times are compared as they are, so a clock that
-- was set back gives a difference below every limit.
unfoldable pub continue_streak : ℕ → Profile → Streak → Dict Streak → Bool × Dict Streak
continue_streak now profile streak streaks =
    if streak.attempted
    then (false, streaks)
    else if ltb now (streak.started_at + idle_limit profile)
    then (false, streaks)
    else (true, put streaks profile.id (record streak { attempted = true }))

unfoldable pub observe_idle : ℕ → Profile → Dict Streak → Bool × Dict Streak
observe_idle now profile streaks = elim (get streaks profile.id) [
  | none ↦ (false, put streaks profile.id (record { started_at = now; attempted = false }))
  | some streak ↦ continue_streak now profile streak streaks
]

-- `observe`
unfoldable pub observe : ℕ → Profile → Status → Dict Streak → Bool × Dict Streak
observe now profile status streaks =
    if is_idle profile status
    then observe_idle now profile streaks
    else (false, remove streaks profile.id)

-- `reset`
unfoldable pub reset : String → Dict Streak → Dict Streak
reset profile_id streaks = remove streaks profile_id

-- What the controller calls.
pub data Event : Type 0 where
  sample : ℕ → Profile → Status → Event
  resetting : String → Event

unfoldable pub step : Event → Dict Streak → Dict Streak
step (sample now profile status) streaks = (observe now profile status streaks).1
step (resetting id) streaks = reset id streaks

-- The streaks after a history, the last call first.
unfoldable pub after : List Event → Dict Streak
after [] = []
after (e ∷ history) = step e (after history)
