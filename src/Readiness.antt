-- ===== src/Readiness.antt =====
-- `ReadinessCoordinator` of src/game_control/health.py: one notification for each start of a
-- profile. A waiter keeps the entry that it has looked up, also when a later start has replaced it
-- in the dictionary, so the entries are cells of a store, named by their generation.
use helios_horizon.Common.{
  ℕ, ◌+◌, ◌≤◌, String, Bool, true, false, not, ◌&&◌, ◌||◌, Option, none, some, List, [], ◌∷◌, ◌==◌,
  if◌then◌else◌, Dict, get, put,
}
use helios_horizon.Slot.Values.{ProfileId, value}
use helios_horizon.Controller.Lifecycle.Script.{Outcome, success, failed, timeout}
pub mod Store
pub mod Notified
pub mod Final
mod Examples

-- `_ReadinessEntry`, whose event is set once there is an outcome, with its generation
pub record Cell : Type 0 where
  pub generation : ℕ
  pub outcome : Option Outcome
  pub active : Bool

-- ReadinessTicket
pub record Ticket : Type 0 where
  pub profile : ProfileId
  pub generation : ℕ

pub record Coordinator : Type 0 where
  pub entries : Dict ℕ
  pub cells : List Cell
  pub generation : ℕ
  pub successes : ℕ
  pub failures : ℕ
  pub timeouts : ℕ

-- What `wait` and `latest` raise: RuntimeError, or TimeoutError.
pub data Waited : Type 0 where
  notified_of : Outcome → Waited
  unavailable timed_out : Waited

-- The outcome of the cell of a generation
unfoldable pub outcome_of : ℕ → List Cell → Option Outcome
outcome_of g [] = none
outcome_of g (c ∷ cells) = if c.generation == g then c.outcome else outcome_of g cells

unfoldable pub resolve : ℕ → Outcome → List Cell → List Cell
resolve g o [] = []
resolve g o (c ∷ cells) =
    if c.generation == g then record c { outcome = some o } ∷ cells else c ∷ resolve g o cells

unfoldable pub deactivate : ℕ → List Cell → List Cell
deactivate g [] = []
deactivate g (c ∷ cells) =
    if c.generation == g then record c { active = false } ∷ cells else c ∷ deactivate g cells

abbrev pub is_current : Ticket → Option ℕ → Bool
is_current ticket none = false
is_current ticket (some g) = g == ticket.generation

abbrev pub is_none : Option Outcome → Bool
is_none none = true
is_none (some o) = false

abbrev pub counted : Outcome → Coordinator → Coordinator
counted success s = record s { successes = s.successes + 1 }
counted failed s = record s { failures = s.failures + 1 }
counted timeout s = record s { timeouts = s.timeouts + 1 }

-- `begin`
unfoldable pub begin : ProfileId → Coordinator → Ticket × Coordinator
begin p s =
    let g = s.generation + 1 in
    (
      record { profile = p; generation = g },
      record s {
        entries = put s.entries (value p) g;
        cells = record { generation = g; outcome = none; active = true } ∷ s.cells;
        generation = g;
      },
    )

-- `notify`
unfoldable pub notify : Ticket → Outcome → Coordinator → Bool × Coordinator
notify ticket o s =
    if is_current ticket (get s.entries (value ticket.profile))
      && is_none (outcome_of ticket.generation s.cells)
    then (true, counted o (record s { cells = resolve ticket.generation o s.cells }))
    else (false, s)

-- `finish`
unfoldable pub finish_ticket : Ticket → Coordinator → Coordinator
finish_ticket ticket s =
    if is_current ticket (get s.entries (value ticket.profile))
    then record s { cells = deactivate ticket.generation s.cells }
    else s

-- `latest`, where none is a RuntimeError
abbrev pub latest_ticket : ProfileId → Option ℕ → Option ℕ → Option Ticket
latest_ticket p none asked = none
latest_ticket p (some g) none = some (record { profile = p; generation = g })
latest_ticket p (some g) (some asked) =
    if asked == g then some (record { profile = p; generation = g }) else none

unfoldable pub latest : ProfileId → Option ℕ → Coordinator → Option Ticket
latest p asked s = latest_ticket p (get s.entries (value p)) asked

-- `wait` with a valid timeout, up to the wait for the event of its cell
unfoldable pub can_wait : Ticket → Coordinator → Bool
can_wait ticket s = is_current ticket (get s.entries (value ticket.profile))

-- `wait` after the event of its cell, or after the timeout
abbrev pub woken : Bool → Option Outcome → Coordinator → Waited × Coordinator
woken true none s = (timed_out, record s { timeouts = s.timeouts + 1 })
woken true (some o) s = (timed_out, s)
woken false none s = (unavailable, s)
woken false (some o) s = (notified_of o, s)

unfoldable pub wake : ℕ → Bool → Coordinator → Waited × Coordinator
wake g late s = woken late (outcome_of g s.cells) s

abbrev pub is_active : ℕ → List Cell → Bool
is_active g [] = false
is_active g (c ∷ cells) = if c.generation == g then c.active else is_active g cells

abbrev pub count_active : Dict ℕ → List Cell → ℕ
count_active [] cells = 0
count_active ((key, g) ∷ entries) cells =
    let rest = count_active entries cells in if is_active g cells then rest + 1 else rest

-- `health`: the active starts, and the successes, failures and timeouts
unfoldable pub health : Coordinator → ℕ × ℕ × ℕ × ℕ
health s = (count_active s.entries s.cells, s.successes, s.failures, s.timeouts)

-- `__init__`
abbrev pub empty : Coordinator
empty = record {
  entries = [];
  cells = [];
  generation = 0;
  successes = 0;
  failures = 0;
  timeouts = 0;
}
