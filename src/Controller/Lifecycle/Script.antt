-- ===== src/Controller/Lifecycle/Script.antt =====
-- How the lifecycle handlers of src/game_control/controller.py run: their exceptions, what they do
-- to the rest of the world, what it answers, and their local variables. Cancellation arrives where
-- a handler waits for something outside the tables.
use helios_horizon.Common.{ℕ, ◌+◌, String, Bool, Option, List, ◌∷◌}
use helios_horizon.Slot.Values.{ProfileId}
use helios_horizon.Slot.Inspector.{SlotObservation}
use helios_horizon.Program.{Program, returned}
use helios_horizon.Controller.Database.{ErrorCode, Db}

-- `_ControllerFailure` with its code and `retryable`, TimeoutError, CancelledError, an exception
-- whose code is 75, and any other. Only CancelledError is no Exception.
pub data Fault : Type 0 where
  failure : ErrorCode → Bool → Fault
  timed_out cancelled exit_75 other_exception : Fault

-- The lease tuple `(profile.id, lease_id, generation)`.
pub record Lease : Type 0 where
  pub profile : ProfileId
  pub id : String
  pub generation : ℕ

pub data ServerAction : Type 0 where
  start graceful_stop force_stop : ServerAction

-- What `_fresh_stop_preflight` reads of a ProfileStatus.
pub record ProfileStatus : Type 0 where
  pub profile_id : ProfileId
  pub state : String
  pub slot_owner : Option ProfileId
  pub active_job_id : Option String
  pub players_online : Option ℕ
  pub required_ports_ready : Bool

-- The fresh status: no service or no snapshot, an exception, or the profiles.
pub data StatusReply : Type 0 where
  unavailable : StatusReply
  status_fault : Fault → StatusReply
  snapshot : List ProfileStatus → StatusReply

pub data Outcome : Type 0 where
  success failed timeout : Outcome

-- What a handler does outside the tables, in the order in which it does it. A lease is not released
-- when its release raises, and left behind when the store raises after publishing it.
pub data Call : Type 0 where
  reserved released not_released left_behind : Lease → Call
  transferred : Lease → Lease → Call
  served : ServerAction → ProfileId → Call
  status_read : StatusReply → Call
  slot_observed : Option SlotObservation → Call
  waited_free probed backed_up hinted : ProfileId → Call
  event_recorded : ProfileId → String → Call
  readiness_begun readiness_finished : ProfileId → Call
  notified : ProfileId → Outcome → Call
  attempt_begun attempt_ended estimate_recorded : ProfileId → Call
  latency_recorded : String → ProfileId → Bool → Call
  asserted drained : Call

-- `reserve_if_available` and `transfer_if_owned`: granted, an Exception, or a cancellation before
-- or after the grant. The store may raise after it has published the file, with the handler
-- cancelled or not.
pub data Reserving : Type 0 where
  granted refused refused_published cancelled_before cancelled_published cancelled_after : Reserving

-- What `_await_lease` sees: the work ends first, with a value and then perhaps a lost lease, or
-- with an exception, or the renewal of the lease ends first.
pub data Awaited : Type 0 where
  work_done : Bool → Bool → Awaited
  work_raised : Fault → Awaited
  renewal_first : Awaited

-- What `_release_lease` collects: the error of the renewal, and that of `release_if_owned`.
pub record Draining : Type 0 where
  pub renewal_error : Option Fault
  pub cleanup_error : Option Fault

-- Profile
pub record Profile : Type 0 where
  pub id : ProfileId
  pub operations : List String

-- The payload of the confirmation of a switch.
pub record SwitchPayload : Type 0 where
  pub source : ProfileId
  pub target : ProfileId
  pub create_backup : Bool
  pub force_after_timeout : Bool
  pub rollback_on_failure : Bool

-- The answers of the world, by the number of the call, and the configuration. `decode_switch` is
-- `json.loads` on what `_prepare_switch` has stored.
pub record Env : Type 0 where
  pub now : ℕ → ℕ
  pub fresh : ℕ → String
  pub profiles : ProfileId → Option Profile
  pub has_adapter : ProfileId → Bool
  pub has_backups : Bool
  pub decode_switch : String → SwitchPayload
  pub reserving : ℕ → Reserving
  pub transferring : ℕ → Reserving
  pub awaited : ℕ → Awaited
  pub lease_lost : ℕ → Bool
  pub interrupted : ℕ → Bool
  pub status : ℕ → StatusReply
  pub inspected : ℕ → Option SlotObservation
  pub draining : ℕ → Draining

-- The tables, the calls so far with the last one first, their number, and the local variables of
-- the handler: the lease and its renewal, the job, whether the readiness ticket was begun, the
-- startup attempt, `lifecycle_success`, `target_started`, and the lease of the rollback.
pub record Frame : Type 0 where
  pub db : Db
  pub calls : List Call
  pub tick : ℕ
  pub lease : Option Lease
  pub renewing : Bool
  pub job_id : Option String
  pub begun : Bool
  pub attempt : Bool
  pub succeeded : Bool
  pub target_started : Bool
  pub rollback_lease : Option Lease
  pub rollback_renewing : Bool

abbrev pub Script : Type 0 → Type 0
Script A = Program Frame Fault A

unfoldable pub log : Call → Script (Unit {0})
log c f = (returned tt, record f { calls = c ∷ f.calls; tick = f.tick + 1 })
