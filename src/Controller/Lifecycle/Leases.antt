-- ===== src/Controller/Lifecycle/Leases.antt =====
-- src/game_control/controller.py: taking, watching and giving back the lease of the game slot,
-- waiting for servers under it, and the tables as the lifecycle handlers write them.
use helios_horizon.Common.{
  String, Bool, true, false, ◌||◌, Option, none, some, List, [], ◌∷◌, str_eq, if◌then◌else◌,
}
use helios_horizon.Slot.Values.{ProfileId, value}
use helios_horizon.Controller.Database.{
  ErrorCode, slot_conflict, invalid_request, internal_error, audit,
}
use helios_horizon.Controller.Jobs.{job_intent, finish}
use helios_horizon.Program.{returned, pure, raise, gets, ◌>>=◌, ◌>>◌, modify, raise_if}
use helios_horizon.Controller.Lifecycle.Script.{
  Fault, failure, cancelled, Lease, ServerAction, Call, reserved, released, not_released,
  left_behind, served, waited_free, probed, event_recorded, hinted, asserted, drained, granted,
  refused, refused_published, cancelled_published, cancelled_before, cancelled_after, Reserving,
  work_done, work_raised, renewal_first, Awaited, Profile, Env, Script, log,
}

abbrev pub conflict : Fault
conflict = failure slot_conflict false

-- `_audit_rejection_sync`, `_record_rejected_audit` and `_record_audit`
unfoldable pub write_audit :
    Env → String → String → ProfileId → String → Option ErrorCode → Script (Unit {0})
write_audit env actor action p result code f = (
  returned tt,
  record f { db = audit (env.now f.tick) actor action (some (value p)) result code f.db },
)

-- `_record_event`, which may find the event of the last five minutes instead of writing it.
unfoldable pub record_event : ProfileId → String → Script (Unit {0})
record_event p code = log (event_recorded p code)

unfoldable pub found : Option Profile → Script Profile
found none = raise (failure invalid_request false)
found (some profile) = pure profile

-- `_profile`
unfoldable pub get_profile : Env → ProfileId → Script Profile
get_profile env p = found (env.profiles p)

abbrev pub permits : List String → String → Bool
permits [] operation = false
permits (o ∷ os) operation = str_eq o operation || permits os operation

-- `_require_operation`
unfoldable pub require_operation : Env → Profile → String → String → Script (Unit {0})
require_operation env profile operation actor =
    if permits profile.operations operation
    then pure tt
    else write_audit env actor operation profile.id "rejected" (some invalid_request)
      >> raise (failure invalid_request false)

-- `_transaction(lambda: _job_intent(...))`, with the id that it returns
unfoldable pub open_job : Env → String → ProfileId → String → Script String
open_job env operation p actor f =
    let id = env.fresh f.tick in
    (
      returned id,
      record f {
        db = job_intent (env.now f.tick) id actor operation (some (value p)) f.db;
        job_id = some id;
      },
    )

unfoldable pub finish_job :
    Env → String → ProfileId → String → Bool → Option ErrorCode → Option String → Script (Unit {0})
finish_job env operation p actor ok code none = pure tt
finish_job env operation p actor ok code (some id) = modify λ f. record f {
  db = finish (env.now f.tick) id actor operation (some (value p)) ok code none f.db;
}

-- `_transaction(lambda: _finish(...))`, if there is a job
unfoldable pub close_job :
    Env → String → ProfileId → String → Bool → Option ErrorCode → Script (Unit {0})
close_job env operation p actor ok code = do
  job_id ← gets λ f. f.job_id
  finish_job env operation p actor ok code job_id

-- `_assert_lease`
unfoldable pub assert_lease : Env → Script (Unit {0})
assert_lease env = do tick ← gets λ f. f.tick; log asserted; raise_if (env.lease_lost tick) conflict

-- What becomes of the work and the renewal in `_await_lease`.
unfoldable pub settle : Awaited → Script Bool
settle (work_done result lost) = raise_if lost conflict >> pure result
settle (work_raised e) = raise e
settle renewal_first = raise conflict

-- `_await_lease` of the call
unfoldable pub await_lease : Env → Call → Script Bool
await_lease env call = do tick ← gets λ f. f.tick; log call; settle (env.awaited tick)

-- `_await_lease(self._adapter(profile).action(profile))`
unfoldable pub serve : Env → ServerAction → ProfileId → Script Bool
serve env action p =
    if env.has_adapter p
    then await_lease env (served action p)
    else raise (failure internal_error false)

-- `_wait_for_free_slot` and `_probe_start_health`
unfoldable pub wait_for_free_slot : Env → ProfileId → Script Bool
wait_for_free_slot env p = await_lease env (waited_free p)

unfoldable pub probe_start_health : Env → ProfileId → Script Bool
probe_start_health env p = await_lease env (probed p)

-- `_installed_version_hint`, which swallows every Exception
unfoldable pub installed_version_hint : Env → ProfileId → Script (Unit {0})
installed_version_hint env p = do
  tick ← gets λ f. f.tick
  log (hinted p)
  raise_if (env.interrupted tick) cancelled

-- The release of a lease, which may raise.
abbrev pub cleared : Lease → Option Fault → Call
cleared lease none = released lease
cleared lease (some e) = not_released lease

-- `_clear_reservation` of a lease
unfoldable pub clear_reservation : Env → Option Lease → Script (Option Fault)
clear_reservation env none = pure none
clear_reservation env (some lease) = do
  tick ← gets λ f. f.tick
  log (cleared lease (env.draining tick).cleanup_error)
  pure (env.draining tick).cleanup_error

unfoldable pub slot_refused : Env → Lease → String → String → Script Lease
slot_refused env lease operation actor = do
  record_event lease.profile "slot_conflict"
  write_audit env actor operation lease.profile "rejected" (some slot_conflict)
  raise conflict

-- The outcome of the store in `_reserve`: on a cancellation after the grant the lease is released,
-- and an error of that is dropped.
unfoldable pub receive : Env → Reserving → Lease → String → String → Script Lease
receive env granted lease operation actor = log (reserved lease) >> pure lease
receive env refused lease operation actor = slot_refused env lease operation actor
receive env refused_published lease operation actor =
    log (left_behind lease) >> slot_refused env lease operation actor
receive env cancelled_before lease operation actor = raise cancelled
receive env cancelled_published lease operation actor = log (left_behind lease) >> raise cancelled
receive env cancelled_after lease operation actor = do
  log (reserved lease)
  clear_reservation env (some lease)
  raise cancelled

-- `_reserve`
unfoldable pub reserve : Env → Profile → String → String → String → Script Lease
reserve env profile operation operation_id actor = do
  lease ← gets λ f. record { profile = profile.id; id = operation_id; generation = f.db.generation }
  tick ← gets λ f. f.tick
  receive env (env.reserving tick) lease operation actor

abbrev pub raise_some : Option Fault → Script (Unit {0})
raise_some none = pure tt
raise_some (some e) = raise e

-- The cleanup error is raised before that of the renewal, and neither over a primary exception.
unfoldable pub report : Bool → Option Fault → Option Fault → Script (Unit {0})
report true cleanup_error renewal_error = pure tt
report false none renewal_error = raise_some renewal_error
report false (some e) renewal_error = raise e

unfoldable pub drain_renewal : Env → Bool → Script (Option Fault)
drain_renewal env false = pure none
drain_renewal env true = do
  tick ← gets λ f. f.tick
  log drained
  pure (env.draining tick).renewal_error

-- `_release_lease`
unfoldable pub release_lease : Env → Option Lease → Bool → Bool → Script (Unit {0})
release_lease env lease renewing primary = do
  renewal_error ← drain_renewal env renewing
  cleanup_error ← clear_reservation env lease
  report primary cleanup_error renewal_error
