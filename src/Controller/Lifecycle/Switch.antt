-- ===== src/Controller/Lifecycle/Switch.antt =====
-- `_confirm_switch` and `_start_with_free_retry` of src/game_control/controller.py.
use helios_horizon.Common.{String, Bool, true, false, not, Option, none, some, if◌then◌else◌}
use helios_horizon.Slot.Values.{ProfileId}
use helios_horizon.Controller.Database.{health_failed, backup_failed, grace_timeout}
use helios_horizon.Program.{
  pure, raise, gets, try_except, try_finally, ◌>>=◌, ◌>>◌, modify, raise_if, when,
}
use helios_horizon.Controller.Lifecycle.Script.{
  Fault, failure, timed_out, cancelled, exit_75, other_exception, Lease, start, graceful_stop,
  force_stop, transferred, left_behind, backed_up, attempt_ended, estimate_recorded,
  latency_recorded, Reserving, granted, refused, refused_published, cancelled_published,
  cancelled_before, cancelled_after, Profile, SwitchPayload, Env, Script, log,
}
use helios_horizon.Controller.Lifecycle.Leases.{
  conflict, write_audit, record_event, get_profile, open_job, close_job, assert_lease, await_lease,
  serve, wait_for_free_slot, probe_start_health, reserve, clear_reservation, release_lease,
}
use helios_horizon.Controller.Lifecycle.Start.{enter, hold, begin_attempt, code_of, reported}
use helios_horizon.Controller.Lifecycle.Stop.{consume}

-- The second attempt of `_start_with_free_retry`, for an exception with the code 75.
unfoldable pub retry_start : Env → ProfileId → Fault → Script (Unit {0})
retry_start env p exit_75 = do
  free ← wait_for_free_slot env p
  raise_if (not free) conflict
  serve env start p
  pure tt
retry_start env p e = raise e

-- `_start_with_free_retry`
unfoldable pub start_with_free_retry : Env → ProfileId → Script (Unit {0})
start_with_free_retry env p = try_except (serve env start p >> pure tt) (retry_start env p)

-- A graceful stop that has run into its timeout.
unfoldable pub forced : Env → ProfileId → Bool → Fault → Fault → Script (Unit {0})
forced env p force_after_timeout otherwise timed_out =
    if force_after_timeout then serve env force_stop p >> pure tt else raise otherwise
forced env p force_after_timeout otherwise e = raise e

unfoldable pub stop_or_force : Env → ProfileId → Bool → Fault → Script (Unit {0})
stop_or_force env p force_after_timeout otherwise =
    try_except (serve env graceful_stop p >> pure tt) (forced env p force_after_timeout otherwise)

unfoldable pub back_up : Env → ProfileId → Script (Unit {0})
back_up env source =
    if env.has_backups
    then await_lease env (backed_up source) >> assert_lease env
    else raise (failure backup_failed false)

-- The source is stopped and the slot is free.
unfoldable pub vacate : Env → SwitchPayload → Script (Unit {0})
vacate env payload = do
  stop_or_force env payload.source payload.force_after_timeout (failure grace_timeout false)
  assert_lease env
  free ← wait_for_free_slot env payload.source
  raise_if (not free) conflict
  assert_lease env
  when payload.create_backup (back_up env payload.source)

unfoldable pub start_target : Env → ProfileId → Script (Unit {0})
start_target env target = do
  modify λ f. record f { target_started = true }
  begin_attempt env target
  start_with_free_retry env target
  assert_lease env
  ready ← probe_start_health env target
  raise_if (not ready) other_exception

-- The `try` block.
unfoldable pub switch_body : Env → Profile → SwitchPayload → String → String → Script String
switch_body env profile payload confirmation_id actor = do
  hold env profile "switch" confirmation_id actor
  vacate env payload
  start_target env profile.id
  close_job env "switch" profile.id actor true none
  modify λ f. record f { succeeded = true }
  log (estimate_recorded profile.id)
  gets λ f. reported f.job_id

-- The outcome of `transfer_if_owned`: the rollback has the lease of the source then, and on a
-- cancellation after the transfer that one is released, and an error of that is dropped.
unfoldable pub receive_transfer : Env → Reserving → Lease → Lease → Script (Unit {0})
receive_transfer env granted lease given = do
  log (transferred lease given)
  modify λ f. record f { lease = none; rollback_lease = some given }
receive_transfer env refused lease given = raise other_exception
receive_transfer env refused_published lease given =
    log (left_behind given) >> raise other_exception
receive_transfer env cancelled_before lease given = raise cancelled
receive_transfer env cancelled_published lease given = log (left_behind given) >> raise cancelled
receive_transfer env cancelled_after lease given = do
  log (transferred lease given)
  clear_reservation env (some given)
  raise cancelled

unfoldable pub take_back : Env → Profile → String → Option Lease → Script (Unit {0})
take_back env source actor (some lease) = do
  tick ← gets λ f. f.tick
  receive_transfer env (env.transferring tick) lease
      (record { profile = source.id; id = env.fresh tick; generation = lease.generation })
take_back env source actor none = do
  tick ← gets λ f. f.tick
  taken ← reserve env source "rollback" (env.fresh tick) actor
  modify λ f. record f { rollback_lease = some taken }

-- The `try` block of the rollback.
unfoldable pub roll_back : Env → Profile → SwitchPayload → String → Script (Unit {0})
roll_back env source payload actor = do
  started ← gets λ f. f.target_started
  when started (stop_or_force env payload.target payload.force_after_timeout timed_out)
  lease ← gets λ f. f.lease
  take_back env source actor lease
  modify λ f. record f { rollback_renewing = true }
  free ← wait_for_free_slot env source.id
  raise_if (not free) other_exception
  start_with_free_retry env source.id
  ready ← probe_start_health env source.id
  raise_if (not ready) other_exception
  record_event source.id "rollback_succeeded"
  write_audit env actor "rollback" source.id "succeeded" none

unfoldable pub roll_back_failed : Env → ProfileId → String → Fault → Script (Unit {0})
roll_back_failed env p actor cancelled = raise cancelled
roll_back_failed env p actor e = do
  record_event p "rollback_failed"
  write_audit env actor "rollback" p "failed" (some health_failed)

unfoldable pub attempt_roll_back : Env → Profile → SwitchPayload → String → Script (Unit {0})
attempt_roll_back env source payload actor = do
  record_event source.id "rollback_attempt"
  write_audit env actor "rollback" source.id "accepted" none
  try_except (roll_back env source payload actor) (roll_back_failed env source.id actor)

-- The `except` clause: every Exception.
unfoldable pub switch_failed :
    Env → Profile → Profile → SwitchPayload → String → Fault → Script String
switch_failed env source target payload actor cancelled = raise cancelled
switch_failed env source target payload actor e = do
  when payload.rollback_on_failure (attempt_roll_back env source payload actor)
  close_job env "switch" target.id actor false (some (code_of health_failed e))
  raise (failure (code_of health_failed e) false)

-- The `finally` clause. The second release comes after the first only if that raises nothing.
unfoldable pub switch_finally : Env → ProfileId → Bool → Script (Unit {0})
switch_finally env target primary = do
  attempt ← gets λ f. f.attempt
  when attempt (log (attempt_ended target))
  ok ← gets λ f. f.succeeded
  log (latency_recorded "switch_duration" target ok)
  lease ← gets λ f. f.lease
  renewing ← gets λ f. f.renewing
  release_lease env lease renewing primary
  lease' ← gets λ f. f.rollback_lease
  renewing' ← gets λ f. f.rollback_renewing
  release_lease env lease' renewing' primary

-- `_confirm_switch` with the payload of its confirmation
unfoldable pub switch_profiles : Env → SwitchPayload → String → String → Script String
switch_profiles env payload confirmation_id actor = do
  enter
  source ← get_profile env payload.source
  target ← get_profile env payload.target
  open_job env "switch" target.id actor
  try_finally
      (try_except (switch_body env target payload confirmation_id actor)
        (switch_failed env source target payload actor))
      (switch_finally env target.id)

-- `_confirm_switch`
unfoldable pub confirm_switch : Env → String → String → Script String
confirm_switch env confirmation_id actor = do
  text ← consume env actor "switch" confirmation_id
  switch_profiles env (env.decode_switch text) confirmation_id actor
