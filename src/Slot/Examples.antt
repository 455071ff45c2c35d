-- ===== src/Slot/Examples.antt =====
-- A start of Minecraft by a controller, another process that tries for Terraria, and an update.
use helios_horizon.Common.{
  String, ◌≡◌, refl, Bool, true, false, ◌&&◌, none, some, List, [], ◌∷◌, pos, str_eq, ◌≤ℤ◌, ◌<ℤ◌,
  ◌+ℤ◌, get, ◌⊎◌, ◌↔◌,
}
use helios_horizon.Slot.Values.{
  minecraft, terraria_tmod, value, profile_of_text, ProfileRef, profile, same_profile, finite, plus,
  str, int, is_hex_char, is_hex_64, is_negative, is_positive, is_empty,
}
use helios_horizon.Slot.Record.{
  Reservation, is_kind, is_capability, read_profile, read_operation_id, read_count, read_pid,
  read_expiry, read_kind, read_capability, reservation_from_json, reservation_payload,
}
use helios_horizon.Slot.RoundTrip.{IsWellFormed, from_json-payload_iff}
use helios_horizon.Slot.Exec.{Failure, ok, err}
use helios_horizon.Slot.Disk.{
  Stat, Entry, missing, dangling, file, read_json, object, unreadable, Host, written, lock_open,
  new_file, atomic_json, unlink,
}
use helios_horizon.Slot.Store.{
  in_window, same_ticks, live, read, is_unsafe, admit, read_for_admission, Request, is_ttl,
  check_request, publish, is_taken, provided_generation, is_unavailable, reserve_locked,
  reserve_if_available,
}
use helios_horizon.Slot.Granting.{IsGrant, reserve_if_available-live, reserve_if_available-IsGrant}
use helios_horizon.Slot.Holding.{granted_in_force}
use helios_horizon.Slot.Lease.{
  Claim, identify, expected_controller, is_owner, same_kind, owned, owned_live, renew_if_owned,
  transfer_if_owned,
}
use helios_horizon.Slot.Views.{
  capability_digest, has_digest, is_handed_off, handed_off, authorize_handoff, valid_for_runner,
  remove_if_exists, remove_if_stale, reconcile,
}
use helios_horizon.Slot.Exclusion.{
  Op, acquire, overwrite, overwrites, is_accepted, release, reconciliation, holds, speaks_for, run,
  IsForeign, run-foreign, runner_exclusion,
}
use helios_horizon.Slot.Handoff.{authorize_handoff-ok, reconcile-ok}
use helios_horizon.Slot.Inspector.{
  SlotObservation, holder, observe_held_slot, observe_opened, observe, IsRunning, observe-owner,
}

abbrev lock_stat : Stat
lock_stat = record {
  is_symlink = false;
  is_regular = true;
  nlink = 1;
  uid = 0;
  gid = 5;
  mode = 0o660;
  size = 0;
}

-- A controller with process id 100, started at tick 7, at the time 1000.
abbrev controller : Host
controller = record {
  euid = 0;
  egid = 0;
  pid = pos 100;
  start_ticks = λ p. some (pos 7);
  check_time = pos 1000;
  write_time = pos 1000;
  operation_path = "/run/game-control/operation.lock";
  lock_file = some lock_stat;
  gameslot_gid = some 5;
  write_end = written;
  unlink_fails = false;
  encoded_size = λ fields. 200;
}

abbrev start_minecraft : Request
start_minecraft = record {
  requested = ProfileRef.text "minecraft";
  operation_id = "op-1";
  ttl = finite (pos 500);
  state_generation = pos 3;
  controller_pid = none;
  controller_start_ticks = none;
  operation_kind = "lifecycle";
  capability_sha256 = none;
}

abbrev held : Reservation
held = record {
  profile_id = minecraft;
  operation_id = "op-1";
  state_generation = pos 3;
  controller_pid = pos 100;
  controller_start_ticks = pos 7;
  expires_at = finite (pos 1500);
  operation_kind = "lifecycle";
  capability_sha256 = none;
}

abbrev held_file : Entry
held_file = new_file controller (reservation_payload held)

held-IsWellFormed : IsWellFormed held
unfolding is_empty is_negative is_positive is_kind is_capability
held-IsWellFormed = record {
  named = refl;
  generation_nonneg = refl;
  pid_pos = refl;
  ticks_nonneg = refl;
  kind_known = refl;
  capability_fits = refl;
  expiry_finite = refl;
}

from_json-payload_iff_example :
    (reservation_from_json (some (reservation_payload held)) ≡ some held) ↔ IsWellFormed held
from_json-payload_iff_example = from_json-payload_iff held

held-read : read held_file ≡ some held
unfolding read read_json new_file reservation_from_json reservation_payload get read_profile
    read_operation_id read_count read_pid read_expiry read_kind read_capability is_kind
    is_capability profile_of_text value is_empty is_negative is_positive
held-read = refl

granted : (reserve_if_available controller start_minecraft none none missing).0 ≡ ok held
unfolding reserve_if_available reserve_locked check_request lock_open read_for_admission is_taken
    is_unavailable provided_generation publish atomic_json profile profile_of_text is_empty is_ttl
    is_negative is_kind is_capability plus ◌+ℤ◌
granted = refl

reserve_if_available-IsGrant_example :
    IsGrant controller start_minecraft missing
      (reserve_if_available controller start_minecraft none none missing).1
      held
reserve_if_available-IsGrant_example =
    reserve_if_available-IsGrant controller start_minecraft none none missing held granted

granted_in_force_example :
    (read (reserve_if_available controller start_minecraft none none missing).1 ≡ some held)
    × ((later : Host)
        → pos 1000 ≤ℤ later.check_time
        → later.check_time <ℤ pos 1000 +ℤ pos 500
        → later.start_ticks (pos 100) ≡ some (pos 7)
        → live later held ≡ true)
unfolding is_negative is_positive
granted_in_force_example =
    granted_in_force
      (reserve_if_available-IsGrant controller start_minecraft none none missing held granted) refl
      refl (pos 500) refl

held-live : live controller held ≡ true
unfolding live in_window same_ticks ◌+ℤ◌
held-live = refl

held-admitted : read_for_admission held_file ≡ ok (some held)
unfolding read_for_admission admit is_unsafe new_file read read_json reservation_from_json
    reservation_payload get read_profile read_operation_id read_count read_pid read_expiry read_kind
    read_capability is_kind is_capability profile_of_text value is_empty is_negative is_positive
held-admitted = refl

reserve_if_available-live_example :
    (e : Failure) × (reserve_if_available controller start_minecraft none none held_file
      ≡ (err e, held_file))
reserve_if_available-live_example =
    reserve_if_available-live controller start_minecraft none none held_file held held-admitted
      held-live

-- Another process, with process id 200.
abbrev rival : Host
rival = record controller { pid = pos 200; check_time = pos 1200; write_time = pos 1200 }

abbrev rival_claim : Claim
rival_claim = record {
  claimed = ProfileRef.id minecraft;
  operation_id = "op-1";
  state_generation = pos 3;
  operation_kind = none;
  controller_pid = none;
  controller_start_ticks = none;
}

abbrev rival_steps : List (Host × Op)
rival_steps =
    (rival, acquire (record start_minecraft { operation_id = "op-2" }) none none)
    ∷ (rival, release rival_claim)
    ∷ (rival, overwrite (record start_minecraft { operation_id = "" }))
    ∷ (rival, reconciliation rival held_file)
    ∷ []

rival_steps-IsForeign : IsForeign held rival_steps
unfolding live in_window same_ticks ◌+ℤ◌ speaks_for overwrites is_accepted check_request is_empty
    holds identify profile expected_controller is_owner is_positive is_negative same_profile value
    same_kind profile_of_text
rival_steps-IsForeign =
    ((refl, refl, refl), ((refl, refl, refl), ((refl, refl, refl), ((refl, refl, refl), tt))))

run-foreign_example : run rival_steps held_file ≡ held_file
run-foreign_example = run-foreign held rival_steps held_file held-read rival_steps-IsForeign

runner_exclusion_example :
    (valid_for_runner controller (ProfileRef.id terraria_tmod) (run rival_steps held_file)).0
    ≡ ok (some (same_profile minecraft terraria_tmod && str_eq "lifecycle" "lifecycle"))
runner_exclusion_example =
    runner_exclusion held rival_steps held_file controller terraria_tmod held-read
      rival_steps-IsForeign held-live

abbrev own_claim : Claim
own_claim = record rival_claim { controller_pid = some (pos 100) }

abbrev renewed : Reservation
renewed = record held { expires_at = finite (pos 1900) }

renewal : (renew_if_owned controller own_claim (finite (pos 900)) held_file).0 ≡ ok renewed
unfolding renew_if_owned identify profile expected_controller owned_live live in_window same_ticks
    ◌+ℤ◌ plus is_owner is_positive is_negative same_profile value same_kind lock_open publish
    atomic_json read new_file read_json reservation_from_json reservation_payload get read_profile
    read_operation_id read_count read_pid read_expiry read_kind read_capability is_kind
    is_capability profile_of_text is_empty
renewal = refl

abbrev handed_to_terraria : Reservation
handed_to_terraria = record held {
  profile_id = terraria_tmod;
  operation_id = "rollback";
  expires_at = finite (pos 1900);
}

transfer :
    (transfer_if_owned controller own_claim
      (ProfileRef.id terraria_tmod)
      "rollback"
      (finite (pos 900))
      held_file).0
    ≡ ok handed_to_terraria
unfolding transfer_if_owned identify profile expected_controller owned ◌+ℤ◌ plus is_owner
    is_positive is_negative same_profile value same_kind lock_open publish atomic_json read new_file
    read_json reservation_from_json reservation_payload get read_profile read_operation_id
    read_count read_pid read_expiry read_kind read_capability is_kind is_capability profile_of_text
    is_empty
transfer = refl

-- A constant function stands for SHA-256.
abbrev zeros : String
zeros = "0000000000000000000000000000000000000000000000000000000000000000"

abbrev update_lease : Reservation
update_lease = record held { operation_kind = "update"; capability_sha256 = some zeros }

abbrev update_file : Entry
update_file = new_file controller (reservation_payload update_lease)

handoff :
    (authorize_handoff
      (λ s. zeros)
      controller
      (ProfileRef.id minecraft)
      zeros
      "update"
      update_file).0
    ≡ ok update_lease
unfolding authorize_handoff capability_digest handed_off is_handed_off has_digest lock_open profile
    live in_window same_ticks ◌+ℤ◌ same_profile value is_hex_64 is_hex_char read_for_admission admit
    is_unsafe new_file read read_json reservation_from_json reservation_payload get read_profile
    read_operation_id read_count read_pid read_expiry read_kind read_capability is_kind
    is_capability profile_of_text is_empty is_negative is_positive
handoff = refl

authorize_handoff-ok_example :
    (read_for_admission update_file ≡ ok (some update_lease))
    × (live controller update_lease ≡ true)
    × (profile (ProfileRef.id minecraft) ≡ some minecraft)
    × (◌≡◌ {A = String} "update" "update")
    × (is_hex_64 zeros ≡ true)
    × (update_lease.capability_sha256 ≡ some zeros)
    × ((authorize_handoff
          (λ s. zeros)
          controller
          (ProfileRef.id minecraft)
          zeros
          "update"
          update_file).1
        ≡ update_file)
authorize_handoff-ok_example =
    authorize_handoff-ok (λ s. zeros) controller (ProfileRef.id minecraft) zeros "update"
      update_file update_lease handoff

-- A file that no reader accepts.
abbrev corrupt_file : Entry
corrupt_file = file (record lock_stat { size = 10 }) unreadable

corrupt_stale : is_taken controller (read corrupt_file) ≡ false
unfolding is_taken read read_json reservation_from_json
corrupt_stale = refl

corrupt_reconciled : (reconcile controller corrupt_file controller corrupt_file).0 ≡ ok true
unfolding reconcile remove_if_stale remove_if_exists unlink lock_open is_taken read read_json
    reservation_from_json
corrupt_reconciled = refl

reconcile-ok_example :
    (◌≡◌ {A = Bool} true true
      → (reconcile controller corrupt_file controller corrupt_file).1 ≡ missing)
    × (◌≡◌ {A = Bool} true false
        → ((reconcile controller corrupt_file controller corrupt_file).1 ≡ corrupt_file)
          × ((is_taken controller (read corrupt_file) ≡ true)
              ⊎ (corrupt_file ≡ missing)
              ⊎ (corrupt_file ≡ dangling)))
reconcile-ok_example =
    reconcile-ok controller controller corrupt_file corrupt_file true corrupt_stale
      corrupt_reconciled

abbrev metadata : Entry
metadata = file lock_stat (
    object (
      ("profile_id", str "minecraft")
      ∷ ("pid", int (pos 321))
      ∷ ("proc_start_ticks", int (pos 7))
      ∷ []))

abbrev minecraft_observed : SlotObservation
minecraft_observed = record {
  owner = some "minecraft";
  pid = some (pos 321);
  proc_start_ticks = some (pos 7);
  inconsistent = false;
}

observed : (observe controller true metadata).0 ≡ ok minecraft_observed
unfolding observe observe_opened observe_held_slot holder lock_open read_json get profile_of_text
    value is_positive is_negative same_ticks
observed = refl

observe-owner_example :
    (◌≡◌ {A = Bool} true true)
    × IsRunning controller metadata minecraft_observed
    × ((observe controller true metadata).1 ≡ metadata)
observe-owner_example =
    observe-owner controller true metadata minecraft_observed "minecraft" observed refl
