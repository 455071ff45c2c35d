-- ===== src/Slot/Lease.antt =====
-- src/game_control/slot.py: what the holder of a reservation may do with it, and what the others
-- see.
use helios_horizon.Common.{
  String, Bool, true, false, not, ◌&&◌, ◌||◌, Option, none, some, str_eq, if◌then◌else◌, ℤ, eqb_ℤ,
}
use helios_horizon.Slot.Values.{
  ProfileId, ProfileRef, profile, same_profile, Float, plus, is_negative, is_positive,
}
use helios_horizon.Slot.Record.{Reservation}
use helios_horizon.Slot.Exec.{
  invalid_profile, no_controller, ownership_changed, Outcome, ok, err, Exec, pure, lift, need,
  outcome, gets, ◌>>=◌, ◌>>◌,
}
use helios_horizon.Slot.Disk.{Entry, Host, transaction, unlink}
use helios_horizon.Slot.Store.{live, read, is_taken, pid_or_own, ticks_or_read, publish}

-- Whom a caller says it is. `operation_kind` is `none` where any kind will do.
pub record Claim : Type 0 where
  pub claimed : ProfileRef
  pub operation_id : String
  pub state_generation : ℤ
  pub operation_kind : Option String
  pub controller_pid : Option ℤ
  pub controller_start_ticks : Option ℤ

-- A claim with its profile, process id and start ticks known.
pub record Owner : Type 0 where
  pub profile_id : ProfileId
  pub operation_id : String
  pub state_generation : ℤ
  pub operation_kind : Option String
  pub controller_pid : ℤ
  pub controller_start_ticks : ℤ

abbrev proven : ℤ → Option ℤ → Outcome (ℤ × ℤ)
proven pid none = err no_controller
proven pid (some ticks) =
    if not (is_positive pid) || is_negative ticks then err no_controller else ok (pid, ticks)

-- `_expected_controller`
unfoldable pub expected_controller : Host → Option ℤ → Option ℤ → Outcome (ℤ × ℤ)
expected_controller host controller_pid controller_start_ticks =
    let pid = pid_or_own host controller_pid in
    proven pid (ticks_or_read host pid controller_start_ticks)

-- The first two lines of each method of an owner.
unfoldable pub identify : Host → Claim → Outcome Owner
identify host c = outcome do
  target ← need invalid_profile (profile c.claimed)
  controller ← lift (expected_controller host c.controller_pid c.controller_start_ticks)
  pure (record {
    profile_id = target;
    operation_id = c.operation_id;
    state_generation = c.state_generation;
    operation_kind = c.operation_kind;
    controller_pid = controller.0;
    controller_start_ticks = controller.1;
  })

-- `operation_kind is None or current.operation_kind == operation_kind`
unfoldable pub same_kind : Option String → String → Bool
same_kind none kind = true
same_kind (some expected) kind = str_eq kind expected

-- The comparison of the reservation with the claim.
unfoldable pub is_owner : Owner → Reservation → Bool
is_owner o r =
    same_profile r.profile_id o.profile_id
    && str_eq r.operation_id o.operation_id
    && eqb_ℤ r.state_generation o.state_generation
    && same_kind o.operation_kind r.operation_kind
    && eqb_ℤ r.controller_pid o.controller_pid
    && eqb_ℤ r.controller_start_ticks o.controller_start_ticks

-- `current is not None and ...`
unfoldable pub owns : Owner → Option Reservation → Bool
owns o none = false
owns o (some r) = is_owner o r

-- The body of `release_if_owned_locked`, and of `release_if_owned` under the lock.
unfoldable pub release_locked : Host → Owner → Exec Entry Bool
release_locked host o entry =
    if owns o (read entry) then (unlink host >> pure true) entry else (ok false, entry)

-- `release_if_owned`
unfoldable pub release_if_owned : Host → Claim → Exec Entry Bool
release_if_owned host c = do o ← lift (identify host c); transaction host (release_locked host o)

-- `release_if_owned_locked`: the caller holds the lock.
unfoldable pub release_if_owned_locked : Host → Claim → Exec Entry Bool
release_if_owned_locked host c = do o ← lift (identify host c); release_locked host o

-- `owns_live`
unfoldable pub owns_live : Host → Claim → Exec Entry Bool
owns_live host c = do
  o ← lift (identify host c)
  transaction host (gets λ entry. owns o (read entry) && is_taken host (read entry))

-- `owns_live_locked`: of an update, with the lock held by the caller.
unfoldable pub owns_live_locked : Host → Claim → Exec Entry Bool
owns_live_locked host c = do
  o ← lift (identify host (record c { operation_kind = some "update" }))
  gets λ entry. owns o (read entry) && is_taken host (read entry)

-- The reservation that the caller owns.
unfoldable pub owned : Owner → Option Reservation → Option Reservation
owned o none = none
owned o (some r) = if is_owner o r then some r else none

-- The owned reservation, if it is live.
unfoldable pub owned_live : Host → Owner → Option Reservation → Option Reservation
owned_live host o none = none
owned_live host o (some r) = if is_owner o r && live host r then some r else none

-- `transfer_if_owned`: the lease may have expired, and any kind will do.
unfoldable pub transfer_if_owned :
    Host → Claim → ProfileRef → String → Float → Exec Entry Reservation
transfer_if_owned host c target target_operation_id ttl = do
  need invalid_profile (profile c.claimed)
  target_profile ← need invalid_profile (profile target)
  o ← lift (identify host (record c { operation_kind = none }))
  transaction host do
    current ← λ entry. need ownership_changed (owned o (read entry)) entry
    publish host (record current {
      profile_id = target_profile;
      operation_id = target_operation_id;
      state_generation = o.state_generation;
      expires_at = plus host.write_time ttl;
    })

-- `renew_if_owned`
unfoldable pub renew_if_owned : Host → Claim → Float → Exec Entry Reservation
renew_if_owned host c ttl = do
  o ← lift (identify host c)
  transaction host do
    current ← λ entry. need ownership_changed (owned_live host o (read entry)) entry
    publish host (record current { expires_at = plus host.write_time ttl })
