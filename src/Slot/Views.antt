-- ===== src/Slot/Views.antt =====
-- src/game_control/slot.py: the handoff, what runners and the status page see, and reconciliation.
use helios_horizon.Common.{
  String, Bool, true, false, not, ◌&&◌, Option, none, some, str_eq, if◌then◌else◌, ◌==◌,
}
use helios_horizon.Slot.Values.{ProfileId, ProfileRef, profile, same_profile, is_hex_64}
use helios_horizon.Slot.Record.{Reservation, is_kind}
use helios_horizon.Slot.Exec.{
  not_root, invalid_profile, invalid_kind, invalid_capability, handoff_mismatch, os_error, ok, err,
  Exec, pure, need, gets, reject, ◌>>=◌, ◌>>◌,
}
use helios_horizon.Slot.Disk.{
  Entry, missing, dangling, unavailable, file, Host, transaction, unlink,
}
use helios_horizon.Slot.Store.{live, read, read_for_admission, is_taken}

-- `hmac.compare_digest(current.capability_sha256, expected)`, of a capability that is there
unfoldable pub has_digest : Option String → String → Bool
has_digest none expected = false
has_digest (some digest) expected = str_eq digest expected

unfoldable pub is_handed_off : Host → ProfileId → String → String → Reservation → Bool
is_handed_off host target kind expected r =
    live host r
    && same_profile r.profile_id target
    && str_eq r.operation_kind kind
    && has_digest r.capability_sha256 expected

-- The reservation that `authorize_handoff` accepts.
unfoldable pub handed_off :
    Host → ProfileId → String → String → Option Reservation → Option Reservation
handed_off host target kind expected none = none
handed_off host target kind expected (some r) =
    if is_handed_off host target kind expected r then some r else none

-- The digest is `hashlib.sha256`, in hexadecimal.
module _ (sha256 : String → String) where
  -- `_capability_digest`
  unfoldable pub capability_digest : String → Option String
  capability_digest token = if is_hex_64 token then some (sha256 token) else none

  -- `authorize_handoff`
  unfoldable pub authorize_handoff : Host → ProfileRef → String → String → Exec Entry Reservation
  authorize_handoff host target token kind = do
    target_profile ← need invalid_profile (profile target)
    reject (not (is_kind kind)) invalid_kind
    expected ← need invalid_capability (capability_digest token)
    transaction host do
      current ← λ entry. (read_for_admission entry, entry)
      need handoff_mismatch (handed_off host target_profile kind expected current)

-- What a runner of a profile is told of the reservation.
unfoldable pub runner_view : Host → ProfileId → Option Reservation → Option Bool
runner_view host requested none = none
runner_view host requested (some r) =
    if live host r
    then some (same_profile r.profile_id requested && str_eq r.operation_kind "lifecycle")
    else none

-- `valid_for_runner`: `none` is None, an absent or stale reservation.
unfoldable pub valid_for_runner : Host → ProfileRef → Exec Entry (Option Bool)
valid_for_runner host target = do
  requested ← need invalid_profile (profile target)
  gets λ entry. runner_view host requested (read entry)

-- The profile argument of `live_update`: none, one that is no profile, or a profile.
pub data Filter : Type 0 where
  anyone nobody : Filter
  only : ProfileId → Filter

-- `None if profile is None else _profile(profile)`, with the ValueError caught
unfoldable pub filter_of : Option ProfileRef → Filter
filter_of none = anyone
filter_of (some target) = elim (profile target) [ none ↦ nobody | some p ↦ only p ]

unfoldable pub passes : Filter → ProfileId → Bool
passes anyone p = true
passes nobody p = false
passes (only q) p = same_profile p q

unfoldable pub select_update : Host → Filter → Option Reservation → Option Reservation
select_update host requested none = none
select_update host requested (some r) =
    if str_eq r.operation_kind "update" && passes requested r.profile_id && live host r
    then some r
    else none

-- `live_update`
unfoldable pub live_update : Host → Option ProfileRef → Entry → Option Reservation
live_update host target entry = select_update host (filter_of target) (read entry)

-- `self.reservation_path.exists()`, and the removal: True if something was removed.
unfoldable pub remove_if_exists : Host → Exec Entry Bool
remove_if_exists host missing = (ok false, missing)
remove_if_exists host dangling = (ok false, dangling)
remove_if_exists host unavailable = (err os_error, unavailable)
remove_if_exists host (file info document) = (unlink host >> pure true) (file info document)

-- The second look of `reconcile`, under the lock.
unfoldable pub remove_if_stale : Host → Exec Entry Bool
remove_if_stale host entry =
    if is_taken host (read entry) then (ok false, entry) else remove_if_exists host entry

-- `reconcile`. `seen` is the entry at the first read, which takes no lock, on the host as it was
-- then; the rest is under the lock, on what stands there by then.
unfoldable pub reconcile : Host → Entry → Host → Exec Entry Bool
reconcile before seen host = do
  reject (not (before.euid == 0)) not_root
  if is_taken before (read seen) then pure false else transaction host (remove_if_stale host)
