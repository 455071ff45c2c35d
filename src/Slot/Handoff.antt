-- ===== src/Slot/Handoff.antt =====
-- The handoff of an update lease and the reconciliation of a stale one (src/game_control/slot.py).
use helios_horizon.Common.{
  String, ◌≡◌, ◌⊎◌, inl, inr, Bool, true, false, Option, none, some, arith, Option-cases, eq_iff,
  ap,
}
use helios_horizon.Slot.Values.{ProfileRef, ProfileId, profile, same_profile_sound, is_hex_64}
use helios_horizon.Slot.Record.{Reservation}
use helios_horizon.Slot.Exec.{Outcome-cases, ok}
use helios_horizon.Slot.Disk.{Entry, missing, dangling, unavailable, file, Host, unlink}
use helios_horizon.Slot.Store.{live, read, read_for_admission, is_taken}
use helios_horizon.Slot.Views.{
  capability_digest, has_digest, is_handed_off, handed_off, authorize_handoff, remove_if_exists,
  remove_if_stale, reconcile,
}

has_digest-eq : (c : Option String) (e : String) → has_digest c e ≡ true → c ≡ some e
unfolding has_digest
has_digest-eq (some d) e h = ap some ((eq_iff d e).0 h)
has_digest-eq none e h = cc

is_handed_off-parts :
    (host : Host) (p : ProfileId) (kind expected : String) (r : Reservation)
    → is_handed_off host p kind expected r ≡ true
    → (live host r ≡ true)
      × (r.profile_id ≡ p)
      × (r.operation_kind ≡ kind)
      × (r.capability_sha256 ≡ some expected)
unfolding is_handed_off
is_handed_off-parts host p kind expected r h = ground (
  arith,
  same_profile_sound r.profile_id p,
  eq_iff r.operation_kind kind,
  has_digest-eq r.capability_sha256 expected,
)

handed_off-some :
    (host : Host) (p : ProfileId) (kind expected : String) (found : Option Reservation)
    (r : Reservation)
    → handed_off host p kind expected found ≡ some r
    → (found ≡ some r) × (is_handed_off host p kind expected r ≡ true)
unfolding handed_off
handed_off-some host p kind expected found r h = ground arith

-- An authorised handoff is of the reservation that the admission finds: it is live, of the named
-- profile and kind, its capability is the digest of the token, which is 64 hexadecimal digits, and
-- the file stays as it was.
pub authorize_handoff-ok :
    (sha256 : String → String) (host : Host) (target : ProfileRef) (token kind : String)
    (entry : Entry) (r : Reservation)
    → (authorize_handoff sha256 host target token kind entry).0 ≡ ok r
    → (read_for_admission entry ≡ ok (some r))
      × (live host r ≡ true)
      × (profile target ≡ some r.profile_id)
      × (r.operation_kind ≡ kind)
      × (is_hex_64 token ≡ true)
      × (r.capability_sha256 ≡ some (sha256 token))
      × ((authorize_handoff sha256 host target token kind entry).1 ≡ entry)
unfolding authorize_handoff capability_digest
authorize_handoff-ok sha256 host target token kind entry r h =
    elim (Option-cases (profile target)) [
      | inl bad ↦ ground arith
      | inr (p, good) ↦ elim (Outcome-cases (read_for_admission entry)) [
        | inr (e, bad) ↦ ground arith
        | inl (found, admitted) ↦ ground (
          arith,
          handed_off-some host p kind (sha256 token) found r,
          is_handed_off-parts host p kind (sha256 token) r,
        )
      ]
    ]

remove_if_stale-ok :
    (host : Host) (entry : Entry) (removed : Bool)
    → (remove_if_stale host entry).0 ≡ ok removed
    → (removed ≡ true → (remove_if_stale host entry).1 ≡ missing)
      × (removed ≡ false
          → ((remove_if_stale host entry).1 ≡ entry)
            × ((is_taken host (read entry) ≡ true) ⊎ (entry ≡ missing) ⊎ (entry ≡ dangling)))
unfolding remove_if_stale remove_if_exists unlink
remove_if_stale-ok host missing removed h = ground arith
remove_if_stale-ok host dangling removed h = ground arith
remove_if_stale-ok host unavailable removed h = ground arith
remove_if_stale-ok host (file info document) removed h = ground arith

-- If the first look finds nothing live and the call does not raise, then True means that the entry
-- is gone, and False that it is as it was, and is a live reservation, nothing, or a dangling link.
pub reconcile-ok :
    (before host : Host) (seen entry : Entry) (removed : Bool)
    → is_taken before (read seen) ≡ false
    → (reconcile before seen host entry).0 ≡ ok removed
    → (removed ≡ true → (reconcile before seen host entry).1 ≡ missing)
      × (removed ≡ false
          → ((reconcile before seen host entry).1 ≡ entry)
            × ((is_taken host (read entry) ≡ true) ⊎ (entry ≡ missing) ⊎ (entry ≡ dangling)))
unfolding reconcile
reconcile-ok before host seen entry removed stale h =
    ground (arith, remove_if_stale-ok host entry removed)
