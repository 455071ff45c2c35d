-- ===== src/Slot/Inspector.antt =====
-- src/game_control/slot.py: `SlotInspector`, which tells who holds the slot lock.
use mathlib.Core.Path.{subst}
use helios_horizon.Common.{
  String, ◌≡◌, Bool, true, false, not, ◌&&◌, Option, Option-cases, inl, inr, ◌⊎◌, ◌∙◌, none, some,
  if◌then◌else◌, arith, ap, ℤ, pos, Dict, get, eqb_ℤ_iff,
}
use helios_horizon.Slot.Values.{
  ProfileId, value, profile_of_text, Value, str, int, bool, is_negative, is_positive,
}
use helios_horizon.Slot.Exec.{os_error, ok, err, Exec, Outcome-cases, pure, continue}
use helios_horizon.Slot.Disk.{
  Entry, missing, dangling, file, unavailable, read_json, Host, lock_open,
}
use helios_horizon.Slot.Store.{same_ticks}

pub record SlotObservation : Type 0 where
  pub owner : Option String
  pub pid : Option ℤ
  pub proc_start_ticks : Option ℤ
  pub inconsistent : Bool

abbrev pub unowned : Bool → SlotObservation
unowned inconsistent = record {
  owner = none;
  pid = none;
  proc_start_ticks = none;
  inconsistent = inconsistent;
}

-- `_profile` of a value; what is no text is no profile.
abbrev as_profile : Value → Option ProfileId
as_profile (str t) = profile_of_text t
as_profile _ = none

-- `raw.get("profile_id", raw.get("profile"))`
abbrev first_of : Option Value → Option Value → Option Value
first_of (some v) other = some v
first_of none other = other

-- `isinstance(v, int)`: a bool passes here, as 0 or 1.
abbrev as_int : Option Value → Option ℤ
as_int (some (int n)) = some n
as_int (some (bool true)) = some (pos 1)
as_int (some (bool false)) = some (pos 0)
as_int _ = none

infixl 5 ◌>>=◌
abbrev ◌>>=◌ {ℓ κ} : {A : Type ℓ} {B : Type κ} → Option A → (A → Option B) → Option B
some a >>= f = f a
none >>= f = none

-- The `try` block of `_observe_held_slot`; `none` is any of the exceptions it catches.
unfoldable pub holder : Host → Dict Value → Option (ProfileId × ℤ × ℤ)
holder host raw = do
  named ← first_of (get raw "profile_id") (get raw "profile")
  owner ← as_profile named
  pid ← as_int (get raw "pid")
  ticks ← as_int (get raw "proc_start_ticks")
  if is_positive pid && not (is_negative ticks) && same_ticks (host.start_ticks pid) ticks
      then some (owner, pid, ticks)
      else none

abbrev report : Option (ProfileId × ℤ × ℤ) → SlotObservation
report none = unowned true
report (some (owner, pid, ticks)) = record {
  owner = some (value owner);
  pid = some pid;
  proc_start_ticks = some ticks;
  inconsistent = false;
}

abbrev held_report : Host → Option (Dict Value) → SlotObservation
held_report host none = unowned true
held_report host (some raw) = report (holder host raw)

-- `_observe_held_slot`
unfoldable pub observe_held_slot : Host → Entry → SlotObservation
observe_held_slot host metadata = held_report host (read_json metadata)

-- `_clear_metadata`: FileNotFoundError is ignored, another OSError is not.
unfoldable pub clear_metadata : Exec Entry (Unit {0})
clear_metadata unavailable = (err os_error, unavailable)
clear_metadata _ = (ok tt, missing)

-- What `observe` does with the lock file open: `held` says that another process has the lock.
unfoldable pub observe_opened : Host → Bool → Exec Entry SlotObservation
observe_opened host true metadata = (ok (observe_held_slot host metadata), metadata)
observe_opened host false metadata =
    let (cleared, after) = clear_metadata metadata in
    continue cleared (λ _. pure (unowned false)) after

-- `observe`, where the host's lock file is the slot's.
unfoldable pub observe : Host → Bool → Exec Entry SlotObservation
observe host held metadata = continue (lock_open host) (λ _. observe_opened host held) metadata

clear_metadata-ok :
    (metadata : Entry)
    → ((clear_metadata metadata).0 ≡ ok tt) ⊎ ((clear_metadata metadata).0 ≡ err os_error)
unfolding clear_metadata
clear_metadata-ok unavailable = inr (λ i. err os_error)
clear_metadata-ok missing = inl (λ i. ok tt)
clear_metadata-ok dangling = inl (λ i. ok tt)
clear_metadata-ok (file info document) = inl (λ i. ok tt)

same_ticks_eq : (found : Option ℤ) (ticks : ℤ) → same_ticks found ticks ≡ true → found ≡ some ticks
unfolding same_ticks
same_ticks_eq (some t) ticks h = ap some ((eqb_ℤ_iff t ticks).0 h)
same_ticks_eq none ticks h = cc

-- The profile, the process and its start ticks are what the entries of the document give.
abbrev Given : Dict Value → ProfileId → ℤ → ℤ → Type 0
Given raw p pid ticks =
    ((v : Value) × ((get raw "profile_id" ≡ some v)
        ⊎ ((get raw "profile_id" ≡ none) × (get raw "profile" ≡ some v)))
      × (as_profile v ≡ some p))
    × (as_int (get raw "pid") ≡ some pid)
    × (as_int (get raw "proc_start_ticks") ≡ some ticks)

first_of-given :
    (a b : Option Value) (v : Value)
    → first_of a b ≡ some v
    → (a ≡ some v) ⊎ ((a ≡ none) × (b ≡ some v))
first_of-given none b v h = inr (λ i. none, h)
first_of-given (some w) b v h = inl h

holder-Given :
    (host : Host) (raw : Dict Value) (p : ProfileId) (pid ticks : ℤ)
    → holder host raw ≡ some (p, pid, ticks)
    → (host.start_ticks pid ≡ some ticks) × Given raw p pid ticks
unfolding holder
holder-Given host raw p pid ticks h =
    elim (Option-cases (first_of (get raw "profile_id") (get raw "profile"))) [
      | inl unnamed ↦ absurd (ground (arith, h, unnamed))
      | inr (v, named) ↦ (
        ground (arith, named, same_ticks_eq (host.start_ticks pid) ticks),
        (
          (
            v,
            first_of-given (get raw "profile_id") (get raw "profile") v named,
            ground (arith, named),
          ),
          ground (arith, named),
          ground (arith, named),
        ),
      )
    ]

-- The observation names the profile and the process of the metadata, and the process runs with the
-- start ticks that are given there.
pub record IsRunning (host : Host) (metadata : Entry) (o : SlotObservation) : Type 0 where
  pub raw : Dict Value
  pub some_profile : ProfileId
  pub some_pid : ℤ
  pub some_ticks : ℤ
  pub document : read_json metadata ≡ some raw
  pub given : Given raw some_profile some_pid some_ticks
  pub owner_known : o.owner ≡ some (value some_profile)
  pub pid_known : o.pid ≡ some some_pid
  pub ticks_known : o.proc_start_ticks ≡ some some_ticks
  pub running : host.start_ticks some_pid ≡ some some_ticks
  pub consistent : o.inconsistent ≡ false

held_report-IsRunning :
    (host : Host) (metadata : Entry) (found : Option (Dict Value)) (name : String)
    → read_json metadata ≡ found
    → (held_report host found).owner ≡ some name
    → IsRunning host metadata (held_report host found)
held_report-IsRunning host metadata none name e h = cc
held_report-IsRunning host metadata (some raw) name e h = elim (Option-cases (holder host raw)) [
  | inl other ↦ absurd (not_named (rw other at h))
  | inr ((p, pid, ticks), found) ↦ rw found (record {
    raw = raw;
    some_profile = p;
    some_pid = pid;
    some_ticks = ticks;
    document = e;
    given = (holder-Given host raw p pid ticks found).1;
    owner_known = λ i. some (value p);
    pid_known = λ i. some pid;
    ticks_known = λ i. some ticks;
    running = (holder-Given host raw p pid ticks found).0;
    consistent = λ i. false;
  })
]
  where
    not_named : none ≡ some name → ⊥
    not_named e = cc

observe_opened-owner :
    (host : Host) (held : Bool) (metadata : Entry) (o : SlotObservation) (name : String)
    → (observe_opened host held metadata).0 ≡ ok o
    → o.owner ≡ some name
    → (held ≡ true) × IsRunning host metadata o × ((observe_opened host held metadata).1 ≡ metadata)
unfolding observe_opened observe_held_slot
observe_opened-owner host true metadata o name h n =
    let same : held_report host (read_json metadata) ≡ o = cc in
    let named = ap (λ (x : SlotObservation). x.owner) same ∙ n in
    (
      λ i. true,
      subst (IsRunning host metadata) same (
          held_report-IsRunning host metadata (read_json metadata) name (λ i. read_json metadata)
            named),
      λ i. metadata,
    )
observe_opened-owner host false metadata o name h n = ground (arith, clear_metadata-ok metadata)

-- An owner is named only while another process holds the lock. Then it is the profile under
-- `profile_id` of the metadata, or without that key under `profile`, the process under `pid` runs
-- with the start ticks under `proc_start_ticks`, and both are reported; the metadata stays.
pub observe-owner :
    (host : Host) (held : Bool) (metadata : Entry) (o : SlotObservation) (name : String)
    → (observe host held metadata).0 ≡ ok o
    → o.owner ≡ some name
    → (held ≡ true) × IsRunning host metadata o × ((observe host held metadata).1 ≡ metadata)
unfolding observe
observe-owner host held metadata o name h n = elim (Outcome-cases (lock_open host)) [
  | inr (e, shut) ↦ ground arith
  | inl (t, unlocked) ↦
      rw unlocked (observe_opened-owner host held metadata o name (rw unlocked at h) n)
]
