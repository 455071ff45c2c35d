-- ===== src/Retirement/Payloads.antt =====
-- The states of a payload, its identity and its files, after PayloadState, ManifestEntry and
-- `_TRANSITIONS` of src/game_control/retirement.py.
use helios_horizon.Common.{
  ℕ, String, Bool, true, false, ◌&&◌, ◌||◌, Option, none, some, List, [], ◌∷◌, str_eq, ◌==◌,
}

pub data PayloadState : Type 0 where
  present missing prepared quarantined purge_prepared purged rolled_back failed ambiguous :
      PayloadState

abbrev number : PayloadState → ℕ
number present = 0
number missing = 1
number prepared = 2
number quarantined = 3
number purge_prepared = 4
number purged = 5
number rolled_back = 6
number failed = 7
number ambiguous = 8

abbrev pub same_payload_state : PayloadState → PayloadState → Bool
same_payload_state s t = number s == number t

abbrev pub one_of : PayloadState → List PayloadState → Bool
one_of s [] = false
one_of s (t ∷ ts) = same_payload_state s t || one_of s ts

abbrev pub ledger_states : List PayloadState
ledger_states =
    prepared ∷ quarantined ∷ purge_prepared ∷ purged ∷ rolled_back ∷ failed ∷ ambiguous ∷ []

-- BLOCKING_STATES
abbrev pub blocking_states : List PayloadState
blocking_states = prepared ∷ quarantined ∷ purge_prepared ∷ purged ∷ failed ∷ ambiguous ∷ []

-- `_TRANSITIONS`
abbrev pub transitions : PayloadState → List PayloadState
transitions prepared = prepared ∷ quarantined ∷ failed ∷ []
transitions quarantined = quarantined ∷ purge_prepared ∷ rolled_back ∷ failed ∷ []
transitions purge_prepared = purge_prepared ∷ purged ∷ failed ∷ []
transitions purged = purged ∷ []
transitions rolled_back = rolled_back ∷ prepared ∷ failed ∷ []
transitions failed = failed ∷ prepared ∷ []
transitions ambiguous = ambiguous ∷ prepared ∷ []
transitions s = []

pub data Phase : Type 0 where
  quarantine_phase purge_phase rollback_phase : Phase

-- `_PHASE_RESUMABLE`
abbrev pub phase_resumable : Phase → List PayloadState
phase_resumable quarantine_phase = prepared ∷ quarantined ∷ rolled_back ∷ []
phase_resumable purge_phase = quarantined ∷ purge_prepared ∷ purged ∷ []
phase_resumable rollback_phase = prepared ∷ quarantined ∷ rolled_back ∷ []

-- The identity that a manifest entry and a row of the ledger pin.
pub record Identity : Type 0 where
  pub device : ℕ
  pub inode : ℕ
  pub size_bytes : ℕ
  pub mtime_ns : ℕ
  pub ctime_ns : ℕ
  pub sha256 : String

abbrev pub same_identity : Identity → Identity → Bool
same_identity i j =
    i.device == j.device
    && i.inode == j.inode
    && i.size_bytes == j.size_bytes
    && i.mtime_ns == j.mtime_ns
    && i.ctime_ns == j.ctime_ns
    && str_eq i.sha256 j.sha256

-- ManifestEntry
pub record ManifestEntry : Type 0 where
  pub backup_id : String
  pub profile_id : String
  pub identity : Identity

-- A path below the backup root of a profile: `<backup>.tar.zst`, and
-- `.retired/<operation>/<backup>.tar.zst`.
pub data Relative : Type 0 where
  archived : String → Relative
  retired : String → String → Relative

abbrev pub same_relative : Relative → Relative → Bool
same_relative (archived a) (archived b) = str_eq a b
same_relative (retired o a) (retired p b) = str_eq o p && str_eq a b
same_relative q r = false

pub record FilePath : Type 0 where
  pub root : String
  pub relative : Relative

abbrev pub same_path : FilePath → FilePath → Bool
same_path p q = str_eq p.root q.root && same_relative p.relative q.relative

-- What `lstat` tells of a file that is there, its content, and whether `exists`, which follows
-- symbolic links, finds it.
pub record Node : Type 0 where
  pub regular : Bool
  pub links : ℕ
  pub found : Bool
  pub identity : Identity

abbrev pub Disk : Type 0
Disk = FilePath → Option Node

abbrev pub is_gone : Option Node → Bool
is_gone none = true
is_gone (some n) = false

-- A single regular file with this identity, but for its change time.
abbrev pub is_single : Node → Bool
is_single n = n.regular && n.links == 1

-- The checks at the end of `_verify_payload`.
abbrev pub has_identity : Identity → Identity → Bool
has_identity i j =
    i.device == j.device
    && i.inode == j.inode
    && i.size_bytes == j.size_bytes
    && i.mtime_ns == j.mtime_ns
    && str_eq i.sha256 j.sha256

abbrev pub is_payload : Identity → Option Node → Bool
is_payload i none = false
is_payload i (some n) = is_single n && has_identity n.identity i
