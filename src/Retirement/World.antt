-- ===== src/Retirement/World.antt =====
-- What a phase of src/game_control/retirement.py works on: the manifest and its plan, the ledger
-- and the disk, and the answers of the rest of the world.
use helios_horizon.Common.{ℕ, ◌+◌, String, Bool, false, Option, List, map}
use helios_horizon.Program.{Program, returned, raised}
use helios_horizon.Retirement.Payloads.{ManifestEntry, FilePath, archived, retired, Disk}
use helios_horizon.Retirement.Ledger.{Ledger}

-- SafeError with its code and `retryable`, and anything else that ends the operation: an error of
-- the file system or the database, a KeyError, the end of the process.
pub data Fault : Type 0 where
  safe_error : String → Bool → Fault
  interrupted : Fault

abbrev pub refused : Fault
refused = safe_error "retirement_failed" false

-- RemoteMember
pub record RemoteMember : Type 0 where
  pub backup_id : String
  pub profile_id : String
  pub size_bytes : ℕ
  pub sha256 : String

-- RemoteReceipt
pub record RemoteReceipt : Type 0 where
  pub destination_id : String
  pub verified : Bool
  pub verified_at : String
  pub receipt_sha256 : String
  pub members : List RemoteMember

-- RetirementManifest
pub record Manifest : Type 0 where
  pub operation_id : String
  pub entries : List ManifestEntry
  pub receipt : RemoteReceipt

-- The columns of the table backups that are read.
pub record CatalogRow : Type 0 where
  pub profile_id : String
  pub size_bytes : ℕ
  pub verified : ℕ
  pub is_protected : ℕ

-- An effect takes place, or ends in an exception or the end of the process, without it or after it.
pub data Mishap : Type 0 where
  fine before after : Mishap

-- The rest of the world, by the number of the reading: the other tables, the lease, the lock, and
-- what the file system does. `is_certain`: the ancestors of the path can be examined, and the path.
pub record Env : Type 0 where
  pub manifests : String → Option Manifest
  pub is_registered : String → Bool
  pub mishap : ℕ → Mishap
  pub lease_held : ℕ → Bool
  pub lock_free : ℕ → Bool
  pub running_jobs : ℕ → List String
  pub restore_pending : ℕ → Bool
  pub catalog : ℕ → String → Option CatalogRow
  pub has_protection : ℕ → String → Bool
  pub has_confirmation : ℕ → String → Bool
  pub is_certain : ℕ → FilePath → Bool
  pub is_changing : ℕ → FilePath → Bool
  pub ctime_ns : ℕ → ℕ
  pub now : ℕ → ℕ

-- The ledger, the disk, the number of readings and effects so far, whether the lock of the sender
-- is held, and `partial` of `rollback`.
pub record Vault : Type 0 where
  pub ledger : Ledger
  pub disk : Disk
  pub tick : ℕ
  pub locked : Bool
  pub partial : Bool

abbrev pub Script : Type 0 → Type 0
Script A = Program Vault Fault A

abbrev pub after_tick : Vault → Vault
after_tick v = record v { tick = v.tick + 1 }

unfoldable pub ask : {A : Type 0} → (ℕ → A) → Script A
ask g v = (returned (g v.tick), after_tick v)

abbrev pub effected : Mishap → (Vault → Vault) → Script (Unit {0})
effected fine g v = (returned tt, after_tick (g v))
effected before g v = (raised interrupted, after_tick v)
effected after g v = (raised interrupted, after_tick (g v))

unfoldable pub effect : Env → (Vault → Vault) → Script (Unit {0})
effect env g v = effected (env.mishap v.tick) g v

-- PlanEntry
pub record PlanEntry : Type 0 where
  pub entry : ManifestEntry
  pub archive : FilePath
  pub quarantine : FilePath

abbrev pub archive_path : ManifestEntry → FilePath
archive_path e = record { root = e.profile_id; relative = archived e.backup_id }

abbrev pub quarantine_path : String → ManifestEntry → FilePath
quarantine_path op e = record { root = e.profile_id; relative = retired op e.backup_id }

abbrev pub plan_entry : String → ManifestEntry → PlanEntry
plan_entry op e = record { entry = e; archive = archive_path e; quarantine = quarantine_path op e }

-- `_plan`, once `assert_registered` lets it pass
abbrev pub plan : Manifest → List PlanEntry
plan m = map (plan_entry m.operation_id) m.entries
