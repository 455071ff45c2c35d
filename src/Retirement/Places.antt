-- ===== src/Retirement/Places.antt =====
-- Where the payload of an entry is, by the state of its row in the ledger of
-- src/game_control/retirement.py, and what the steps of the phases make of that.
use helios_horizon.Common.{
  ℕ, String, ◌≡◌, refl, Bool, true, false, Option, none, some, ◌⊎◌, arith, str_eq, eq_refl,
}
use helios_horizon.Retirement.Payloads.{
  PayloadState, prepared, quarantined, purge_prepared, purged, rolled_back, Identity, ManifestEntry,
  FilePath, Relative, archived, retired, same_path, same_relative, Node, same_payload_state, one_of,
  Phase, phase_resumable, Disk, is_gone, is_payload,
}
use helios_horizon.Retirement.Ledger.{LedgerRow, recorded}
use helios_horizon.Retirement.World.{Manifest, Vault, archive_path, quarantine_path}
use helios_horizon.Retirement.Assertions.{is_receipt, is_at}
use helios_horizon.Retirement.Steps.{put_node, renamed}

-- A predicate of the row of an entry and of what is at its archive path and its quarantine path.
abbrev pub Facts : Type 1
Facts = Option LedgerRow → Option Node → Option Node → Type 0

-- The payload is at one of its two places, and nothing is at the other.
abbrev pub IsLocated : Identity → Option Node → Option Node → Type 0
IsLocated i a q =
    ((is_payload i a ≡ true) × (is_gone q ≡ true)) ⊎ ((is_payload i q ≡ true) × (is_gone a ≡ true))

-- What the state of a row says of the two places; `c`: the manifest has a receipt of every entry.
abbrev pub Stands : PayloadState → Bool → Identity → Option Node → Option Node → Type 0
Stands prepared c i a q = IsLocated i a q
Stands quarantined c i a q = IsLocated i a q
Stands purge_prepared c i a q =
    (is_gone a ≡ true) × ((is_payload i q ≡ true) ⊎ (is_gone q ≡ true)) × (c ≡ true)
Stands purged c i a q = (is_gone a ≡ true) × (is_gone q ≡ true) × (c ≡ true)
Stands rolled_back c i a q = (is_payload i a ≡ true) × (is_gone q ≡ true)
Stands s c i a q = ⊥

-- The row pins the identity and the paths of the entry.
abbrev pub Describes : String → ManifestEntry → LedgerRow → Type 0
Describes op e r =
    (r.profile_id ≡ e.profile_id)
    × (r.expected ≡ e.identity)
    × (r.path ≡ archived e.backup_id)
    × (r.quarantine_path ≡ some (retired op e.backup_id))

-- The invariant of an entry: before it has a row its payload is at its archive path.
abbrev pub Fits : Manifest → ManifestEntry → Facts
Fits m e none a q = (is_payload e.identity a ≡ true) × (is_gone q ≡ true)
Fits m e (some r) a q = Describes m.operation_id e r × Stands r.state (is_receipt m) e.identity a q

abbrev pub Over : String → ManifestEntry → Facts → Vault → Type 0
Over op e P v =
    P (recorded op e.backup_id v.ledger) (v.disk (archive_path e)) (v.disk (quarantine_path op e))

-- The invariant in a state of the ledger and the disk.
abbrev pub Kept : Manifest → ManifestEntry → Vault → Type 0
Kept m e = Over m.operation_id e (Fits m e)

-- The row is in a state in which the phase may go on.
abbrev pub is_admitted : Phase → Option LedgerRow → Bool
is_admitted phase none = true
is_admitted phase (some r) = one_of r.state (phase_resumable phase)

same_relative_refl : (r : Relative) → same_relative r r ≡ true
same_relative_refl (archived b) = eq_refl b
same_relative_refl (retired o b) = ground (arith, eq_refl o, eq_refl b)

same_path_refl : (p : FilePath) → same_path p p ≡ true
same_path_refl p = ground (arith, eq_refl p.root, same_relative_refl p.relative)

pub put_node-same : (p : FilePath) (n : Option Node) (disk : Disk) → put_node p n disk p ≡ n
put_node-same p n disk = rw (same_path_refl p)

pub put_node-other :
    (p q : FilePath) (n : Option Node) (disk : Disk)
    → same_path p q ≡ false
    → put_node p n disk q ≡ disk q
put_node-other p q n disk h = rw h

pub is_payload-renamed :
    (i : Identity) (t : ℕ) (n : Option Node) → is_payload i (renamed t n) ≡ is_payload i n
is_payload-renamed i t none = refl
is_payload-renamed i t (some n) = refl

pub is_payload-there : (i : Identity) (n : Option Node) → is_payload i n ≡ true → is_gone n ≡ false
is_payload-there i none h = ground arith
is_payload-there i (some n) h = refl

pub archive_apart :
    (op : String) (e : ManifestEntry)
    → (same_path (archive_path e) (quarantine_path op e) ≡ false)
      × (same_path (quarantine_path op e) (archive_path e) ≡ false)
archive_apart op e = ground arith

-- The paths of an entry are not those of another backup.
pub paths_apart :
    (op : String) (x e : ManifestEntry)
    → str_eq x.backup_id e.backup_id ≡ false
    → (same_path (archive_path x) (archive_path e) ≡ false)
      × (same_path (archive_path x) (quarantine_path op e) ≡ false)
      × (same_path (quarantine_path op x) (archive_path e) ≡ false)
      × (same_path (quarantine_path op x) (quarantine_path op e) ≡ false)
paths_apart op x e h = ground arith

-- No state is two states.
pub is_at-exclusive :
    (s t : PayloadState) (o : Option PayloadState) {A : Type 0}
    → same_payload_state s t ≡ false
    → is_at s o ≡ true
    → is_at t o ≡ true
    → A
is_at-exclusive s t none n h k = ground arith
is_at-exclusive s t (some u) n h k = ground arith
