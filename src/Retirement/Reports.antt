-- ===== src/Retirement/Reports.antt =====
-- The read-only reports of src/game_control/retirement.py: what is available, and how the payload
-- of a row that is under way is classified.
use helios_horizon.Common.{
  ℕ, suc, String, Bool, false, not, ◌&&◌, Option, none, some, List, [], ◌∷◌, ◌==◌, if◌then◌else◌,
  Dict, get, put,
}
use helios_horizon.Retirement.Payloads.{
  PayloadState, present, missing, prepared, quarantined, purge_prepared, failed, ambiguous,
  same_payload_state, one_of, ledger_states, blocking_states, Identity, FilePath, archived, Node,
  Disk, is_gone, is_single,
}
use helios_horizon.Retirement.Ledger.{LedgerRow, Ledger, ledger_rows}
use helios_horizon.Retirement.World.{Env, Vault}

-- `_matches`: a single regular file with the identity of the row, but for its content.
abbrev pub same_stat : Identity → Identity → Bool
same_stat i j =
    i.device == j.device
    && i.inode == j.inode
    && i.size_bytes == j.size_bytes
    && i.mtime_ns == j.mtime_ns

abbrev pub matches_row : Option Node → Identity → Bool
matches_row none i = false
matches_row (some n) i = is_single n && same_stat n.identity i

-- `_archive` of the backup of a row
abbrev pub archive_of : LedgerRow → FilePath
archive_of r = record { root = r.profile_id; relative = archived r.backup_id }

-- What is at the path that `_quarantine_path` makes of the row, if it makes one.
abbrev pub quarantine_node : Disk → LedgerRow → Option Node
quarantine_node disk r = elim r.quarantine_path [
  | none ↦ none
  | some p ↦ disk (record { root = r.profile_id; relative = p })
]

-- One round of `availability_map`; `none` leaves the backup out.
abbrev pub availability_of : Env → Disk → LedgerRow → Option PayloadState
availability_of env disk r =
    if not (one_of r.state ledger_states)
    then some ambiguous
    else if one_of r.state blocking_states
    then some r.state
    else if not (env.is_registered r.profile_id)
    then some failed
    else if not (matches_row (disk (archive_of r)) r.expected)
    then some failed
    else none

unfoldable pub availability_map : Env → Disk → Ledger → Dict PayloadState → Dict PayloadState
availability_map env disk [] states = states
availability_map env disk (r ∷ rows) states =
    availability_map env disk rows
      (elim (availability_of env disk r) [ none ↦ states | some s ↦ put states r.backup_id s ])

abbrev pub seen : Option Node → PayloadState
seen none = missing
seen (some n) = if is_single n then present else missing

abbrev pub payload_state : Env → Vault → String → String → PayloadState
payload_state env v profile_id b = elim (get (availability_map env v.disk v.ledger []) b) [
  | some s ↦ s
  | none ↦ seen (v.disk (record { root = profile_id; relative = archived b }))
]

-- The source calls the last two `ambiguous` and `failed`.
pub data Classification : Type 0 where
  unknown_profile prepared_source_intact quarantine_completed quarantined_intact source_present
        purge_pending purged_proven uncertain lost :
      Classification

abbrev pub classify_prepared : Bool → Bool → Classification
classify_prepared archive_ok quarantine_ok =
    if archive_ok
    then prepared_source_intact
    else if quarantine_ok
    then quarantine_completed
    else lost

abbrev pub classify_quarantined : Bool → Bool → Classification
classify_quarantined archive_ok quarantine_ok =
    if quarantine_ok then quarantined_intact else if archive_ok then source_present else lost

abbrev pub classify_purge : Bool → Bool → Bool → Classification
classify_purge quarantine_ok archive_absent quarantine_absent =
    if quarantine_ok
    then purge_pending
    else if archive_absent && quarantine_absent
    then purged_proven
    else uncertain

-- A path is absent for certain: `_absent`.
abbrev pub is_absent : Env → Vault → FilePath → Bool
is_absent env v p = is_gone (v.disk p) && env.is_certain v.tick p

abbrev pub is_quarantine_absent : Env → Vault → LedgerRow → Bool
is_quarantine_absent env v r = elim r.quarantine_path [
  | none ↦ false
  | some p ↦ is_absent env v (record { root = r.profile_id; relative = p })
]

-- One round of `_classify`, for a row that is under way.
abbrev pub classify_row : Env → Vault → LedgerRow → Classification
classify_row env v r =
    let archive_ok = matches_row (v.disk (archive_of r)) r.expected in
    let quarantine_ok = matches_row (quarantine_node v.disk r) r.expected in
    if not (env.is_registered r.profile_id)
    then unknown_profile
    else if same_payload_state r.state prepared
    then classify_prepared archive_ok quarantine_ok
    else if same_payload_state r.state quarantined
    then classify_quarantined archive_ok quarantine_ok
    else classify_purge quarantine_ok (is_absent env v (archive_of r))
        (is_quarantine_absent env v r)

-- `_classify`, in the order of the rows: the source sorts by backup.
unfoldable pub classify : Env → Vault → Ledger → List (LedgerRow × Classification)
classify env v [] = []
classify env v (r ∷ rows) =
    let rest = classify env v rows in
    if one_of r.state (prepared ∷ quarantined ∷ purge_prepared ∷ [])
    then (r, classify_row env v r) ∷ rest
    else rest

abbrev pub reconcile_rows : Env → Vault → List (LedgerRow × Classification)
reconcile_rows env v = classify env v v.ledger

abbrev pub count_state : PayloadState → Ledger → ℕ
count_state s [] = 0
count_state s (r ∷ rows) =
    let rest = count_state s rows in if same_payload_state r.state s then suc rest else rest

-- RetirementReport
pub record Report : Type 0 where
  pub operation_id : String
  pub counts : PayloadState → ℕ
  pub entries : List LedgerRow
  pub reconciled : List (LedgerRow × Classification)
  pub availability : Dict PayloadState
  pub partial : Bool

abbrev pub status : Env → Vault → String → Report
status env v op =
    let rows = ledger_rows op v.ledger in
    record {
      operation_id = op;
      counts = λ s. count_state s rows;
      entries = rows;
      reconciled = classify env v rows;
      availability = availability_map env v.disk v.ledger [];
      partial = false;
    }
