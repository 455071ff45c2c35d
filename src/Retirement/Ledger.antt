-- ===== src/Retirement/Ledger.antt =====
-- The durable ledger of retirements, the table backup_payload_retirement, and `ledger_write` of
-- src/game_control/retirement.py.
use helios_horizon.Common.{
  ℕ, String, Bool, false, not, ◌&&◌, ◌||◌, Option, none, some, List, [], ◌∷◌, str_eq, if◌then◌else◌,
}
use helios_horizon.Retirement.Payloads.{
  PayloadState, Identity, same_identity, same_relative, Relative, one_of, transitions,
  blocking_states,
}

pub record LedgerRow : Type 0 where
  pub operation_id : String
  pub backup_id : String
  pub profile_id : String
  pub state : PayloadState
  pub path : Relative
  pub quarantine_path : Option Relative
  pub expected : Identity
  pub manifest_sha256 : String
  pub created_at : ℕ
  pub updated_at : ℕ
  pub error_code : Option String

abbrev pub Ledger : Type 0
Ledger = List LedgerRow

-- The primary key of the table.
abbrev pub is_keyed : String → String → LedgerRow → Bool
is_keyed op b r = str_eq r.operation_id op && str_eq r.backup_id b

-- The row of a backup in an operation.
unfoldable pub recorded : String → String → Ledger → Option LedgerRow
recorded op b [] = none
recorded op b (r ∷ rows) = let rest = recorded op b rows in if is_keyed op b r then some r else rest

-- `ledger_rows` for one operation
unfoldable pub ledger_rows : String → Ledger → List LedgerRow
ledger_rows op [] = []
ledger_rows op (r ∷ rows) =
    let rest = ledger_rows op rows in if str_eq r.operation_id op then r ∷ rest else rest

unfoldable pub blocking_backup_ids : Ledger → List String
blocking_backup_ids [] = []
blocking_backup_ids (r ∷ rows) =
    let rest = blocking_backup_ids rows in
    if one_of r.state blocking_states then r.backup_id ∷ rest else rest

-- `_same_identity`
abbrev pub same_row_identity : LedgerRow → LedgerRow → Bool
same_row_identity r s =
    str_eq r.profile_id s.profile_id
    && same_relative r.path s.path
    && same_identity r.expected s.expected
    && str_eq r.manifest_sha256 s.manifest_sha256

-- Another operation has a blocking row of the backup.
unfoldable pub is_claimed : String → String → Ledger → Bool
is_claimed op b [] = false
is_claimed op b (r ∷ rows) =
    let rest = is_claimed op b rows in
    str_eq r.backup_id b && not (str_eq r.operation_id op) && one_of r.state blocking_states || rest

-- ON CONFLICT DO UPDATE: the time of creation stays.
abbrev pub updated : LedgerRow → LedgerRow → LedgerRow
updated old r = record r { created_at = old.created_at }

unfoldable pub upsert : LedgerRow → Ledger → Ledger
upsert r [] = r ∷ []
upsert r (old ∷ rows) =
    let rest = upsert r rows in
    if is_keyed r.operation_id r.backup_id old then updated old r ∷ rows else old ∷ rest

-- The checks before the row is written.
abbrev pub may_write : Option LedgerRow → Bool → LedgerRow → Bool
may_write none claimed r = not claimed
may_write (some old) claimed r = same_row_identity old r && one_of r.state (transitions old.state)

-- `ledger_write`, or none when it raises
unfoldable pub ledger_write : LedgerRow → Ledger → Option Ledger
ledger_write r rows =
    if may_write (recorded r.operation_id r.backup_id rows)
      (is_claimed r.operation_id r.backup_id rows) r
    then some (upsert r rows)
    else none
