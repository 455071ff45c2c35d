-- ===== src/Retirement/Rows.antt =====
-- The rows that `ledger_write` of src/game_control/retirement.py leaves.
use helios_horizon.Common.{
  String, ◌≡◌, refl, sym, ◌∙◌, Bool, true, false, ◌&&◌, Option, none, some, [], ◌∷◌, str_eq, eq_iff,
  eq_refl, Bool-cases, ◌⊎◌, inl, inr, arith,
}
use helios_horizon.Retirement.Payloads.{one_of, transitions, rolled_back, prepared}
use helios_horizon.Retirement.Ledger.{
  LedgerRow, Ledger, is_keyed, recorded, ledger_write, upsert, updated, may_write, is_claimed,
  same_row_identity,
}

abbrev pub merged : Option LedgerRow → LedgerRow → LedgerRow
merged none r = r
merged (some old) r = updated old r

pub recorded-upsert :
    (r : LedgerRow) (rows : Ledger)
    → let op = r.operation_id in
      let b = r.backup_id in recorded op b (upsert r rows) ≡ some (merged (recorded op b rows) r)
unfolding recorded upsert
recorded-upsert r [] = ground (arith, eq_refl r.operation_id, eq_refl r.backup_id)
recorded-upsert r (old ∷ rows) =
    ground (arith, eq_refl r.operation_id, eq_refl r.backup_id, recorded-upsert r rows)

pub is_keyed-other :
    (op b op' b' : String) (r : LedgerRow)
    → is_keyed op b r ≡ true
    → (str_eq op op' && str_eq b b') ≡ false
    → is_keyed op' b' r ≡ false
is_keyed-other op b op' b' r h k = ground (arith, eq_iff r.operation_id op, eq_iff r.backup_id b)

pub recorded-upsert_other :
    (r : LedgerRow) (rows : Ledger) (op b : String)
    → is_keyed op b r ≡ false
    → recorded op b (upsert r rows) ≡ recorded op b rows
unfolding recorded upsert
recorded-upsert_other r [] op b h = ground arith
recorded-upsert_other r (old ∷ rows) op b h =
    ground (
      arith,
      recorded-upsert_other r rows op b h,
      is_keyed-other r.operation_id r.backup_id op b old,
    )

pub ledger_write-some :
    (r : LedgerRow) (rows rows' : Ledger)
    → ledger_write r rows ≡ some rows'
    → (rows' ≡ upsert r rows)
      × (may_write
            (recorded r.operation_id r.backup_id rows)
            (is_claimed r.operation_id r.backup_id rows)
            r
          ≡ true)
unfolding ledger_write
ledger_write-some r rows rows' h = ground arith

recorded_cong :
    (rows : Ledger) (op op' b b' : String)
    → (str_eq op op' && str_eq b b') ≡ true
    → recorded op' b' rows ≡ recorded op b rows
recorded_cong rows op op' b b' h =
    let e = (eq_iff op op').0 (ground arith) in let d = (eq_iff b b').0 (ground arith) in rw (e, d)

pub may_write-old :
    (o : Option LedgerRow) (old r : LedgerRow) (claimed : Bool)
    → o ≡ some old
    → may_write o claimed r ≡ (same_row_identity old r && one_of r.state (transitions old.state))
may_write-old o old r claimed h = rw h

pub and_iff : (a b : Bool) → a && b ≡ true → (a ≡ true) × (b ≡ true)
and_iff true true h = (refl, refl)
and_iff true false h = ground arith
and_iff false b h = ground arith

-- A row that is there is replaced by one with the same identity in a state that may follow, or is
-- left alone, by whatever is written.
pub ledger_write-follows :
    (r : LedgerRow) (rows rows' : Ledger) (op b : String) (old : LedgerRow)
    → ledger_write r rows ≡ some rows'
    → recorded op b rows ≡ some old
    → (recorded op b rows' ≡ some old)
      ⊎ ((new : LedgerRow) × (recorded op b rows' ≡ some new)
          × (one_of new.state (transitions old.state) ≡ true)
          × (same_row_identity old new ≡ true))
unfolding ledger_write
ledger_write-follows r rows rows' op b old h k =
    let w = ledger_write-some r rows rows' h in
    elim (Bool-cases (str_eq r.operation_id op && str_eq r.backup_id b)) [
      | inl s ↦
          let here = sym (recorded_cong rows r.operation_id op r.backup_id b s) ∙ k in
          let permitted = and_iff _ _ (sym (may_write-old _ old r _ here) ∙ w.1) in
          inr (
            updated old r,
            rw (
              w.0,
              recorded_cong (upsert r rows) r.operation_id op r.backup_id b s,
              recorded-upsert r rows,
              here,
            ),
            permitted.1,
            permitted.0,
          )
      | inr s ↦ inl (rw (w.0, recorded-upsert_other r rows op b s) k)
    ]

-- A retirement that was rolled back is begun again whatever other operations have of the backup.
pub ledger_write-resumes :
    (r : LedgerRow) (rows : Ledger) (old : LedgerRow)
    → recorded r.operation_id r.backup_id rows ≡ some old
    → old.state ≡ rolled_back
    → r.state ≡ prepared
    → same_row_identity old r ≡ true
    → recorded r.operation_id r.backup_id (upsert r rows) ≡ some (updated old r)
      × (ledger_write r rows ≡ some (upsert r rows))
unfolding ledger_write
ledger_write-resumes r rows old h s t i = (
  rw (recorded-upsert r rows, h),
  rw (may_write-old _ old r (is_claimed r.operation_id r.backup_id rows) h, i, s, t),
)
