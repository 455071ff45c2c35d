-- ===== src/Retirement/Assertions.antt =====
-- What the phases of src/game_control/retirement.py assert before they change anything.
use helios_horizon.Common.{
  String, Bool, true, false, not, ◌&&◌, ◌||◌, Option, none, some, List, [], ◌∷◌, all, str_eq, ◌==◌,
  if◌then◌else◌,
}
use helios_horizon.Program.{pure, raise, gets, raise_if, for_each, ◌>>=◌, ◌>>◌}
use helios_horizon.Retirement.Payloads.{
  PayloadState, Phase, phase_resumable, one_of, same_payload_state, same_identity, ManifestEntry,
  purge_prepared, purged, Node,
}
use helios_horizon.Retirement.Ledger.{LedgerRow, Ledger, recorded, ledger_rows}
use helios_horizon.Retirement.World.{refused, RemoteMember, Manifest, Env, Script, PlanEntry, plan}
use helios_horizon.Retirement.Steps.{
  assert_registered, assert_catalog_eligible, absent, verify_payload, state_by_id,
}

-- `planned[backup_id]` and `by_id[backup_id]`
abbrev pub find_entry : String → List ManifestEntry → Option ManifestEntry
find_entry b [] = none
find_entry b (e ∷ es) = if str_eq e.backup_id b then some e else find_entry b es

abbrev pub find_member : String → List RemoteMember → Option RemoteMember
find_member b [] = none
find_member b (r ∷ rs) = if str_eq r.backup_id b then some r else find_member b rs

abbrev pub is_some : {A : Type 0} → Option A → Bool
is_some none = false
is_some (some a) = true

abbrev pub binds : LedgerRow → Option ManifestEntry → Bool
binds r none = false
binds r (some e) = str_eq r.profile_id e.profile_id && same_identity r.expected e.identity

abbrev pub has_ledger_row : List LedgerRow → ManifestEntry → Bool
has_ledger_row [] e = false
has_ledger_row (r ∷ rows) e = str_eq r.backup_id e.backup_id || has_ledger_row rows e

abbrev pub is_bound : Manifest → Bool → List LedgerRow → Bool
is_bound m exact [] = true
is_bound m exact (r ∷ rows) =
    all (λ s. binds s (find_entry s.backup_id m.entries)) (r ∷ rows)
    && (not exact || all (has_ledger_row (r ∷ rows)) m.entries)

unfoldable pub assert_operation_binding : Manifest → Bool → Script (Unit {0})
unfolding raise_if gets ◌>>=◌
assert_operation_binding m exact =
    gets (λ v. is_bound m exact (ledger_rows m.operation_id v.ledger)) >>= λ bound.
    raise_if (not bound) refused

abbrev pub is_admissible : Phase → List LedgerRow → Bool
is_admissible phase = all (λ r. one_of r.state (phase_resumable phase))

unfoldable pub assert_phase_admissible : Manifest → Phase → Script (Unit {0})
unfolding raise_if gets ◌>>=◌
assert_phase_admissible m phase =
    gets (λ v. is_admissible phase (ledger_rows m.operation_id v.ledger)) >>= λ admissible.
    raise_if (not admissible) refused

abbrev pub copies : ManifestEntry → Option RemoteMember → Bool
copies e none = false
copies e (some r) =
    str_eq r.profile_id e.profile_id
    && r.size_bytes == e.identity.size_bytes
    && str_eq r.sha256 e.identity.sha256

-- `_assert_receipt`: a verified copy of every entry, and of nothing else.
abbrev pub is_receipt : Manifest → Bool
is_receipt m =
    m.receipt.verified
    && all (λ r. is_some (find_entry r.backup_id m.entries)) m.receipt.members
    && all (λ e. copies e (find_member e.backup_id m.receipt.members)) m.entries

unfoldable pub assert_receipt : Manifest → Script (Unit {0})
unfolding raise_if
assert_receipt m = raise_if (not (is_receipt m)) refused

unfoldable pub assert_no_purge_intent : Manifest → Script (Unit {0})
unfolding raise_if gets ◌>>=◌
assert_no_purge_intent m =
    gets (λ v.
      all (λ r. not (one_of r.state (purge_prepared ∷ purged ∷ [])))
        (ledger_rows m.operation_id v.ledger))
    >>= λ clear. raise_if (not clear) refused

-- `(manifest.operation_id, backup_id) not in prior`
abbrev pub is_new : Manifest → PlanEntry → Ledger → Bool
is_new m item prior = not (is_some (recorded m.operation_id item.entry.backup_id prior))

abbrev pub is_at : PayloadState → Option PayloadState → Bool
is_at s none = false
is_at s (some t) = same_payload_state s t

-- `item.quarantine.exists()`
abbrev pub exists : Option Node → Bool
exists none = false
exists (some n) = n.found

module _ (env : Env) (m : Manifest) where
  unfoldable pub check_item : Ledger → PlanEntry → Script (Unit {0})
  unfolding ◌>>=◌
  check_item prior item = absent env item.archive >>= λ archive_absent.
      absent env item.quarantine >>= λ quarantine_absent.
      if not archive_absent && not quarantine_absent
      then raise refused
      else if not quarantine_absent
      then verify_payload env item.entry item.quarantine false
      else if not archive_absent
      then verify_payload env item.entry item.archive (is_new m item prior)
      else raise refused

  unfoldable pub assert_preflight : Script (Unit {0})
  unfolding gets for_each ◌>>=◌ ◌>>◌
  assert_preflight =
      for_each (assert_catalog_eligible env) m.entries
      >> (gets (λ v. v.ledger) >>= λ prior.
          assert_registered env m >> for_each (check_item prior) (plan m))

  -- One round of `_assert_purge_ready`, by the state of the entry: a state that is none of those
  -- named is treated as `quarantined`.
  unfoldable pub check_purge_item : PlanEntry → Script (Unit {0})
  unfolding ◌>>=◌ raise_if pure
  check_purge_item item = state_by_id m item >>= λ state.
      absent env item.quarantine >>= λ quarantine_absent.
      absent env item.archive >>= λ archive_absent.
      if is_at purged state
      then raise_if (not quarantine_absent) refused
      else if is_at purge_prepared state
      then (if not quarantine_absent
          then verify_payload env item.entry item.quarantine false
          else raise_if (not archive_absent) refused)
      else if quarantine_absent
      then raise refused
      else verify_payload env item.entry item.quarantine false

  unfoldable pub assert_purge_ready : Script (Unit {0})
  unfolding gets raise_if for_each ◌>>=◌ ◌>>◌
  assert_purge_ready =
      (gets (λ v.
          all (has_ledger_row (ledger_rows m.operation_id v.ledger)) m.entries
          && all (λ r. is_some (find_entry r.backup_id m.entries))
              (ledger_rows m.operation_id v.ledger))
        >>= λ complete. raise_if (not complete) refused)
      >> assert_registered env m
      >> for_each check_purge_item (plan m)
