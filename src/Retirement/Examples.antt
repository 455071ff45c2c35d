-- ===== src/Retirement/Examples.antt =====
-- A retirement of two backups that is stopped in the middle of `quarantine`, and resumed.
use helios_horizon.Common.{
  All, str_eq, ℕ, String, ◌≡◌, refl, true, false, none, some, List, get, [], ◌∷◌, ◌⊎◌, inl, inr,
  ◌==◌, if◌then◌else◌,
}
use helios_horizon.Program.{
  is_raised, pure, raise, gets, raise_if, modify, when, for_each, try_finally, ◌>>=◌, ◌>>◌,
}
use helios_horizon.Retirement.Payloads.{
  present, same_path, retired, one_of, transitions, prepared, purged, Phase, quarantine_phase,
  purge_phase, Identity, ManifestEntry, Node, archived,
}
use helios_horizon.Retirement.Ledger.{
  same_row_identity, LedgerRow, recorded, ledger_rows, upsert, ledger_write, is_claimed,
}
use helios_horizon.Retirement.World.{
  RemoteMember, Manifest, ask, effect, Mishap, fine, after, Env, Vault, archive_path,
  quarantine_path,
}
use helios_horizon.Retirement.Steps.{
  load, with_interlock, acquire_sender_lock, assert_registered, check_lease,
  assert_catalog_eligible, assert_boundaries, absent, verify_payload, ensure_private_dir, fsync_dir,
  rename_noreplace, unlink_file, write, state_by_id,
}
use helios_horizon.Retirement.Loading.{
  parse_manifest, is_manifest, has_unique_ids, has_unique_members, parse_manifest-IsEntry, IsCopied,
}
use helios_horizon.Retirement.Assertions.{
  assert_operation_binding, assert_phase_admissible, assert_receipt, assert_no_purge_intent,
  check_item, assert_preflight, check_purge_item, assert_purge_ready,
}
use helios_horizon.Retirement.Phases.{
  quarantine, purge, rollback, quarantine_all, purge_all, rollback_all, prepare_item,
  finish_quarantine, move_item, quarantine_item, intend_item, finish_purge, remove_item, purge_item,
  restore_item, keep_item, lose_item, rollback_item,
}
use helios_horizon.Retirement.Recovery.{
  Attempt, run_phase, run_all, IsSafe, run_all-Kept, run_all-IsSafe,
}
use helios_horizon.Program.Rules.{Ends}
use helios_horizon.Program.Loops.{Any}
use helios_horizon.Retirement.Entries.{IsEntry}
use helios_horizon.Retirement.Rows.{ledger_write-follows}
use helios_horizon.Retirement.Quarantines.{Quarantined}
use helios_horizon.Retirement.Removals.{Purged}
use helios_horizon.Retirement.Rollbacks.{Restored}
use helios_horizon.Retirement.Outcomes.{
  quarantine-outcome, purge-outcome, rollback-outcome, rollback-unrecorded,
}
use helios_horizon.Retirement.Reports.{payload_state, availability_map}
use helios_horizon.Retirement.Available.{IsBack, payload_state-present}
use helios_horizon.Retirement.Places.{Kept, Over}

abbrev identity_of : ℕ → String → Identity
identity_of n digest = record {
  device = 1;
  inode = n;
  size_bytes = 10;
  mtime_ns = 20;
  ctime_ns = 30;
  sha256 = digest;
}

abbrev entry_of : ℕ → String → ManifestEntry
entry_of n b = record { backup_id = b; profile_id = "minecraft"; identity = identity_of n b }

abbrev first_entry : ManifestEntry
first_entry = entry_of 7 "a"

abbrev second_entry : ManifestEntry
second_entry = entry_of 8 "b"

abbrev member_of : String → RemoteMember
member_of b = record { backup_id = b; profile_id = "minecraft"; size_bytes = 10; sha256 = b }

abbrev planned : Manifest
planned = record {
  operation_id = "op";
  entries = first_entry ∷ second_entry ∷ [];
  receipt = record {
    destination_id = "vault";
    verified = true;
    verified_at = "2026-01-01T00:00:00Z";
    receipt_sha256 = "vault";
    members = member_of "a" ∷ member_of "b" ∷ [];
  };
}

-- Everything succeeds, but the effect of one number.
abbrev world : ℕ → Mishap → Env
world n mishap = record {
  manifests = λ name. some planned;
  is_registered = λ p. true;
  mishap = λ t. if t == n then mishap else fine;
  lease_held = λ t. true;
  lock_free = λ t. true;
  running_jobs = λ t. [];
  restore_pending = λ t. false;
  catalog = λ t b.
      some (record { profile_id = "minecraft"; size_bytes = 10; verified = 1; is_protected = 0 });
  has_protection = λ t b. false;
  has_confirmation = λ t b. false;
  is_certain = λ t p. true;
  is_changing = λ t p. false;
  ctime_ns = λ t. t;
  now = λ t. t;
}

abbrev node_of : ManifestEntry → Node
node_of e = record { regular = true; links = 1; found = true; identity = e.identity }

-- Both payloads at their archive paths, and no retirement so far.
abbrev stored_backups : Vault
stored_backups = record {
  ledger = [];
  disk = λ p.
      if same_path p (archive_path first_entry)
      then some (node_of first_entry)
      else if same_path p (archive_path second_entry)
      then some (node_of second_entry)
      else none;
  tick = 0;
  locked = false;
  partial = false;
}

abbrev quarantine_world : Env
quarantine_world = world 1000 fine

abbrev in_quarantine : Vault
in_quarantine = (quarantine quarantine_world "op" none stored_backups).1

-- The first payload is moved, and then the process ends.
abbrev stopped : Vault
stopped = (quarantine (world 33 after) "op" none stored_backups).1

abbrev attempt : ℕ → Mishap → Phase → Attempt
attempt n mishap phase = record { env = world n mishap; phase = phase; own_job = none }

abbrev attempts : List Attempt
attempts =
    attempt 33 after quarantine_phase
    ∷ attempt 1000 fine quarantine_phase
    ∷ attempt 1000 fine purge_phase
    ∷ []

first_entry-IsEntry : IsEntry planned.entries first_entry
first_entry-IsEntry = (inl refl, (inl refl, (inr refl, tt)))

abbrev stopped_row : LedgerRow
stopped_row = record {
  operation_id = "op";
  backup_id = "a";
  profile_id = "minecraft";
  state = prepared;
  path = archived "a";
  quarantine_path = some (retired "op" "a");
  expected = identity_of 7 "a";
  manifest_sha256 = "op";
  created_at = 22;
  updated_at = 22;
  error_code = none;
}

-- After a rollback the payload can be restored from again.
abbrev rolled : Vault
rolled = (rollback quarantine_world "op" none in_quarantine).1

-- The phases return, but a rollback of the stopped quarantine; and the ledger is true of the entry.
runs :
    (is_raised (purge quarantine_world "op" none in_quarantine).0 ≡ false)
    × (is_raised (rollback quarantine_world "op" none in_quarantine).0 ≡ false)
    × (is_raised (quarantine quarantine_world "op" none stopped).0 ≡ false)
    × (is_raised (rollback quarantine_world "op" none stopped).0 ≡ true)
    × Kept planned first_entry in_quarantine
    × Kept planned first_entry stopped
    × Kept planned first_entry rolled
    × (recorded "op" "a" stopped.ledger ≡ some stopped_row)
    × (payload_state quarantine_world rolled "minecraft" "a" ≡ present)
unfolding availability_map get recorded ledger_rows upsert ledger_write is_claimed quarantine purge
    rollback quarantine_all purge_all rollback_all load with_interlock acquire_sender_lock
    assert_registered check_lease assert_catalog_eligible assert_boundaries absent verify_payload
    ensure_private_dir fsync_dir rename_noreplace unlink_file write state_by_id ask effect
    assert_operation_binding assert_phase_admissible assert_receipt assert_no_purge_intent
    check_item assert_preflight check_purge_item assert_purge_ready prepare_item finish_quarantine
    move_item quarantine_item intend_item finish_purge remove_item purge_item restore_item keep_item
    lose_item rollback_item run_phase run_all pure raise gets raise_if modify when for_each
    try_finally ◌>>=◌ ◌>>◌
runs = (
  refl,
  refl,
  refl,
  refl,
  ((refl, refl, refl, refl), inr (refl, refl)),
  ((refl, refl, refl, refl), inr (refl, refl)),
  ((refl, refl, refl, refl), (refl, refl)),
  refl,
  refl,
)

run_all-IsSafe_example : IsSafe planned first_entry (run_all "op" attempts stored_backups)
unfolding recorded
run_all-IsSafe_example =
    run_all-IsSafe "op" planned first_entry attempts stored_backups first_entry-IsEntry
      (refl, (refl, (refl, tt))) refl refl refl

run_all-Kept_example : Kept planned first_entry (run_all "op" attempts stored_backups)
unfolding recorded
run_all-Kept_example =
    run_all-Kept "op" planned first_entry first_entry-IsEntry attempts stored_backups
      (refl, (refl, (refl, tt))) (refl, refl)

quarantine-outcome_example :
    let done = quarantine quarantine_world "op" none stored_backups in
    Ends
      (Over "op" first_entry (Quarantined planned first_entry))
      (Kept planned first_entry)
      done.0
      done.1
unfolding recorded
quarantine-outcome_example =
    quarantine-outcome quarantine_world planned first_entry none "op" stored_backups
      first_entry-IsEntry refl (refl, refl)

purge-outcome_example :
    let done = purge quarantine_world "op" none in_quarantine in
    Ends
      (Over "op" first_entry (Purged planned first_entry))
      (Kept planned first_entry)
      done.0
      done.1
purge-outcome_example =
    purge-outcome quarantine_world planned first_entry none "op" in_quarantine first_entry-IsEntry
      refl runs.4

rollback-outcome_example :
    let done = rollback quarantine_world "op" none in_quarantine in
    Ends
      (Over "op" first_entry (Restored planned first_entry))
      (Kept planned first_entry)
      done.0
      done.1
rollback-outcome_example =
    rollback-outcome quarantine_world planned first_entry none "op" in_quarantine
      first_entry-IsEntry refl runs.4

rollback-unrecorded_example :
    let done = rollback quarantine_world "op" none stopped in
    Ends (λ v. ⊥) (Kept planned first_entry) done.0 done.1
rollback-unrecorded_example =
    rollback-unrecorded quarantine_world planned first_entry none "op" stopped first_entry-IsEntry
      refl runs.5 (rw runs.7 refl)

payload_state-present_example :
    ((n : Node) × (rolled.disk (record { root = "minecraft"; relative = archived "a" }) ≡ some n)
      × (n.regular ≡ true)
      × (n.links ≡ 1))
    × All (λ r. (str_eq r.backup_id "a" ≡ false) ⊎ IsBack rolled.disk r) rolled.ledger
payload_state-present_example = payload_state-present quarantine_world rolled "minecraft" "a" runs.8

abbrev purged_row : LedgerRow
purged_row = record stopped_row { state = purged }

-- A row that is purged stays so.
ledger_write-follows_example :
    (recorded "op" "a" (purged_row ∷ []) ≡ some purged_row)
    ⊎ ((new : LedgerRow) × (recorded "op" "a" (purged_row ∷ []) ≡ some new)
        × (one_of new.state (transitions purged) ≡ true)
        × (same_row_identity purged_row new ≡ true))
unfolding recorded upsert ledger_write is_claimed
ledger_write-follows_example =
    ledger_write-follows (record purged_row { updated_at = 22 }) (purged_row ∷ []) (purged_row ∷ [])
      "op" "a" purged_row refl refl

-- With a digest that is the name of the destination, and backups in any order.
parse_manifest-IsEntry_example :
    IsEntry planned.entries first_entry
    × IsCopied planned.receipt first_entry
    × All (λ r. Any (λ x. x.backup_id ≡ r.backup_id) planned.entries) planned.receipt.members
unfolding parse_manifest is_manifest has_unique_ids has_unique_members
parse_manifest-IsEntry_example =
    parse_manifest-IsEntry (λ a b. true) (λ destination at rs. destination) "op" planned.entries
      planned.receipt planned first_entry refl (inl refl)
