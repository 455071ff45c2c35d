-- ===== src/Retirement/Phases.antt =====
-- The phases `quarantine`, `purge` and `rollback` of src/game_control/retirement.py.
use helios_horizon.Common.{String, true, false, not, ◌||◌, Option, none, some, if◌then◌else◌}
use helios_horizon.Program.{gets, raise_if, when, modify, for_each, ◌>>=◌, ◌>>◌}
use helios_horizon.Retirement.Payloads.{
  PayloadState, quarantine_phase, purge_phase, rollback_phase, prepared, quarantined,
  purge_prepared, purged, rolled_back, failed,
}
use helios_horizon.Retirement.Ledger.{Ledger}
use helios_horizon.Retirement.World.{interrupted, refused, Manifest, Env, Script, PlanEntry, plan}
use helios_horizon.Retirement.Steps.{
  load, assert_registered, check_lease, assert_catalog_eligible, assert_boundaries, with_interlock,
  absent, verify_payload, ensure_private_dir, fsync_dir, rename_noreplace, unlink_file, write,
  state_by_id,
}
use helios_horizon.Retirement.Reports.{Report, status}
use helios_horizon.Retirement.Assertions.{
  is_some, is_new, is_at, exists, assert_operation_binding, assert_phase_admissible, assert_receipt,
  assert_no_purge_intent, assert_preflight, assert_purge_ready,
}

module _ (env : Env) (m : Manifest) where
  -- The first loop: an entry that is not yet under way is `prepared` durably.
  unfoldable pub prepare_item : PlanEntry → Script (Unit {0})
  unfolding when ◌>>=◌ ◌>>◌
  prepare_item item = state_by_id m item >>= λ state.
      when (not (is_some state) || is_at rolled_back state)
        (check_lease env >> write env m item prepared none)

  unfoldable pub finish_quarantine : PlanEntry → Script (Unit {0})
  unfolding ◌>>◌
  finish_quarantine item =
      verify_payload env item.entry item.quarantine false
      >> check_lease env
      >> write env m item quarantined none

  unfoldable pub move_item : Ledger → PlanEntry → Script (Unit {0})
  unfolding ◌>>◌
  move_item prior item =
      verify_payload env item.entry item.archive (is_new m item prior)
      >> check_lease env
      >> rename_noreplace env item.archive item.quarantine
      >> fsync_dir env
      >> fsync_dir env
      >> write env m item quarantined none

  -- The second loop.
  unfoldable pub quarantine_item : Ledger → PlanEntry → Script (Unit {0})
  unfolding gets ◌>>=◌ ◌>>◌
  quarantine_item prior item =
      check_lease env
      >> assert_catalog_eligible env item.entry
      >> (state_by_id m item >>= λ state.
          if is_at quarantined state
          then verify_payload env item.entry item.quarantine false
          else (gets (λ v. exists (v.disk item.quarantine)) >>= λ there.
              if there then finish_quarantine item else move_item prior item))

  unfoldable pub quarantine_all : Option String → Script (Unit {0})
  unfolding gets for_each ◌>>=◌ ◌>>◌
  quarantine_all own =
      assert_boundaries env own
      >> (gets (λ v. v.ledger) >>= λ prior.
          assert_preflight env m
          >> assert_boundaries env own
          >> for_each (λ item. ensure_private_dir env >> ensure_private_dir env) (plan m)
          >> for_each prepare_item (plan m)
          >> for_each (quarantine_item prior) (plan m))

  -- The first loop of `purge`: the intent is durable before anything is removed.
  unfoldable pub intend_item : PlanEntry → Script (Unit {0})
  unfolding when ◌>>=◌ ◌>>◌
  intend_item item = state_by_id m item >>= λ state.
      when (is_at quarantined state) (check_lease env >> write env m item purge_prepared none)

  unfoldable pub finish_purge : Option PayloadState → PlanEntry → Script (Unit {0})
  unfolding raise_if ◌>>=◌ ◌>>◌
  finish_purge state item =
      raise_if (not (is_at purge_prepared state)) refused
      >> (absent env item.archive >>= λ archive_absent. raise_if (not archive_absent) refused)
      >> write env m item purged none

  unfoldable pub remove_item : PlanEntry → Script (Unit {0})
  unfolding ◌>>◌
  remove_item item =
      verify_payload env item.entry item.quarantine false
      >> check_lease env
      >> unlink_file env item.quarantine
      >> fsync_dir env
      >> write env m item purged none

  unfoldable pub purge_item : PlanEntry → Script (Unit {0})
  unfolding raise_if ◌>>=◌ ◌>>◌
  purge_item item =
      check_lease env
      >> assert_catalog_eligible env item.entry
      >> (state_by_id m item >>= λ state.
          raise_if (not (is_some state)) interrupted
          >> (absent env item.quarantine >>= λ gone.
              if is_at purged state
              then raise_if (not gone) refused
              else if gone
              then finish_purge state item
              else remove_item item))

  unfoldable pub purge_all : Option String → Script (Unit {0})
  unfolding for_each ◌>>◌
  purge_all own =
      assert_boundaries env own
      >> assert_receipt m
      >> for_each (assert_catalog_eligible env) m.entries
      >> assert_purge_ready env m
      >> assert_boundaries env own
      >> for_each intend_item (plan m)
      >> for_each purge_item (plan m)

  unfoldable pub restore_item : PlanEntry → Script (Unit {0})
  unfolding ◌>>◌
  restore_item item =
      verify_payload env item.entry item.quarantine false
      >> check_lease env
      >> rename_noreplace env item.quarantine item.archive
      >> fsync_dir env
      >> fsync_dir env
      >> write env m item rolled_back none

  unfoldable pub keep_item : Ledger → PlanEntry → Script (Unit {0})
  unfolding ◌>>◌
  keep_item prior item =
      verify_payload env item.entry item.archive (is_new m item prior)
      >> write env m item rolled_back none

  unfoldable pub lose_item : PlanEntry → Script (Unit {0})
  unfolding modify ◌>>◌
  lose_item item =
      modify (λ v. record v { partial = true }) >> write env m item failed (some "payload_missing")

  unfoldable pub rollback_item : Ledger → PlanEntry → Script (Unit {0})
  unfolding when ◌>>=◌ ◌>>◌
  rollback_item prior item =
      check_lease env
      >> (state_by_id m item >>= λ state. when (is_at prepared state || is_at quarantined state) (
          absent env item.quarantine >>= λ quarantine_absent.
          absent env item.archive >>= λ archive_absent.
          if not quarantine_absent
          then restore_item item
          else if not archive_absent
          then keep_item prior item
          else lose_item item))

  unfoldable pub rollback_all : Option String → Script (Unit {0})
  unfolding gets for_each ◌>>=◌ ◌>>◌
  rollback_all own =
      assert_boundaries env own
      >> assert_no_purge_intent m
      >> (gets (λ v. v.ledger) >>= λ prior.
          assert_registered env m >> for_each (rollback_item prior) (plan m))

-- Each phase works on the manifest of its operation, and then reports.
module _ (env : Env) (op : String) (own : Option String) where
  unfoldable pub quarantine : Script Report
  unfolding ◌>>=◌ ◌>>◌ gets
  quarantine = load env op >>= λ m.
      assert_operation_binding m false
      >> assert_phase_admissible m quarantine_phase
      >> with_interlock env (quarantine_all env m own)
      >> gets (λ v. status env v op)

  unfoldable pub purge : Script Report
  unfolding ◌>>=◌ ◌>>◌ gets
  purge = load env op >>= λ m.
      assert_operation_binding m true
      >> assert_phase_admissible m purge_phase
      >> with_interlock env (purge_all env m own)
      >> gets (λ v. status env v op)

  unfoldable pub rollback : Script Report
  unfolding ◌>>=◌ ◌>>◌ modify gets
  rollback = load env op >>= λ m.
      assert_operation_binding m false
      >> assert_phase_admissible m rollback_phase
      >> modify (λ v. record v { partial = false })
      >> with_interlock env (rollback_all env m own)
      >> gets (λ v. record (status env v op) { partial = v.partial })
