-- ===== src/Retirement/Rounds.antt =====
-- The rounds of the loops of src/game_control/retirement.py, seen from another entry.
use helios_horizon.Common.{◌≡◌, String, false, str_eq}
use helios_horizon.Program.Rules.{Keeps}
use helios_horizon.Program.Keeping.{keeps_rules}
use helios_horizon.Retirement.Payloads.{ManifestEntry}
use helios_horizon.Retirement.Ledger.{Ledger}
use helios_horizon.Retirement.World.{Manifest, Env, plan_entry}
use helios_horizon.Retirement.Phases.{
  prepare_item, quarantine_item, finish_quarantine, move_item, intend_item, purge_item,
  finish_purge, remove_item, rollback_item, restore_item, keep_item, lose_item,
}
use helios_horizon.Retirement.Places.{Facts, Over}
use helios_horizon.Retirement.Quiet.{quiet_steps}
use helios_horizon.Retirement.Others.{
  Keeps-Quiet, Keeps-partial, Keeps-write, Keeps-to_quarantine, Keeps-to_archive, Keeps-remove,
}

ruleset round_rules = (
  keeps_rules, Keeps-Quiet, Keeps-partial, quiet_steps, Keeps-write, Keeps-to_quarantine,
  Keeps-to_archive, Keeps-remove,
)

module _ (env : Env) (m : Manifest) (e x : ManifestEntry) (P : Facts)
    (apart : str_eq x.backup_id e.backup_id ≡ false) where
  abbrev op : String
  op = m.operation_id

  pub prepare_item-other : Keeps (Over op e P) (prepare_item env m (plan_entry op x))
  unfolding prepare_item
  prepare_item-other = search round_rules depth 16

  pub quarantine_item-other :
      (prior : Ledger) → Keeps (Over op e P) (quarantine_item env m prior (plan_entry op x))
  unfolding quarantine_item finish_quarantine move_item
  quarantine_item-other prior = search round_rules depth 16

  pub intend_item-other : Keeps (Over op e P) (intend_item env m (plan_entry op x))
  unfolding intend_item
  intend_item-other = search round_rules depth 16

  pub purge_item-other : Keeps (Over op e P) (purge_item env m (plan_entry op x))
  unfolding purge_item finish_purge remove_item
  purge_item-other = search round_rules depth 16

  pub rollback_item-other :
      (prior : Ledger) → Keeps (Over op e P) (rollback_item env m prior (plan_entry op x))
  unfolding rollback_item restore_item keep_item lose_item
  rollback_item-other prior = search round_rules depth 16
