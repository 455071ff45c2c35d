-- ===== src/Retirement/Outcomes.antt =====
-- How each phase of src/game_control/retirement.py ends for an entry, from a state in which the
-- ledger is true of it.
use helios_horizon.Common.{◌≡◌, String, Option, some, true}
use helios_horizon.Program.Rules.{Ends}
use helios_horizon.Retirement.Payloads.{ManifestEntry, prepared}
use helios_horizon.Retirement.Ledger.{recorded}
use helios_horizon.Retirement.World.{Manifest, Env, Vault}
use helios_horizon.Retirement.Steps.{state_of}
use helios_horizon.Retirement.Assertions.{is_at}
use helios_horizon.Retirement.Phases.{quarantine, purge, rollback}
use helios_horizon.Retirement.Places.{Over, Kept}
use helios_horizon.Retirement.Entries.{IsEntry}
use helios_horizon.Retirement.Quarantines.{Quarantined}
use helios_horizon.Retirement.Removals.{Purged}
use helios_horizon.Retirement.Rollbacks.{Restored}
use helios_horizon.Retirement.Runs.{
  quarantine-Quarantined, purge-Purged, rollback-Restored, rollback-stuck,
}

module _ (env : Env) (m : Manifest) (e : ManifestEntry) (own : Option String) (name : String)
    (v : Vault) where
  -- If the ledger is true of an entry, the only one of the manifest for its backup, before
  -- `quarantine`, it is so when `quarantine` raises; and when it returns, the row says
  -- `quarantined`, the payload is in quarantine, and nothing is at its archive path.
  pub quarantine-outcome :
      IsEntry m.entries e
      → env.manifests name ≡ some m
      → Kept m e v
      → let done = quarantine env name own v in
        Ends (Over m.operation_id e (Quarantined m e)) (Kept m e) done.0 done.1
  quarantine-outcome h k l = (quarantine-Quarantined env m e own h name k).at v l

  -- If the ledger is true of an entry, the only one of the manifest for its backup, before
  -- `purge`, it is so when `purge` raises; and when it returns, the row says `purged` and nothing
  -- is at either place of the payload.
  pub purge-outcome :
      IsEntry m.entries e
      → env.manifests name ≡ some m
      → Kept m e v
      → let done = purge env name own v in
        Ends (Over m.operation_id e (Purged m e)) (Kept m e) done.0 done.1
  purge-outcome h k l = (purge-Purged env m e own h name k).at v l

  -- If the ledger is true of an entry, the only one of the manifest for its backup, before
  -- `rollback`, it is so when `rollback` raises; and when it returns, the payload is at its
  -- archive path and not in quarantine, and the row, if there is one, says `rolled_back`.
  pub rollback-outcome :
      IsEntry m.entries e
      → env.manifests name ≡ some m
      → Kept m e v
      → let done = rollback env name own v in
        Ends (Over m.operation_id e (Restored m e)) (Kept m e) done.0 done.1
  rollback-outcome h k l = (rollback-Restored env m e own h name k).at v l

  -- `rollback` raises, in every world, while the row of an entry, the only one of the manifest for
  -- its backup, says `prepared`, if the ledger is true of the entry: there is no way from
  -- `prepared` to `rolled_back`.
  pub rollback-unrecorded :
      IsEntry m.entries e
      → env.manifests name ≡ some m
      → Kept m e v
      → is_at prepared (state_of (recorded m.operation_id e.backup_id v.ledger)) ≡ true
      → let done = rollback env name own v in Ends (λ w. ⊥) (Kept m e) done.0 done.1
  rollback-unrecorded h k l p = (rollback-stuck env m e own h name k).at v (l, p)
