-- ===== src/Retirement/Runs.antt =====
-- The phases of src/game_control/retirement.py as a whole: what holds of an entry wherever they
-- end, and when they return.
use helios_horizon.Common.{String, ◌≡◌, true, false, Option, some}
use helios_horizon.Program.{gets, pure, ◌>>=◌}
use helios_horizon.Program.Rules.{Leads, Leads-then, Leads-weaken, Leads-modify}
use helios_horizon.Retirement.Payloads.{
  prepared, quarantine_phase, purge_phase, rollback_phase, ManifestEntry,
}
use helios_horizon.Retirement.Ledger.{Ledger}
use helios_horizon.Retirement.World.{Fault, Manifest, Env, Vault, Script, plan_entry}
use helios_horizon.Retirement.Steps.{state_of, load}
use helios_horizon.Retirement.Assertions.{is_at}
use helios_horizon.Retirement.Phases.{quarantine, purge, rollback, rollback_item}
use helios_horizon.Retirement.Places.{Facts, Fits, Over, Kept, is_admitted}
use helios_horizon.Retirement.Quiet.{assert_operation_binding-Quiet, assert_phase_admissible-Quiet}
use helios_horizon.Retirement.Moves.{Entails, Leads-Quiet}
use helios_horizon.Retirement.Entries.{IsEntry}
use helios_horizon.Retirement.Quarantines.{Quarantined}
use helios_horizon.Retirement.Purges.{Admitted}
use helios_horizon.Retirement.Removals.{Purged}
use helios_horizon.Retirement.Rollbacks.{Restored}
use helios_horizon.Retirement.Restoring.{rollback_item-Restored, rollback_item-stuck}
use helios_horizon.Retirement.Locked.{
  Leads-interlock, admissible-admitted, quarantine_all-Quarantined, purge_all-Purged,
  rollback_all-ends,
}

module _ (env : Env) (m : Manifest) (e : ManifestEntry) (own : Option String)
    (member : IsEntry m.entries e) where
  abbrev op : String
  op = m.operation_id

  abbrev K : Facts
  K = Fits m e

  Leads-load :
      {B : Type 0} (name : String) (k : Manifest → Script B) {P Q R : Vault → Type 0}
      → env.manifests name ≡ some m
      → Leads P (k m) Q R
      → Leads P (load env name >>= k) Q R
  unfolding load pure ◌>>=◌
  Leads-load name k h l = record { at = λ v p. rw h (l.at v p) }

  -- The report changes nothing.
  Leads-report :
      {B : Type 0} (Q : Facts) (g : Vault → B)
      → Leads (Over op e Q) (gets {E = Fault} g) (Over op e Q) (Kept m e)
  unfolding gets
  Leads-report Q g = record { at = λ v h. h }

  module _ (name : String) (loads : env.manifests name ≡ some m) where
    -- `quarantine` returns with the payload in quarantine, and keeps the invariant wherever it
    -- ends.
    pub quarantine-Quarantined :
        Leads (Kept m e) (quarantine env name own) (Over op e (Quarantined m e)) (Kept m e)
    unfolding quarantine
    quarantine-Quarantined = Leads-load name _ loads (
        Leads-then _ _
          (Leads-then _ _
            (Leads-then _ _
              (Leads-Quiet op e K K _ (assert_operation_binding-Quiet m false) (λ r a q h. h))
              (Leads-Quiet op e K K _ (assert_phase_admissible-Quiet m quarantine_phase)
                (λ r a q h. h)))
            (Leads-interlock env m e own member K (Quarantined m e) _ (λ r a q h. h)
              (quarantine_all-Quarantined env m e own member)))
          (Leads-report (Quarantined m e) _))

    pub purge-Purged : Leads (Kept m e) (purge env name own) (Over op e (Purged m e)) (Kept m e)
    unfolding purge
    purge-Purged = Leads-load name _ loads (
        Leads-then _ _
          (Leads-then _ _
            (Leads-then _ _
              (Leads-Quiet op e K K _ (assert_operation_binding-Quiet m true) (λ r a q h. h))
              (admissible-admitted env m e own member purge_phase K (λ r a q h. h)))
            (Leads-interlock env m e own member (Admitted m e) (Purged m e) _ (λ r a q h. h.0)
              (purge_all-Purged env m e own member)))
          (Leads-report (Purged m e) _))

    module _ (P Q : Facts) (w : Entails P K)
        (back : Entails Q (λ r a q. P r a q × (is_admitted rollback_phase r ≡ true)))
        (round : (prior : Ledger)
          → Leads
              (Over op e (λ r a q. P r a q × (is_admitted rollback_phase r ≡ true)))
              (rollback_item env m prior (plan_entry op e))
              (Over op e Q)
              (Over op e K)) where
      abbrev P' : Facts
      P' r a q = P r a q × (is_admitted rollback_phase r ≡ true)

      rollback-ends : Leads (Over op e P) (rollback env name own) (Over op e Q) (Kept m e)
      unfolding rollback
      rollback-ends = Leads-load name _ loads (
          Leads-then _ _
            (Leads-then _ _
              (Leads-then _ _
                (Leads-then _ _ (Leads-Quiet op e P K _ (assert_operation_binding-Quiet m false) w)
                  (admissible-admitted env m e own member rollback_phase P w))
                (Leads-modify {Q = Over op e P'} _ (λ v h. h)))
              (Leads-interlock env m e own member P' Q _ (λ r a q h. w r a q h.0)
                (rollback_all-ends env m e own member P' Q (λ r a q h. w r a q h.0) back round)))
            (Leads-report Q _))

    pub rollback-Restored :
        Leads (Kept m e) (rollback env name own) (Over op e (Restored m e)) (Kept m e)
    rollback-Restored =
        rollback-ends K (Restored m e) (λ r a q h. h) (λ r a q h. h.0)
          (rollback_item-Restored env m e)

    -- A retirement that was stopped while an entry was `prepared` can not be rolled back: whatever
    -- `rollback` has moved, it raises.
    pub rollback-stuck :
        Leads
          (Over op e (λ r a q. K r a q × (is_at prepared (state_of r) ≡ true)))
          (rollback env name own)
          (λ v. ⊥)
          (Kept m e)
    rollback-stuck =
        rollback-ends (λ r a q. K r a q × (is_at prepared (state_of r) ≡ true)) (λ r a q. ⊥)
          (λ r a q h. h.0) (λ r a q h. elim h [ ])
          (λ prior.
            Leads-weaken _ (λ v h. ((h.0.0, h.1), h.0.1)) (λ v h. h) (λ v h. h)
              (rollback_item-stuck env m e prior))
