-- ===== src/Retirement/Moving.antt =====
-- The rounds of the loops of `quarantine` of src/game_control/retirement.py, for their entry.
use helios_horizon.Common.{String, ◌≡◌, refl, ◌∙◌, true, false, none, inl, inr}
use helios_horizon.Program.Rules.{Leads, Leads-read, Leads-then, Leads-raise, Leads-weaken}
use helios_horizon.Program.Branches.{Leads-when_test, Leads-if, Leads-if_test}
use helios_horizon.Retirement.Payloads.{prepared, quarantined, ManifestEntry, is_gone, is_payload}
use helios_horizon.Retirement.Ledger.{Ledger}
use helios_horizon.Retirement.World.{
  refused, Manifest, Env, PlanEntry, plan_entry, archive_path, quarantine_path,
}
use helios_horizon.Retirement.Steps.{write, verify_payload, state_of}
use helios_horizon.Retirement.Assertions.{is_at, check_item, exists}
use helios_horizon.Retirement.Phases.{prepare_item, quarantine_item, finish_quarantine, move_item}
use helios_horizon.Retirement.Places.{Facts, Fits, Over, is_payload-renamed}
use helios_horizon.Retirement.Quiet.{
  check_lease-Quiet, assert_catalog_eligible-Quiet, fsync_dir-Quiet,
}
use helios_horizon.Retirement.Moves.{Entails, Leads-Quiet, Leads-absent, Leads-verify, Leads-state}
use helios_horizon.Retirement.Writes.{Leads-write, Leads-to_quarantine}
use helios_horizon.Retirement.Quarantines.{
  Located, Marked, Quarantined, Marked-to_quarantine, Marked-apart, Quarantined-row,
}

module _ (env : Env) (m : Manifest) (e : ManifestEntry) where
  abbrev op : String
  op = m.operation_id

  abbrev item : PlanEntry
  item = plan_entry op e

  abbrev K : Facts
  K = Fits m e

  abbrev L : Facts
  L = Located m e

  abbrev M : Facts
  M = Marked m e

  pub check_item-Located :
      (prior : Ledger)
      → Leads (Over op e K) (check_item env m prior item) (Over op e L) (Over op e K)
  unfolding check_item
  check_item-Located prior =
      Leads-absent op e K env (archive_path e) _
        (Leads-absent op e (λ r a q. K r a q × (is_gone a ≡ true)) env (quarantine_path op e) _
          (Leads-raise refused (λ v h. h.0.0))
          (Leads-weaken _ (λ v h. h) (λ v h. (h.0.0, inr (h.1, h.0.1))) (λ v h. h)
            (Leads-verify op e (λ r a q. K r a q × (is_gone a ≡ true)) K env e
              (quarantine_path op e) _ (λ r a q h. h.0))))
        (Leads-absent op e K env (quarantine_path op e) _
          (Leads-weaken _ (λ v h. h) (λ v h. (h.0.0, inl (h.1, h.0.1))) (λ v h. h)
            (Leads-verify op e (λ r a q. K r a q × (is_gone q ≡ true)) K env e (archive_path e) _
              (λ r a q h. h.0)))
          (Leads-raise refused (λ v h. h)))

  pub prepare_item-Marked :
      Leads (Over op e L) (prepare_item env m item) (Over op e M) (Over op e K)
  unfolding prepare_item
  prepare_item-Marked = Leads-state m item _ (λ s.
      Leads-when_test _ _
        (λ k.
          Leads-then _ _
            (Leads-weaken _ (λ v h. h.0) (λ v h. h) (λ v h. h)
              (Leads-Quiet op e L K _ (check_lease-Quiet env) (λ r a q h. h.0)))
            (Leads-write env m e L M K prepared none (λ r a q h. h.0) (λ r a q h. h.0)
              (λ r r' a q h k l. ((l.0, rw l.1 h.1), h.1, rw l.1 refl))))
        (λ v h k. (h.0.0, h.0.1, rw (h.1, k) refl)))

  -- What holds once the payload is known to be in quarantine.
  abbrev V : Facts
  V r a q = M r a q × (is_payload e.identity q ≡ true)

  abbrev Found : Facts
  Found r a q = M r a q × (is_payload e.identity a ≡ true)

  abbrev Settled : Facts
  Settled r a q = M r a q × (is_at quarantined (state_of r) ≡ true)

  V-K : Entails V K
  V-K r a q h = h.0.0

  D-K : Entails (Quarantined m e) K
  D-K r a q h = h.0.0

  verified :
      Leads
        (Over op e M)
        (verify_payload env e (quarantine_path op e) false)
        (Over op e V)
        (Over op e K)
  verified = Leads-verify op e M K env e (quarantine_path op e) false (λ r a q h. h.0)

  record_quarantined :
      Leads
        (Over op e V)
        (write env m item quarantined none)
        (Over op e (Quarantined m e))
        (Over op e K)
  record_quarantined =
      Leads-write env m e V (Quarantined m e) K quarantined none V-K D-K
        (λ r r' a q h k l. Quarantined-row m e r r' a q h l)

  finish_quarantine-Quarantined :
      Leads (Over op e M) (finish_quarantine env m item) (Over op e (Quarantined m e)) (Over op e K)
  unfolding finish_quarantine
  finish_quarantine-Quarantined =
      Leads-then _ _ (Leads-then _ _ verified (Leads-Quiet op e V K _ (check_lease-Quiet env) V-K))
        record_quarantined

  move_item-Quarantined :
      (prior : Ledger)
      → Leads (Over op e M) (move_item env m prior item) (Over op e (Quarantined m e)) (Over op e K)
  unfolding move_item
  move_item-Quarantined prior =
      Leads-then _ _
        (Leads-then _ _
          (Leads-then _ _
            (Leads-then _ _
              (Leads-then _ _ (Leads-verify op e M K env e (archive_path e) _ (λ r a q h. h.0))
                (Leads-Quiet op e Found K _ (check_lease-Quiet env) (λ r a q h. h.0.0)))
              (Leads-to_quarantine env m e Found V K (λ r a q h. h.0.0) V-K
                (λ r a q t h k.
                  (Marked-to_quarantine m e r a q t h k, is_payload-renamed e.identity t a ∙ h.1))))
            (Leads-Quiet op e V K _ (fsync_dir-Quiet env) V-K))
          (Leads-Quiet op e V K _ (fsync_dir-Quiet env) V-K))
        record_quarantined

  pub quarantine_item-Quarantined :
      (prior : Ledger)
      → Leads
          (Over op e M)
          (quarantine_item env m prior item)
          (Over op e (Quarantined m e))
          (Over op e K)
  unfolding quarantine_item
  quarantine_item-Quarantined prior =
      Leads-then _ _
        (Leads-then _ _ (Leads-Quiet op e M K _ (check_lease-Quiet env) (λ r a q h. h.0))
          (Leads-Quiet op e M K _ (assert_catalog_eligible-Quiet env e) (λ r a q h. h.0)))
        (Leads-state m item _ (λ s.
          Leads-if_test (is_at quarantined s) _ _
            (λ k.
              Leads-weaken _ (λ v h. (h.0, rw (h.1, k) refl))
                (λ v h. (h.0.0, h.0.1, h.1, Marked-apart m e _ _ _ h.0.0 h.1)) (λ v h. h)
                (Leads-verify op e Settled K env e (quarantine_path op e) false (λ r a q h. h.0.0)))
            (λ k.
              Leads-weaken _ (λ v h. h.0) (λ v h. h) (λ v h. h)
                (Leads-read (λ v. exists (v.disk item.quarantine)) _
                  (λ there.
                    Leads-if there _ _ finish_quarantine-Quarantined
                      (move_item-Quarantined prior))))))
