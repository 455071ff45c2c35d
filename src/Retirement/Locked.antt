-- ===== src/Retirement/Locked.antt =====
-- What the phases of src/game_control/retirement.py do under the lock of the sender: what holds of
-- an entry wherever they end, and when they are through.
use helios_horizon.Common.{String, ◌≡◌, refl, ◌∙◌, Bool, true, not, Option, [], ◌∷◌, arith}
use helios_horizon.Program.{gets, raise_if, modify, ◌>>=◌}
use helios_horizon.Program.Rules.{
  Leads, Leads-gets, Leads-read, Leads-then, Leads-weaken, Leads-modify,
}
use helios_horizon.Program.Keeping.{Leads-raise_if}
use helios_horizon.Program.Branches.{Leads-cleanup}
use helios_horizon.Retirement.Payloads.{Phase, ManifestEntry}
use helios_horizon.Retirement.Ledger.{Ledger, recorded, ledger_rows}
use helios_horizon.Retirement.World.{refused, Manifest, Env, Vault, Script, plan, plan_entry}
use helios_horizon.Retirement.Steps.{with_interlock, unlocked}
use helios_horizon.Retirement.Assertions.{
  is_receipt, is_admissible, assert_phase_admissible, assert_receipt, assert_preflight,
  assert_purge_ready,
}
use helios_horizon.Retirement.Phases.{quarantine_all, purge_all, rollback_all, rollback_item}
use helios_horizon.Retirement.Places.{Facts, Fits, Over, is_admitted}
use helios_horizon.Retirement.Quiet.{
  Quiet-for_each, Quiet-then, assert_boundaries-Quiet, assert_registered-Quiet,
  assert_catalog_eligible-Quiet, ensure_private_dir-Quiet, acquire_sender_lock-Quiet,
  assert_no_purge_intent-Quiet, check_item-Quiet, check_purge_item-Quiet,
}
use helios_horizon.Retirement.Moves.{Entails, Leads-Quiet}
use helios_horizon.Retirement.Others.{Keeps-Quiet}
use helios_horizon.Retirement.Entries.{IsEntry, Leads-plan}
use helios_horizon.Retirement.Rounds.{
  prepare_item-other, quarantine_item-other, intend_item-other, purge_item-other,
  rollback_item-other,
}
use helios_horizon.Retirement.Quarantines.{Located, Marked, Quarantined}
use helios_horizon.Retirement.Moving.{
  check_item-Located, prepare_item-Marked, quarantine_item-Quarantined,
}
use helios_horizon.Retirement.Purges.{Admitted, Receipted, Allowed, Underway, Begun}
use helios_horizon.Retirement.Intents.{check_purge_item-Allowed, intend_item-Underway}
use helios_horizon.Retirement.Removals.{Purged, purge_item-Purged}

recorded-admitted :
    (phase : Phase) (op b : String) (rows : Ledger)
    → is_admissible phase (ledger_rows op rows) ≡ true
    → is_admitted phase (recorded op b rows) ≡ true
unfolding recorded ledger_rows
recorded-admitted phase op b [] h = refl
recorded-admitted phase op b (r ∷ rows) h = ground (arith, recorded-admitted phase op b rows)

module _ (env : Env) (m : Manifest) (e : ManifestEntry) (own : Option String)
    (member : IsEntry m.entries e) where
  abbrev op : String
  op = m.operation_id

  abbrev K : Facts
  K = Fits m e

  -- Under the lock of the sender, which is released in the end.
  pub Leads-interlock :
      (P Q : Facts) (body : Script (Unit {0}))
      → Entails P K
      → Leads (Over op e P) body (Over op e Q) (Over op e K)
      → Leads (Over op e P) (with_interlock env body) (Over op e Q) (Over op e K)
  unfolding with_interlock
  Leads-interlock P Q body w h =
      Leads-then _ _ (Leads-Quiet op e P K _ (acquire_sender_lock-Quiet env) w) (
        Leads-cleanup (λ _. modify unlocked) body h
          (Leads-modify {Q = Over op e Q} unlocked (λ v q. q))
          (Leads-modify {Q = Over op e K} unlocked (λ v q. q)))

  preflight-Located :
      Leads (Over op e K) (assert_preflight env m) (Over op e (Located m e)) (Over op e K)
  unfolding assert_preflight
  preflight-Located =
      Leads-then _ _
        (Leads-Quiet op e K K _ (Quiet-for_each _ m.entries (assert_catalog_eligible-Quiet env))
          (λ r a q h. h))
        (Leads-read (λ v. v.ledger) _
          (λ prior.
            Leads-then _ _ (Leads-Quiet op e K K _ (assert_registered-Quiet env m) (λ r a q h. h)) (
              Leads-plan op e K (Located m e) K _ (check_item-Located env m e prior)
                (λ x F k. Keeps-Quiet op e F _ (check_item-Quiet env m prior (plan_entry op x)))
                (λ r a q h. h.0) (λ r a q h. h) m refl member)))

  pub quarantine_all-Quarantined :
      Leads (Over op e K) (quarantine_all env m own) (Over op e (Quarantined m e)) (Over op e K)
  unfolding quarantine_all
  quarantine_all-Quarantined =
      Leads-then _ _ (Leads-Quiet op e K K _ (assert_boundaries-Quiet env own) (λ r a q h. h)) (
        Leads-read (λ v. v.ledger) _
          (λ prior.
            Leads-then _ _
              (Leads-then _ _
                (Leads-then _ _
                  (Leads-then _ _ preflight-Located (
                    Leads-Quiet op e (Located m e) K _ (assert_boundaries-Quiet env own)
                      (λ r a q h. h.0)))
                  (Leads-Quiet op e (Located m e) K _
                    (Quiet-for_each _ (plan m) (λ i.
                      Quiet-then _ _ (ensure_private_dir-Quiet env) (ensure_private_dir-Quiet env)))
                    (λ r a q h. h.0)))
                (Leads-plan op e (Located m e) (Marked m e) K _ (prepare_item-Marked env m e)
                  (λ x F k. prepare_item-other env m e x F k) (λ r a q h. (h.0, h.1))
                  (λ r a q h. h.0) m refl member))
              (Leads-plan op e (Marked m e) (Quarantined m e) K _
                (quarantine_item-Quarantined env m e prior)
                (λ x F k. quarantine_item-other env m e x F k prior) (λ r a q h. h.0)
                (λ r a q h. h.0) m refl member)))

  pub admissible-admitted :
      (phase : Phase) (P : Facts)
      → Entails P K
      → Leads
          (Over op e P)
          (assert_phase_admissible m phase)
          (Over op e (λ r a q. P r a q × (is_admitted phase r ≡ true)))
          (Over op e K)
  unfolding assert_phase_admissible
  admissible-admitted phase P w =
      Leads-gets (λ v. is_admissible phase (ledger_rows op v.ledger)) _
        (λ b.
          Leads-raise_if (not b) refused
            (λ v h t.
              (h.0, recorded-admitted phase op e.backup_id v.ledger (h.1 ∙ ground (arith, t))))
            (λ v h. w _ _ _ h.0))

  receipt-Receipted :
      Leads (Over op e (Admitted m e)) (assert_receipt m) (Over op e (Receipted m e)) (Over op e K)
  unfolding assert_receipt
  receipt-Receipted =
      Leads-raise_if (not (is_receipt m)) refused (λ v h t. (h, ground (arith, t))) (λ v h. h.0)

  complete-Quiet :
      (P : Facts)
      → Entails P K
      → (g : Vault → Bool)
      → Leads (Over op e P) (gets g >>= λ b. raise_if (not b) refused) (Over op e P) (Over op e K)
  complete-Quiet P w g =
      Leads-read g _ (λ b. Leads-raise_if (not b) refused (λ v h t. h) (λ v h. w _ _ _ h))

  ready-Allowed :
      Leads
        (Over op e (Receipted m e))
        (assert_purge_ready env m)
        (Over op e (Allowed m e))
        (Over op e K)
  unfolding assert_purge_ready
  ready-Allowed =
      Leads-then _ _
        (Leads-then _ _ (complete-Quiet (Receipted m e) (λ r a q h. h.0.0) _)
          (Leads-Quiet op e (Receipted m e) K _ (assert_registered-Quiet env m) (λ r a q h. h.0.0)))
        (Leads-plan op e (Receipted m e) (Allowed m e) K _ (check_purge_item-Allowed env m e)
          (λ x F k. Keeps-Quiet op e F _ (check_purge_item-Quiet env m (plan_entry op x)))
          (λ r a q h. ((h.0, h.3), h.2)) (λ r a q h. h.0.0) m refl member)

  pub purge_all-Purged :
      Leads (Over op e (Admitted m e)) (purge_all env m own) (Over op e (Purged m e)) (Over op e K)
  unfolding purge_all
  purge_all-Purged =
      Leads-then _ _
        (Leads-then _ _
          (Leads-then _ _
            (Leads-then _ _
              (Leads-then _ _
                (Leads-then _ _
                  (Leads-Quiet op e (Admitted m e) K _ (assert_boundaries-Quiet env own)
                    (λ r a q h. h.0))
                  receipt-Receipted)
                (Leads-Quiet op e (Receipted m e) K _
                  (Quiet-for_each _ m.entries (assert_catalog_eligible-Quiet env))
                  (λ r a q h. h.0.0)))
              ready-Allowed)
            (Leads-Quiet op e (Allowed m e) K _ (assert_boundaries-Quiet env own) (λ r a q h. h.0)))
          (Leads-weaken _ (λ v h. h) (λ v h. h.0) (λ v h. h)
            (Leads-plan op e (Allowed m e) (Begun m e) K _ (intend_item-Underway env m e)
              (λ x F k. intend_item-other env m e x F k) (λ r a q h. h.1) (λ r a q h. h.0) m refl
              member)))
        (Leads-plan op e (Underway m e) (Purged m e) K _ (purge_item-Purged env m e)
          (λ x F k. purge_item-other env m e x F k) (λ r a q h. h.0) (λ r a q h. h.0) m refl member)

  -- `P` before, and `Q` after the rounds.
  module _ (P Q : Facts) (w : Entails P K) (back : Entails Q P)
      (round : (prior : Ledger)
        → Leads
            (Over op e P)
            (rollback_item env m prior (plan_entry op e))
            (Over op e Q)
            (Over op e K)) where
    pub rollback_all-ends : Leads (Over op e P) (rollback_all env m own) (Over op e Q) (Over op e K)
    unfolding rollback_all
    rollback_all-ends =
        Leads-then _ _
          (Leads-then _ _ (Leads-Quiet op e P K _ (assert_boundaries-Quiet env own) w)
            (Leads-Quiet op e P K _ (assert_no_purge_intent-Quiet m) w))
          (Leads-read (λ v. v.ledger) _
            (λ prior. Leads-then _ _ (Leads-Quiet op e P K _ (assert_registered-Quiet env m) w) (
              Leads-plan op e P Q K _ (round prior)
                (λ x F k. rollback_item-other env m e x F k prior) back w m refl member)))
