-- ===== src/Retirement/Restoring.antt =====
-- The rounds of the loop of `rollback` of src/game_control/retirement.py, for their entry.
use helios_horizon.Common.{String, ◌≡◌, refl, ◌∙◌, true, false, Option, none, some, inl, inr, arith}
use helios_horizon.Program.Rules.{Leads, Leads-then, Leads-bind, Leads-weaken}
use helios_horizon.Program.Branches.{Leads-when_test, Leads-never}
use helios_horizon.Retirement.Payloads.{
  PayloadState, present, missing, prepared, quarantined, purge_prepared, purged, rolled_back,
  failed, ambiguous, same_payload_state, one_of, transitions, ManifestEntry, Node, is_gone,
  is_payload,
}
use helios_horizon.Retirement.Ledger.{LedgerRow, Ledger}
use helios_horizon.Retirement.World.{
  Manifest, Env, PlanEntry, plan_entry, archive_path, quarantine_path,
}
use helios_horizon.Retirement.Steps.{renamed, write, state_of}
use helios_horizon.Retirement.Assertions.{is_at}
use helios_horizon.Retirement.Phases.{rollback_item, restore_item, keep_item}
use helios_horizon.Retirement.Places.{Facts, Fits, Over, is_payload-there, is_payload-renamed}
use helios_horizon.Retirement.Quiet.{absent-Quiet, check_lease-Quiet, fsync_dir-Quiet}
use helios_horizon.Retirement.Moves.{Entails, Leads-Quiet, Leads-absent, Leads-verify, Leads-state}
use helios_horizon.Retirement.Writes.{IsPermitted, IsRowOf, Leads-write, Leads-to_archive}
use helios_horizon.Retirement.Rollbacks.{
  is_under_way, Resumed, Restored, Pending, Pending-IsLocated, Pending-archived, Restored-closed,
}

-- One round, for what is known of the row besides, `X`, and what is wanted of it in the end, `Q`.
module _ (env : Env) (m : Manifest) (e : ManifestEntry) (X : Option LedgerRow → Type 0)
    (Q : Facts) where
  abbrev op : String
  op = m.operation_id

  abbrev item : PlanEntry
  item = plan_entry op e

  abbrev K : Facts
  K = Fits m e

  nowhere :
      (r : Option LedgerRow) (a q : Option Node)
      → Pending m e r a q
      → is_gone a ≡ true
      → is_gone q ≡ true
      → ⊥
  nowhere r a q h k l = elim (Pending-IsLocated m e r a q h) [
    | inl x ↦ ground (arith, k, is_payload-there e.identity a x.0)
    | inr x ↦ ground (arith, l, is_payload-there e.identity q x.0)
  ]

  abbrev F : Facts
  F r a q = Pending m e r a q × X r

  F-K : Entails F K
  F-K r a q h = h.0.0

  -- The payload is back, and the ledger does not say so yet.
  abbrev G : Facts
  G r a q = F r a q × (is_payload e.identity a ≡ true) × (is_gone q ≡ true)

  G-K : Entails G K
  G-K r a q h = h.0.0.0

  module _ (back : Entails Q K)
      (recorded_back : (r : Option LedgerRow) (r' : LedgerRow) (a q : Option Node)
        → G r a q
        → IsPermitted r rolled_back
        → IsRowOf op e rolled_back r'
        → Q (some r') a q)
      (closed : (r : Option LedgerRow) (a q : Option Node)
        → Resumed m e r a q
        → X r
        → is_under_way (state_of r) ≡ false
        → Q r a q) where
    record_rolled_back :
        Leads (Over op e G) (write env m item rolled_back none) (Over op e Q) (Over op e K)
    record_rolled_back = Leads-write env m e G Q K rolled_back none G-K back recorded_back

    restore_item-back : Leads (Over op e F) (restore_item env m item) (Over op e Q) (Over op e K)
    unfolding restore_item
    restore_item-back =
        Leads-then _ _
          (Leads-then _ _
            (Leads-then _ _
              (Leads-then _ _
                (Leads-then _ _ (Leads-verify op e F K env e (quarantine_path op e) false F-K) (
                  Leads-Quiet op e (λ r a q. F r a q × (is_payload e.identity q ≡ true)) K _
                    (check_lease-Quiet env) (λ r a q h. h.0.0.0)))
                (Leads-to_archive env m e (λ r a q. F r a q × (is_payload e.identity q ≡ true)) G K
                  (λ r a q h. h.0.0.0) G-K
                  (λ r a q t h k.
                    let there = is_payload-renamed e.identity t q ∙ h.1 in
                    ((Pending-archived m e r a q h.0.0 (renamed t q) there, h.0.1), there, refl))))
              (Leads-Quiet op e G K _ (fsync_dir-Quiet env) G-K))
            (Leads-Quiet op e G K _ (fsync_dir-Quiet env) G-K))
          record_rolled_back

    keep_item-back :
        (prior : Ledger)
        → Leads
            (λ v. Over op e F v × (is_gone (v.disk item.quarantine) ≡ true))
            (keep_item env m prior item)
            (Over op e Q)
            (Over op e K)
    unfolding keep_item
    keep_item-back prior =
        Leads-then {M = Over op e G} _ _
          (Leads-weaken _ (λ v h. h) (λ v h. (h.0.0, h.1, h.0.1)) (λ v h. h)
            (Leads-verify op e (λ r a q. F r a q × (is_gone q ≡ true)) K env e (archive_path e) _
              (λ r a q h. h.0.0.0)))
          record_rolled_back

    rollback_item-back :
        (prior : Ledger)
        → Leads
            (Over op e (λ r a q. Resumed m e r a q × X r))
            (rollback_item env m prior item)
            (Over op e Q)
            (Over op e K)
    unfolding rollback_item
    rollback_item-back prior =
        Leads-then _ _
          (Leads-Quiet op e (λ r a q. Resumed m e r a q × X r) K _ (check_lease-Quiet env)
            (λ r a q h. h.0.0))
          (Leads-state m item _ (λ s.
            Leads-when_test (is_under_way s) _
              (λ k.
                Leads-weaken _ (λ v h. ((h.0.0.0, rw (h.1, k) refl), h.0.1)) (λ v h. h) (λ v h. h)
                  (Leads-absent op e F env (quarantine_path op e) _
                    (Leads-absent op e (λ r a q. F r a q × (is_gone q ≡ true)) env (archive_path e)
                      _ (Leads-never _ (λ v h. nowhere _ _ _ h.0.0.0 h.1 h.0.1))
                      (keep_item-back prior))
                    (Leads-bind _ _ (Leads-Quiet op e F K _ (absent-Quiet env (archive_path e)) F-K)
                      (λ b. restore_item-back))))
              (λ v h k. closed _ _ _ h.0.0 h.0.1 (rw (h.1, k) refl))))

-- No row goes from `prepared` to `rolled_back`.
prepared_stuck :
    (s : PayloadState)
    → same_payload_state prepared s ≡ true
    → one_of rolled_back (transitions s) ≡ true
    → ⊥
prepared_stuck prepared h k = ground arith
prepared_stuck quarantined h k = ground arith
prepared_stuck purge_prepared h k = ground arith
prepared_stuck purged h k = ground arith
prepared_stuck rolled_back h k = ground arith
prepared_stuck present h k = ground arith
prepared_stuck missing h k = ground arith
prepared_stuck failed h k = ground arith
prepared_stuck ambiguous h k = ground arith

module _ (env : Env) (m : Manifest) (e : ManifestEntry) (prior : Ledger) where
  pub rollback_item-Restored :
      Leads
        (Over m.operation_id e (Resumed m e))
        (rollback_item env m prior (plan_entry m.operation_id e))
        (Over m.operation_id e (Restored m e))
        (Over m.operation_id e (Fits m e))
  rollback_item-Restored =
      Leads-weaken _ (λ v h. (h, tt)) (λ v h. h) (λ v h. h)
        (rollback_item-back env m e (λ r. Unit) (Restored m e) (λ r a q h. h.0.0)
          (λ r r' a q h k l. (((l.0, rw l.1 (h.1, h.2)), rw l.1 refl), h.1, h.2, inr (rw l.1 refl)))
          (λ r a q h x k. Restored-closed m e r a q h k) prior)

  -- `_TRANSITIONS` has no way from `prepared` to `rolled_back`.
  pub rollback_item-stuck :
      Leads
        (Over m.operation_id e (λ r a q. Resumed m e r a q × (is_at prepared (state_of r) ≡ true)))
        (rollback_item env m prior (plan_entry m.operation_id e))
        (Over m.operation_id e (λ r a q. ⊥))
        (Over m.operation_id e (Fits m e))
  rollback_item-stuck =
      rollback_item-back env m e (λ r. is_at prepared (state_of r) ≡ true) (λ r a q. ⊥)
        (λ r a q h. elim h [ ]) (λ r r' a q h k l. not_permitted r h.0.1 k)
        (λ r a q h x k. open_prepared (state_of r) x k) prior
    where
      not_permitted :
          (r : Option LedgerRow)
          → is_at prepared (state_of r) ≡ true
          → IsPermitted r rolled_back
          → ⊥
      not_permitted none h k = ground arith
      not_permitted (some row) h k = prepared_stuck row.state h k

      open_prepared :
          (s : Option PayloadState) → is_at prepared s ≡ true → is_under_way s ≡ false → ⊥
      open_prepared s h k = ground arith
