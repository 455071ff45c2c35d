-- ===== src/Retirement/Removals.antt =====
-- The second loop of `purge` of src/game_control/retirement.py, for its entry.
use helios_horizon.Common.{String, ◌≡◌, refl, true, false, not, Option, none, some, arith}
use helios_horizon.Program.Rules.{Leads, Leads-then, Leads-bind, Leads-raise, Leads-weaken}
use helios_horizon.Program.Keeping.{Leads-raise_if}
use helios_horizon.Program.Branches.{Leads-if, Leads-if_test}
use helios_horizon.Retirement.Payloads.{
  PayloadState, purge_prepared, purged, ManifestEntry, Node, is_gone,
}
use helios_horizon.Retirement.Ledger.{LedgerRow}
use helios_horizon.Retirement.World.{
  refused, interrupted, Manifest, Env, PlanEntry, plan_entry, archive_path, quarantine_path,
}
use helios_horizon.Retirement.Steps.{state_of, write}
use helios_horizon.Retirement.Assertions.{is_some, is_at, is_receipt}
use helios_horizon.Retirement.Phases.{purge_item, finish_purge, remove_item}
use helios_horizon.Retirement.Places.{Facts, Fits, Over}
use helios_horizon.Retirement.Quiet.{
  absent-Quiet, check_lease-Quiet, assert_catalog_eligible-Quiet, verify_payload-Quiet,
  fsync_dir-Quiet, Quiet-raise_if,
}
use helios_horizon.Retirement.Moves.{Entails, Leads-Quiet, Leads-absent, Leads-state}
use helios_horizon.Retirement.Writes.{IsRowOf, Leads-write, Leads-remove}
use helios_horizon.Retirement.Purges.{Underway, Intended-gone}

module _ (m : Manifest) (e : ManifestEntry) where
  -- The intent is in the ledger, in a row that is there; and then the payload is gone.
  abbrev pub Removable : Facts
  Removable r a q = Underway m e r a q × (is_some (state_of r) ≡ true)

  abbrev pub Removed : Facts
  Removed r a q = Removable r a q × (is_gone q ≡ true)

  -- The payload is removed, and the ledger says so.
  abbrev pub Purged : Facts
  Purged r a q =
      Underway m e r a q
      × (is_at purged (state_of r) ≡ true)
      × (is_gone a ≡ true)
      × (is_gone q ≡ true)

  Removed-from : (r : Option LedgerRow) (a q : Option Node) → Removable r a q → Removed r a none
  Removed-from none a q h = ground (arith, h.1)
  Removed-from (some row) a q h =
      let f = Intended-gone row.state (is_receipt m) e.identity a q h.0.0.1 h.0.1 in
      ((((h.0.0.0, f.2), h.0.1), h.1), refl)

  Removed-cleared :
      (r : Option LedgerRow) (a q : Option Node)
      → Removed r a q
      → (is_gone a ≡ true) × (is_receipt m ≡ true)
  Removed-cleared none a q h = ground (arith, h.0.1)
  Removed-cleared (some row) a q h =
      let f = Intended-gone row.state (is_receipt m) e.identity a q h.0.0.0.1 h.0.0.1 in (f.0, f.1)

  Purged-row :
      (r : Option LedgerRow) (r' : LedgerRow) (a q : Option Node)
      → Removed r a q
      → IsRowOf m.operation_id e purged r'
      → Purged (some r') a q
  Purged-row r r' a q h l =
      let f = Removed-cleared r a q h in
      (((l.0, rw l.1 (f.0, h.1, f.1)), rw l.1 tt), rw l.1 refl, f.0, h.1)

module _ (env : Env) (m : Manifest) (e : ManifestEntry) where
  abbrev op : String
  op = m.operation_id

  abbrev item : PlanEntry
  item = plan_entry op e

  abbrev K : Facts
  K = Fits m e

  abbrev J : Facts
  J = Removable m e

  abbrev D : Facts
  D = Removed m e

  abbrev Known : Option PayloadState → Facts
  Known s r a q = J r a q × (state_of r ≡ s)

  Removed-K : Entails D K
  Removed-K r a q h = h.0.0.0

  record_purged :
      Leads (Over op e D) (write env m item purged none) (Over op e (Purged m e)) (Over op e K)
  record_purged =
      Leads-write env m e D (Purged m e) K purged none Removed-K (λ r a q h. h.0.0)
        (λ r r' a q h k l. Purged-row m e r r' a q h l)

  finish_purge-Purged :
      (s : Option PayloadState)
      → Leads (Over op e D) (finish_purge env m s item) (Over op e (Purged m e)) (Over op e K)
  unfolding finish_purge
  finish_purge-Purged s =
      Leads-then _ _
        (Leads-then _ _
          (Leads-Quiet op e D K _ (Quiet-raise_if (not (is_at purge_prepared s)) refused) Removed-K)
          (Leads-bind _ _ (Leads-Quiet op e D K _ (absent-Quiet env (archive_path e)) Removed-K)
            (λ b. Leads-Quiet op e D K _ (Quiet-raise_if (not b) refused) Removed-K)))
        record_purged

  remove_item-Purged :
      Leads (Over op e J) (remove_item env m item) (Over op e (Purged m e)) (Over op e K)
  unfolding remove_item
  remove_item-Purged =
      Leads-then _ _
        (Leads-then _ _
          (Leads-then _ _
            (Leads-then _ _
              (Leads-Quiet op e J K _ (verify_payload-Quiet env e (quarantine_path op e) false)
                (λ r a q h. h.0.0))
              (Leads-Quiet op e J K _ (check_lease-Quiet env) (λ r a q h. h.0.0)))
            (Leads-remove env m e J D K (λ r a q h. h.0.0) Removed-K (Removed-from m e)))
          (Leads-Quiet op e D K _ (fsync_dir-Quiet env) Removed-K))
        record_purged

  pub purge_item-Purged :
      Leads
        (Over op e (Underway m e))
        (purge_item env m item)
        (Over op e (Purged m e))
        (Over op e K)
  unfolding purge_item
  purge_item-Purged =
      Leads-then _ _
        (Leads-then _ _
          (Leads-Quiet op e (Underway m e) K _ (check_lease-Quiet env) (λ r a q h. h.0))
          (Leads-Quiet op e (Underway m e) K _ (assert_catalog_eligible-Quiet env e)
            (λ r a q h. h.0)))
        (Leads-state m item _ (λ s.
          Leads-then {M = Over op e (Known s)} _ _
            (Leads-raise_if (not (is_some s)) interrupted
              (λ v h t. ((h.0, rw h.1 (ground (arith, t))), h.1)) (λ v h. h.0.0))
            (Leads-absent op e (Known s) env (quarantine_path op e) _
              (Leads-if_test (is_at purged s) _ _
                (λ k.
                  Leads-raise_if (not true) refused
                    (λ v h t.
                      let f = Removed-cleared m e _ _ _ (h.0.0, h.1) in
                      (h.0.0.0, rw (h.0.1, k) refl, f.0, h.1))
                    (λ v h. h.0.0.0.0))
                (λ k.
                  Leads-weaken _ (λ v h. (h.0.0, h.1)) (λ v h. h) (λ v h. h)
                    (finish_purge-Purged s)))
              (Leads-if (is_at purged s) _ _ (Leads-raise refused (λ v h. h.0.0.0))
                (Leads-weaken _ (λ v h. h.0) (λ v h. h) (λ v h. h) remove_item-Purged)))))
