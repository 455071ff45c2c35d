-- ===== src/Retirement/Intents.antt =====
-- The checks before a purge of src/game_control/retirement.py and its first loop, for their entry.
use helios_horizon.Common.{String, ◌≡◌, refl, Bool, true, false, not, Option, none}
use helios_horizon.Program.{raise_if}
use helios_horizon.Program.Rules.{Leads, Leads-then, Leads-bind, Leads-raise, Leads-weaken}
use helios_horizon.Program.Keeping.{Leads-raise_if}
use helios_horizon.Program.Branches.{Leads-when_test, Leads-if, Leads-if_test}
use helios_horizon.Retirement.Payloads.{
  PayloadState, quarantined, purge_prepared, purged, same_payload_state, ManifestEntry,
}
use helios_horizon.Retirement.World.{
  refused, Manifest, Env, PlanEntry, plan_entry, archive_path, quarantine_path,
}
use helios_horizon.Retirement.Steps.{verify_payload, state_of}
use helios_horizon.Retirement.Assertions.{is_at, check_purge_item}
use helios_horizon.Retirement.Phases.{intend_item}
use helios_horizon.Retirement.Places.{is_at-exclusive, Facts, Fits, Over}
use helios_horizon.Retirement.Quiet.{absent-Quiet, check_lease-Quiet}
use helios_horizon.Retirement.Moves.{Entails, Leads-Quiet, Leads-verify, Leads-state}
use helios_horizon.Retirement.Writes.{Leads-write}
use helios_horizon.Retirement.Purges.{
  Receipted, Allowed, Begun, Allowed-from, Underway-from, Underway-intended,
}

module _ (env : Env) (m : Manifest) (e : ManifestEntry) where
  abbrev op : String
  op = m.operation_id

  abbrev item : PlanEntry
  item = plan_entry op e

  abbrev K : Facts
  K = Fits m e

  -- What a check reads: the state of the row and whether the places are empty.
  module _ (s : Option PayloadState) where
    abbrev Read : Facts
    Read r a q = Receipted m e r a q × (state_of r ≡ s)

    Read-K : Entails Read K
    Read-K r a q h = h.0.0.0

    elsewhere :
        (t : PayloadState)
        → same_payload_state t quarantined ≡ false
        → is_at t s ≡ true
        → Entails Read (Allowed m e)
    elsewhere t n k r a q h =
        Allowed-from m e r a q h.0
          (λ l. is_at-exclusive t quarantined (state_of r) n (rw (h.1, k) refl) l)

    verified :
        Leads
          (Over op e Read)
          (verify_payload env e (quarantine_path op e) false)
          (Over op e (Allowed m e))
          (Over op e K)
    verified =
        Leads-weaken _ (λ v h. h) (λ v h. Allowed-from m e _ _ _ h.0.0 (λ k. h.1)) (λ v h. h)
          (Leads-verify op e Read K env e (quarantine_path op e) false Read-K)

    tested :
        (t : PayloadState) (b : Bool)
        → same_payload_state t quarantined ≡ false
        → is_at t s ≡ true
        → Leads (Over op e Read) (raise_if b refused) (Over op e (Allowed m e)) (Over op e K)
    tested t b n k =
        Leads-raise_if b refused (λ v h l. elsewhere t n k _ _ _ h) (λ v h. Read-K _ _ _ h)

  pub check_purge_item-Allowed :
      Leads
        (Over op e (Receipted m e))
        (check_purge_item env m item)
        (Over op e (Allowed m e))
        (Over op e K)
  unfolding check_purge_item
  check_purge_item-Allowed = Leads-state m item _ (λ s.
      Leads-bind _ _
        (Leads-Quiet op e (Read s) K _ (absent-Quiet env (quarantine_path op e)) (Read-K s))
        (λ qa.
          Leads-bind _ _
            (Leads-Quiet op e (Read s) K _ (absent-Quiet env (archive_path e)) (Read-K s))
            (λ aa.
              Leads-if_test (is_at purged s) _ _ (λ k. tested s purged (not qa) refl k)
                (λ k.
                  Leads-if_test (is_at purge_prepared s) _ _
                    (λ l.
                      Leads-if (not qa) _ _ (verified s) (tested s purge_prepared (not aa) refl l))
                    (λ l.
                      Leads-if qa _ _ (Leads-raise refused (λ v h. Read-K s _ _ _ h))
                        (verified s))))))

  abbrev Chosen : Facts
  Chosen r a q = Allowed m e r a q × (is_at quarantined (state_of r) ≡ true)

  pub intend_item-Underway :
      Leads (Over op e (Allowed m e)) (intend_item env m item) (Over op e (Begun m e)) (Over op e K)
  unfolding intend_item
  intend_item-Underway = Leads-state m item _ (λ s.
      Leads-when_test (is_at quarantined s) _
        (λ k.
          Leads-then _ _
            (Leads-weaken _ (λ v h. (h.0, rw (h.1, k) refl)) (λ v h. h) (λ v h. h)
              (Leads-Quiet op e Chosen K _ (check_lease-Quiet env) (λ r a q h. h.0.0)))
            (Leads-write env m e Chosen (Begun m e) K purge_prepared none (λ r a q h. h.0.0)
              (λ r a q h. h.1.0) (λ r r' a q h k l. Underway-intended m e r r' a q h.0 h.1 l)))
        (λ v h k. Underway-from m e _ _ _ h.0 (rw (h.1, k) refl)))
