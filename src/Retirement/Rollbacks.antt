-- ===== src/Retirement/Rollbacks.antt =====
-- What is known of an entry in the course of `rollback` of src/game_control/retirement.py.
use helios_horizon.Common.{
  ◌↔◌, ◌≡◌, ◌⊎◌, refl, ap, Bool, true, false, ◌||◌, Option, none, some, inl, inr, arith,
}
use helios_horizon.Retirement.Payloads.{
  PayloadState, present, missing, prepared, quarantined, purge_prepared, purged, rolled_back,
  failed, ambiguous, one_of, phase_resumable, rollback_phase, Identity, ManifestEntry, Node,
  is_gone, is_payload,
}
use helios_horizon.Retirement.Ledger.{LedgerRow}
use helios_horizon.Retirement.World.{Manifest}
use helios_horizon.Retirement.Steps.{state_of}
use helios_horizon.Retirement.Assertions.{is_at, is_receipt}
use helios_horizon.Retirement.Places.{is_admitted, Facts, IsLocated, Stands, Fits}

abbrev pub is_under_way : Option PayloadState → Bool
is_under_way s = is_at prepared s || is_at quarantined s

-- In these two states the row says that the payload is somewhere.
IsLocated-iff :
    (s : PayloadState) (c : Bool) (i : Identity) (a q : Option Node)
    → is_under_way (some s) ≡ true
    → Stands s c i a q ↔ IsLocated i a q
IsLocated-iff prepared c i a q h = (λ x. x, λ x. x)
IsLocated-iff quarantined c i a q h = (λ x. x, λ x. x)
IsLocated-iff purge_prepared c i a q h = ground arith
IsLocated-iff purged c i a q h = ground arith
IsLocated-iff rolled_back c i a q h = ground arith
IsLocated-iff present c i a q h = ground arith
IsLocated-iff missing c i a q h = ground arith
IsLocated-iff failed c i a q h = ground arith
IsLocated-iff ambiguous c i a q h = ground arith

-- A row that may be rolled back, and is in neither state, is rolled back already.
closed_restored :
    (s : PayloadState) (c : Bool) (i : Identity) (a q : Option Node)
    → one_of s (phase_resumable rollback_phase) ≡ true
    → is_under_way (some s) ≡ false
    → Stands s c i a q
    → (is_payload i a ≡ true) × (is_gone q ≡ true) × (s ≡ rolled_back)
closed_restored rolled_back c i a q h k l = (l.0, l.1, refl)
closed_restored prepared c i a q h k l = ground arith
closed_restored quarantined c i a q h k l = ground arith
closed_restored purge_prepared c i a q h k l = ground arith
closed_restored purged c i a q h k l = ground arith
closed_restored present c i a q h k l = ground arith
closed_restored missing c i a q h k l = ground arith
closed_restored failed c i a q h k l = ground arith
closed_restored ambiguous c i a q h k l = ground arith

module _ (m : Manifest) (e : ManifestEntry) where
  -- The phase was admitted.
  abbrev pub Resumed : Facts
  Resumed r a q = Fits m e r a q × (is_admitted rollback_phase r ≡ true)

  -- The payload is back, and the row says so.
  abbrev pub Restored : Facts
  Restored r a q =
      Resumed r a q
      × (is_payload e.identity a ≡ true)
      × (is_gone q ≡ true)
      × ((state_of r ≡ none) ⊎ (state_of r ≡ some rolled_back))

  -- There is something to bring back.
  abbrev pub Pending : Facts
  Pending r a q = Fits m e r a q × (is_under_way (state_of r) ≡ true)

  pub Pending-IsLocated :
      (r : Option LedgerRow) (a q : Option Node) → Pending r a q → IsLocated e.identity a q
  Pending-IsLocated none a q h = ground (arith, h.1)
  Pending-IsLocated (some row) a q h =
      (IsLocated-iff row.state (is_receipt m) e.identity a q h.1).0 h.0.1

  pub Pending-archived :
      (r : Option LedgerRow) (a q : Option Node)
      → Pending r a q
      → (a' : Option Node) → is_payload e.identity a' ≡ true
      → Pending r a' none
  Pending-archived none a q h a' k = ground (arith, h.1)
  Pending-archived (some row) a q h a' k = (
    (h.0.0, (IsLocated-iff row.state (is_receipt m) e.identity a' none h.1).1 (inl (k, refl))),
    h.1,
  )

  pub Restored-closed :
      (r : Option LedgerRow) (a q : Option Node)
      → Resumed r a q
      → is_under_way (state_of r) ≡ false
      → Restored r a q
  Restored-closed none a q h k = (h, h.0.0, h.0.1, inl refl)
  Restored-closed (some row) a q h k =
      let f = closed_restored row.state (is_receipt m) e.identity a q h.1 k h.0.1 in
      (h, f.0, f.1, inr (ap some f.2))
