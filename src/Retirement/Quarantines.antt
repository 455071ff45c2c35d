-- ===== src/Retirement/Quarantines.antt =====
-- What is known of an entry in the course of `quarantine` of src/game_control/retirement.py.
use helios_horizon.Common.{
  ℕ, ◌≡◌, refl, ◌∙◌, Bool, true, false, not, ◌||◌, Option, none, some, inl, inr, arith,
}
use helios_horizon.Retirement.Payloads.{
  PayloadState, present, missing, prepared, quarantined, purge_prepared, purged, rolled_back,
  failed, ambiguous, same_payload_state, Identity, ManifestEntry, Node, is_gone, is_payload,
}
use helios_horizon.Retirement.Ledger.{LedgerRow}
use helios_horizon.Retirement.World.{Manifest}
use helios_horizon.Retirement.Steps.{renamed, state_of}
use helios_horizon.Retirement.Assertions.{is_some, is_at, is_receipt}
use helios_horizon.Retirement.Places.{
  Facts, IsLocated, Stands, Fits, is_payload-there, is_payload-renamed,
}
use helios_horizon.Retirement.Writes.{IsRowOf}

-- The row is neither missing nor `rolled_back`.
abbrev pub is_marked : Option LedgerRow → Bool
is_marked r = let s = state_of r in not (not (is_some s) || is_at rolled_back s)

module _ (m : Manifest) (e : ManifestEntry) where
  -- The payload has been found.
  abbrev pub Located : Facts
  Located r a q = Fits m e r a q × IsLocated e.identity a q

  -- The entry is under way in the ledger.
  abbrev pub Marked : Facts
  Marked r a q = Fits m e r a q × IsLocated e.identity a q × (is_marked r ≡ true)

  -- The payload is in quarantine, and the ledger says so.
  abbrev pub Quarantined : Facts
  Quarantined r a q =
      Marked r a q
      × (is_at quarantined (state_of r) ≡ true)
      × (is_payload e.identity q ≡ true)
      × (is_gone a ≡ true)

Stands-to_quarantine :
    (s : PayloadState) (c : Bool) (i : Identity) (a q : Option Node) (t : ℕ)
    → Stands s c i a q
    → is_payload i a ≡ true
    → is_gone q ≡ true
    → same_payload_state rolled_back s ≡ false
    → Stands s c i none (renamed t a)
Stands-to_quarantine prepared c i a q t h k l n = inr (is_payload-renamed i t a ∙ k, refl)
Stands-to_quarantine quarantined c i a q t h k l n = inr (is_payload-renamed i t a ∙ k, refl)
Stands-to_quarantine purge_prepared c i a q t h k l n = ground (arith, h.0, is_payload-there i a k)
Stands-to_quarantine purged c i a q t h k l n = ground (arith, h.0, is_payload-there i a k)
Stands-to_quarantine rolled_back c i a q t h k l n = ground arith
Stands-to_quarantine present c i a q t h k l n = h
Stands-to_quarantine missing c i a q t h k l n = h
Stands-to_quarantine failed c i a q t h k l n = h
Stands-to_quarantine ambiguous c i a q t h k l n = h

module _ (m : Manifest) (e : ManifestEntry) where
  pub Marked-to_quarantine :
      (r : Option LedgerRow) (a q : Option Node) (t : ℕ)
      → Marked m e r a q × (is_payload e.identity a ≡ true)
      → is_gone q ≡ true
      → Marked m e r none (renamed t a)
  Marked-to_quarantine none a q t h k = ground (arith, h.0.2)
  Marked-to_quarantine (some row) a q t h k = (
    (
      h.0.0.0,
      Stands-to_quarantine row.state (is_receipt m) e.identity a q t h.0.0.1 h.1 k
          (ground (arith, h.0.2)),
    ),
    inr (is_payload-renamed e.identity t a ∙ h.1, refl),
    h.0.2,
  )

  -- A payload that is in quarantine is not at its archive path.
  pub Marked-apart :
      (r : Option LedgerRow) (a q : Option Node)
      → Marked m e r a q
      → is_payload e.identity q ≡ true
      → is_gone a ≡ true
  Marked-apart r a q h k = elim h.1 [
    | inl x ↦ ground (arith, x.1, is_payload-there e.identity q k)
    | inr x ↦ x.1
  ]

  pub Quarantined-row :
      (r : Option LedgerRow) (r' : LedgerRow) (a q : Option Node)
      → Marked m e r a q × (is_payload e.identity q ≡ true)
      → IsRowOf m.operation_id e quarantined r'
      → Quarantined m e (some r') a q
  Quarantined-row r r' a q h k =
      (((k.0, rw k.1 h.0.1), h.0.1, rw k.1 refl), rw k.1 refl, h.1, Marked-apart r a q h.0 h.1)
