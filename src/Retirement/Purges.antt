-- ===== src/Retirement/Purges.antt =====
-- What is known of an entry in the course of `purge` of src/game_control/retirement.py.
use helios_horizon.Common.{◌≡◌, refl, Bool, true, false, Option, none, some, inl, inr, arith}
use helios_horizon.Retirement.Payloads.{
  PayloadState, present, missing, prepared, quarantined, purge_prepared, purged, rolled_back,
  failed, ambiguous, same_payload_state, one_of, phase_resumable, purge_phase, Identity,
  ManifestEntry, Node, is_gone, is_payload,
}
use helios_horizon.Retirement.Ledger.{LedgerRow}
use helios_horizon.Retirement.World.{Manifest}
use helios_horizon.Retirement.Steps.{state_of}
use helios_horizon.Retirement.Assertions.{is_at, is_receipt}
use helios_horizon.Retirement.Places.{is_admitted, Facts, Stands, Fits, is_payload-there}
use helios_horizon.Retirement.Writes.{IsRowOf}

-- What is known of a row that may be purged.
abbrev pub Ready : PayloadState → Identity → Option Node → Type 0
Ready quarantined i q = is_payload i q ≡ true
Ready purge_prepared i q = Unit
Ready purged i q = Unit
Ready s i q = ⊥

abbrev pub Intended : PayloadState → Type 0
Intended purge_prepared = Unit
Intended purged = Unit
Intended s = ⊥

abbrev pub IsReady : Option LedgerRow → Identity → Option Node → Type 0
IsReady none i q = Unit
IsReady (some r) i q = Ready r.state i q

abbrev pub IsIntended : Option LedgerRow → Type 0
IsIntended none = Unit
IsIntended (some r) = Intended r.state

module _ (m : Manifest) (e : ManifestEntry) where
  -- The phase was admitted, and there is a receipt.
  abbrev pub Admitted : Facts
  Admitted r a q = Fits m e r a q × (is_admitted purge_phase r ≡ true)

  abbrev pub Receipted : Facts
  Receipted r a q = Admitted r a q × (is_receipt m ≡ true)

  -- The purge may begin.
  abbrev pub Allowed : Facts
  Allowed r a q =
      Fits m e r a q
      × IsReady r e.identity q
      × (is_receipt m ≡ true)
      × (is_admitted purge_phase r ≡ true)

  -- The intent is in the ledger.
  abbrev pub Underway : Facts
  Underway r a q = Fits m e r a q × IsIntended r

  abbrev pub Begun : Facts
  Begun r a q = Underway r a q × Allowed r a q

Ready-intended :
    (s : PayloadState) (c : Bool) (i : Identity) (a q : Option Node)
    → Stands s c i a q
    → Ready s i q
    → same_payload_state quarantined s ≡ true
    → (is_gone a ≡ true) × (is_payload i q ≡ true)
Ready-intended quarantined c i a q h k l = elim h [
  | inl x ↦ ground (arith, x.1, is_payload-there i q k)
  | inr x ↦ (x.1, x.0)
]
Ready-intended purge_prepared c i a q h k l = ground arith
Ready-intended purged c i a q h k l = ground arith
Ready-intended prepared c i a q h k l = elim k [ ]
Ready-intended rolled_back c i a q h k l = elim k [ ]
Ready-intended present c i a q h k l = elim k [ ]
Ready-intended missing c i a q h k l = elim k [ ]
Ready-intended failed c i a q h k l = elim k [ ]
Ready-intended ambiguous c i a q h k l = elim k [ ]

Ready-otherwise :
    (s : PayloadState) (i : Identity) (q : Option Node)
    → Ready s i q
    → same_payload_state quarantined s ≡ false
    → Intended s
Ready-otherwise quarantined i q k l = ground arith
Ready-otherwise purge_prepared i q k l = tt
Ready-otherwise purged i q k l = tt
Ready-otherwise prepared i q k l = k
Ready-otherwise rolled_back i q k l = k
Ready-otherwise present i q k l = k
Ready-otherwise missing i q k l = k
Ready-otherwise failed i q k l = k
Ready-otherwise ambiguous i q k l = k

-- Once the intent is recorded, the quarantined file may go.
pub Intended-gone :
    (s : PayloadState) (c : Bool) (i : Identity) (a q : Option Node)
    → Stands s c i a q
    → Intended s
    → (is_gone a ≡ true) × (c ≡ true) × Stands s c i a none
Intended-gone purge_prepared c i a q h k = (h.0, h.2, (h.0, inr refl, h.2))
Intended-gone purged c i a q h k = (h.0, h.2, (h.0, refl, h.2))
Intended-gone quarantined c i a q h k = elim k [ ]
Intended-gone prepared c i a q h k = elim k [ ]
Intended-gone rolled_back c i a q h k = elim k [ ]
Intended-gone present c i a q h k = elim k [ ]
Intended-gone missing c i a q h k = elim k [ ]
Intended-gone failed c i a q h k = elim k [ ]
Intended-gone ambiguous c i a q h k = elim k [ ]

Ready-admitted :
    (s : PayloadState) (i : Identity) (q : Option Node)
    → one_of s (phase_resumable purge_phase) ≡ true
    → (same_payload_state quarantined s ≡ true → is_payload i q ≡ true)
    → Ready s i q
Ready-admitted quarantined i q h k = k refl
Ready-admitted purge_prepared i q h k = tt
Ready-admitted purged i q h k = tt
Ready-admitted prepared i q h k = ground arith
Ready-admitted rolled_back i q h k = ground arith
Ready-admitted present i q h k = ground arith
Ready-admitted missing i q h k = ground arith
Ready-admitted failed i q h k = ground arith
Ready-admitted ambiguous i q h k = ground arith

module _ (m : Manifest) (e : ManifestEntry) where
  pub Allowed-from :
      (r : Option LedgerRow) (a q : Option Node)
      → Receipted m e r a q
      → (is_at quarantined (state_of r) ≡ true → is_payload e.identity q ≡ true)
      → Allowed m e r a q
  Allowed-from none a q h k = (h.0.0, tt, h.1, h.0.1)
  Allowed-from (some row) a q h k =
      (h.0.0, Ready-admitted row.state e.identity q h.0.1 k, h.1, h.0.1)

  pub Underway-from :
      (r : Option LedgerRow) (a q : Option Node)
      → Allowed m e r a q
      → is_at quarantined (state_of r) ≡ false
      → Underway m e r a q × Allowed m e r a q
  Underway-from none a q h k = ((h.0, tt), h)
  Underway-from (some row) a q h k = ((h.0, Ready-otherwise row.state e.identity q h.1 k), h)

  pub Underway-intended :
      (r : Option LedgerRow) (r' : LedgerRow) (a q : Option Node)
      → Allowed m e r a q
      → is_at quarantined (state_of r) ≡ true
      → IsRowOf m.operation_id e purge_prepared r'
      → Underway m e (some r') a q × Allowed m e (some r') a q
  Underway-intended none r' a q h k l = ground arith
  Underway-intended (some row) r' a q h k l =
      let f = Ready-intended row.state (is_receipt m) e.identity a q h.0.1 h.1 k in
      let fits : Fits m e (some r') a q = (l.0, rw l.1 (f.0, inl f.1, h.2)) in
      ((fits, rw l.1 tt), (fits, rw l.1 tt, h.2, rw l.1 refl))
