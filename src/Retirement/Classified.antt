-- ===== src/Retirement/Classified.antt =====
-- `reconcile` of src/game_control/retirement.py against the ledger and the disk.
use helios_horizon.Common.{◌≡◌, true, Option, if◌then◌else◌}
use helios_horizon.Retirement.Payloads.{
  PayloadState, prepared, quarantined, same_payload_state, Identity, Node, is_gone, is_payload,
}
use helios_horizon.Retirement.Ledger.{Ledger}
use helios_horizon.Retirement.Reports.{
  Classification, prepared_source_intact, quarantine_completed, quarantined_intact, source_present,
  purge_pending, purged_proven, matches_row, classify_prepared, classify_quarantined,
  classify_purge,
}

-- Where the payload is, by the classification; the last three are never given.
abbrev pub Means : Classification → Identity → Option Node → Option Node → Type 0
Means prepared_source_intact i a q = is_payload i a ≡ true
Means source_present i a q = is_payload i a ≡ true
Means quarantine_completed i a q = (is_payload i q ≡ true) × (is_gone a ≡ true)
Means quarantined_intact i a q = (is_payload i q ≡ true) × (is_gone a ≡ true)
Means purge_pending i a q = (is_payload i q ≡ true) × (is_gone a ≡ true)
Means purged_proven i a q = (is_gone a ≡ true) × (is_gone q ≡ true)
Means c i a q = ⊥

module _ (i : Identity) (a q : Option Node) where
  -- The classification of a row in one of the three states.
  abbrev classified : PayloadState → Classification
  classified s =
      if same_payload_state s prepared
      then classify_prepared (matches_row a i) (matches_row q i)
      else if same_payload_state s quarantined
      then classify_quarantined (matches_row a i) (matches_row q i)
      else classify_purge (matches_row q i) (is_gone a) (is_gone q)
