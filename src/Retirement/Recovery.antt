-- ===== src/Retirement/Recovery.antt =====
-- Any sequence of phases of src/game_control/retirement.py, each of them stopped anywhere.
use helios_horizon.Common.{
  String, ◌≡◌, refl, Bool, true, Option, none, some, List, [], ◌∷◌, ◌⊎◌, inl, inr, All,
}
use helios_horizon.Program.Rules.{Keeps, Leads-weaken}
use helios_horizon.Program.Keeping.{Keeps-state}
use helios_horizon.Retirement.Payloads.{
  PayloadState, present, missing, prepared, quarantined, purge_prepared, purged, rolled_back,
  failed, ambiguous, Phase, quarantine_phase, purge_phase, rollback_phase, Identity, ManifestEntry,
  Node, is_gone, is_payload,
}
use helios_horizon.Retirement.Ledger.{LedgerRow, recorded}
use helios_horizon.Retirement.World.{Manifest, Env, Vault, Script, archive_path, quarantine_path}
use helios_horizon.Retirement.Steps.{state_of}
use helios_horizon.Retirement.Assertions.{is_receipt}
use helios_horizon.Retirement.Phases.{quarantine, purge, rollback}
use helios_horizon.Retirement.Reports.{Report}
use helios_horizon.Retirement.Places.{IsLocated, Stands, Fits, Kept}
use helios_horizon.Retirement.Entries.{IsEntry}
use helios_horizon.Retirement.Runs.{quarantine-Quarantined, purge-Purged, rollback-Restored}

-- One call of a phase, in a world of its own.
pub record Attempt : Type 0 where
  pub env : Env
  pub phase : Phase
  pub own_job : Option String

unfoldable pub run_phase : Phase → Env → String → Option String → Script Report
run_phase quarantine_phase env name own = quarantine env name own
run_phase purge_phase env name own = purge env name own
run_phase rollback_phase env name own = rollback env name own

-- What the calls leave, whether they return or raise.
unfoldable pub run_all : String → List Attempt → Vault → Vault
run_all name [] v = v
run_all name (a ∷ rest) v = run_all name rest (run_phase a.phase a.env name a.own_job v).1

module _ (name : String) (m : Manifest) (e : ManifestEntry) (member : IsEntry m.entries e) where
  run_phase-Kept :
      (phase : Phase) (env : Env) (own : Option String)
      → env.manifests name ≡ some m
      → Keeps (Kept m e) (run_phase phase env name own)
  unfolding run_phase
  run_phase-Kept quarantine_phase env own h =
      Leads-weaken _ (λ v k. k) (λ v k. k.0.0) (λ v k. k)
        (quarantine-Quarantined env m e own member name h)
  run_phase-Kept purge_phase env own h =
      Leads-weaken _ (λ v k. k) (λ v k. k.0.0) (λ v k. k) (purge-Purged env m e own member name h)
  run_phase-Kept rollback_phase env own h =
      Leads-weaken _ (λ v k. k) (λ v k. k.0.0) (λ v k. k)
        (rollback-Restored env m e own member name h)

  -- What the row of an entry says of the two places of its payload is true after any sequence of
  -- phases, each of them stopped anywhere, if it is so before, every call loads the same manifest,
  -- and the entry is the only one in it for its backup. A row that is `prepared` or `quarantined`
  -- says that the payload is at exactly one of them.
  pub run_all-Kept :
      (attempts : List Attempt) (v : Vault)
      → All (λ a. a.env.manifests name ≡ some m) attempts
      → Kept m e v
      → Kept m e (run_all name attempts v)
  unfolding run_all
  run_all-Kept [] v h k = k
  run_all-Kept (a ∷ rest) v h k =
      run_all-Kept rest _ h.1 (Keeps-state _ (run_phase-Kept a.phase a.env a.own_job h.0) v k)

-- What a row says of the two places, in short: the payload is at one of them, unless its purge is
-- recorded, and then the receipt is in order and nothing is at the archive path.
abbrev pub IsSafe : Manifest → ManifestEntry → Vault → Type 0
IsSafe m e v =
    let a = v.disk (archive_path e) in
    let q = v.disk (quarantine_path m.operation_id e) in
    let s = state_of (recorded m.operation_id e.backup_id v.ledger) in
    IsLocated e.identity a q
    ⊎ (((s ≡ some purge_prepared) ⊎ (s ≡ some purged)) × (is_gone a ≡ true) × (is_receipt m ≡ true))

Stands-safe :
    (s : PayloadState) (c : Bool) (i : Identity) (a q : Option Node)
    → Stands s c i a q
    → IsLocated i a q
      ⊎ (((some s ≡ some purge_prepared) ⊎ (some s ≡ some purged))
          × (is_gone a ≡ true)
          × (c ≡ true))
Stands-safe prepared c i a q h = inl h
Stands-safe quarantined c i a q h = inl h
Stands-safe purge_prepared c i a q h = inr (inl refl, h.0, h.2)
Stands-safe purged c i a q h = inr (inr refl, h.0, h.2)
Stands-safe rolled_back c i a q h = inl (inl h)
Stands-safe present c i a q h = elim h [ ]
Stands-safe missing c i a q h = elim h [ ]
Stands-safe failed c i a q h = elim h [ ]
Stands-safe ambiguous c i a q h = elim h [ ]

Fits-safe :
    (m : Manifest) (e : ManifestEntry) (r : Option LedgerRow) (a q : Option Node)
    → Fits m e r a q
    → IsLocated e.identity a q
      ⊎ (((state_of r ≡ some purge_prepared) ⊎ (state_of r ≡ some purged))
          × (is_gone a ≡ true)
          × (is_receipt m ≡ true))
Fits-safe m e none a q h = inl (inl h)
Fits-safe m e (some r) a q h = Stands-safe r.state (is_receipt m) e.identity a q h.1

-- No payload is lost: after any sequence of phases, each of them stopped anywhere, which load one
-- manifest with one entry for the backup, a payload that was alone at its archive path before the
-- entry had a row is at its archive path or in quarantine, whole and alone, or its purge is
-- recorded and the manifest has a verified receipt of every entry.
pub run_all-IsSafe :
    (name : String) (m : Manifest) (e : ManifestEntry) (attempts : List Attempt) (v : Vault)
    → IsEntry m.entries e
    → All (λ a. a.env.manifests name ≡ some m) attempts
    → recorded m.operation_id e.backup_id v.ledger ≡ none
    → is_payload e.identity (v.disk (archive_path e)) ≡ true
    → is_gone (v.disk (quarantine_path m.operation_id e)) ≡ true
    → IsSafe m e (run_all name attempts v)
run_all-IsSafe name m e attempts v h k l a q =
    Fits-safe m e _ _ _ (run_all-Kept name m e h attempts v k (rw l (a, q)))
