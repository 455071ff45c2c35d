-- ===== src/Retirement/Available.antt =====
-- `payload_state` of src/game_control/retirement.py against the ledger and the disk.
use helios_horizon.Common.{
  String, ◌≡◌, refl, Bool, true, false, Option, none, some, [], ◌∷◌, inl, inr, arith, Bool-cases,
  Option-cases, All, str_eq, ◌⊎◌, if◌then◌else◌, Dict, get, put, get-put, get-empty,
}
use mathlib.Core.Path.{subst}
use helios_horizon.Retirement.Payloads.{
  PayloadState, present, missing, prepared, quarantined, purge_prepared, purged, rolled_back,
  failed, ambiguous, one_of, same_payload_state, blocking_states, ledger_states, Identity, Node,
  Disk, archived,
}
use helios_horizon.Retirement.Ledger.{LedgerRow, Ledger, recorded, is_keyed}
use helios_horizon.Retirement.World.{Env, Vault}
use helios_horizon.Retirement.Assertions.{is_some}
use helios_horizon.Retirement.Reports.{
  matches_row, archive_of, availability_of, availability_map, payload_state, seen,
}

abbrev is_present : Option PayloadState → Bool
is_present none = false
is_present (some s) = same_payload_state s present

blocking-named :
    (s : PayloadState)
    → one_of s blocking_states ≡ true
    → (one_of s ledger_states ≡ true) × (same_payload_state s present ≡ false)
blocking-named present h = ground arith
blocking-named missing h = ground arith
blocking-named prepared h = (refl, refl)
blocking-named quarantined h = (refl, refl)
blocking-named purge_prepared h = (refl, refl)
blocking-named purged h = (refl, refl)
blocking-named rolled_back h = ground arith
blocking-named failed h = (refl, refl)
blocking-named ambiguous h = (refl, refl)

module _ (env : Env) (disk : Disk) where
  availability_of-blocking :
      (r : LedgerRow)
      → one_of r.state blocking_states ≡ true
      → availability_of env disk r ≡ some r.state
  availability_of-blocking r h = rw ((blocking-named r.state h).0, h) refl

  availability_of-present : (r : LedgerRow) → is_present (availability_of env disk r) ≡ false
  availability_of-present r = ground (arith, blocking-named r.state)

  -- What is in the map stays there.
  availability_map-keeps :
      (rows : Ledger) (states : Dict PayloadState) (b : String)
      → is_some (get states b) ≡ true
      → is_some (get (availability_map env disk rows states) b) ≡ true
  unfolding availability_map
  availability_map-keeps [] states b h = h
  availability_map-keeps (r ∷ rows) states b h = elim (Option-cases (availability_of env disk r)) [
    | inl k ↦ rw k (availability_map-keeps rows states b h)
    | inr k ↦ rw k.1 (
        availability_map-keeps rows (put states r.backup_id k.0) b
          (rw (get-put states r.backup_id b k.0) (ground (arith, h))))
  ]

  abbrev blocks_restore : Option LedgerRow → Bool
  blocks_restore none = false
  blocks_restore (some r) = is_some (availability_of env disk r)

  -- A row that is not available has put its backup into the map.
  availability_map-recorded :
      (rows : Ledger) (states : Dict PayloadState) (op b : String)
      → blocks_restore (recorded op b rows) ≡ true
      → is_some (get (availability_map env disk rows states) b) ≡ true
  unfolding availability_map recorded
  availability_map-recorded [] states op b h = ground arith
  availability_map-recorded (r ∷ rows) states op b h = elim (Bool-cases (is_keyed op b r)) [
    | inl t ↦
        let k : is_some (availability_of env disk r) ≡ true =
          subst (λ c. blocks_restore (if c then some r else recorded op b rows) ≡ true) t h in
        elim (Option-cases (availability_of env disk r)) [
          | inl u ↦ ground (arith, k, u)
          | inr u ↦ rw u.1 (
              availability_map-keeps rows (put states r.backup_id u.0) b
                (rw (get-put states r.backup_id b u.0) (ground (arith, t))))
        ]
    | inr t ↦
        availability_map-recorded rows _ op b
          (subst (λ c. blocks_restore (if c then some r else recorded op b rows) ≡ true) t h)
  ]

  -- No backup is ever `present` in the map.
  availability_map-present :
      (rows : Ledger) (states : Dict PayloadState) (b : String)
      → is_present (get states b) ≡ false
      → is_present (get (availability_map env disk rows states) b) ≡ false
  unfolding availability_map
  availability_map-present [] states b h = h
  availability_map-present (r ∷ rows) states b h =
      elim (Option-cases (availability_of env disk r)) [
        | inl k ↦ rw k (availability_map-present rows states b h)
        | inr k ↦ rw k.1 (
            availability_map-present rows (put states r.backup_id k.0) b (
              rw (get-put states r.backup_id b k.0)
                (ground (arith, h, k.1, availability_of-present r))))
      ]

-- The path has a single regular file with the device, inode, size and time of the identity.
abbrev pub IsAt : Identity → Option Node → Type 0
IsAt i o =
    (n : Node) × (o ≡ some n)
    × (n.regular ≡ true)
    × (n.links ≡ 1)
    × (n.identity.device ≡ i.device)
    × (n.identity.inode ≡ i.inode)
    × (n.identity.size_bytes ≡ i.size_bytes)
    × (n.identity.mtime_ns ≡ i.mtime_ns)

matches_row-IsAt : (o : Option Node) (i : Identity) → matches_row o i ≡ true → IsAt i o
matches_row-IsAt none i h = ground arith
matches_row-IsAt (some n) i h =
    (n, refl, ground arith, ground arith, ground arith, ground arith, ground arith, ground arith)

-- A row that does not block: its payload was brought back, and is there.
abbrev pub IsBack : Disk → LedgerRow → Type 0
IsBack disk r = (r.state ≡ rolled_back) × IsAt r.expected (disk (archive_of r))

rolled_back_only :
    (s : PayloadState)
    → one_of s ledger_states ≡ true
    → one_of s blocking_states ≡ false
    → s ≡ rolled_back
rolled_back_only rolled_back h k = refl
rolled_back_only present h k = ground arith
rolled_back_only missing h k = ground arith
rolled_back_only prepared h k = ground arith
rolled_back_only quarantined h k = ground arith
rolled_back_only purge_prepared h k = ground arith
rolled_back_only purged h k = ground arith
rolled_back_only failed h k = ground arith
rolled_back_only ambiguous h k = ground arith

module _ (env : Env) (disk : Disk) where
  available-IsBack : (r : LedgerRow) → is_some (availability_of env disk r) ≡ false → IsBack disk r
  available-IsBack r h = (
    rolled_back_only r.state (ground arith) (ground arith),
    matches_row-IsAt (disk (archive_of r)) r.expected (ground arith),
  )

  blocked :
      (r : LedgerRow) (rows : Ledger) (states : Dict PayloadState) (b : String) (s : PayloadState)
      → is_some (get (availability_map env disk rows (put states r.backup_id s)) b) ≡ false
      → (str_eq r.backup_id b ≡ false) ⊎ IsBack disk r
  blocked r rows states b s h = elim (Bool-cases (str_eq r.backup_id b)) [
    | inr t ↦ inl t
    | inl t ↦
        let kept =
          availability_map-keeps env disk rows (put states r.backup_id s) b
            (rw (get-put states r.backup_id b s, t) refl) in
        absurd (ground (arith, h, kept))
  ]

  -- What the map leaves out is of other backups, or is back.
  unblocked-IsBack :
      (rows : Ledger) (states : Dict PayloadState) (b : String)
      → is_some (get (availability_map env disk rows states) b) ≡ false
      → All (λ r. (str_eq r.backup_id b ≡ false) ⊎ IsBack disk r) rows
  unfolding availability_map
  unblocked-IsBack [] states b h = tt
  unblocked-IsBack (r ∷ rows) states b h = elim (Option-cases (availability_of env disk r)) [
    | inl k ↦ (inr (available-IsBack r (rw k refl)), unblocked-IsBack rows states b (rw k at h))
    | inr (s, k) ↦ (
      blocked r rows states b s (rw k at h),
      unblocked-IsBack rows (put states r.backup_id s) b (rw k at h),
    )
  ]

-- What is offered as `present` is not in the map.
offered :
    (o : Option PayloadState) (n : Option Node)
    → is_present o ≡ false
    → elim o [ some s ↦ s | none ↦ seen n ] ≡ present
    → is_some o ≡ false
offered none n h k = refl
offered (some s) n h k = ground (arith, h, k)

there :
    (o : Option PayloadState) (n : Option Node)
    → is_present o ≡ false
    → elim o [ some s ↦ s | none ↦ seen n ] ≡ present
    → (k : Node) × (n ≡ some k) × (k.regular ≡ true) × (k.links ≡ 1)
there none none h k = ground arith
there none (some n) h k = (n, refl, ground arith, ground arith)
there (some s) n h k = ground (arith, h, k)

-- A backup is offered as `present` only when a single regular file is at its archive path, and
-- every row of the ledger for the backup says `rolled_back` and has at its archive path a single
-- regular file with the device, inode, size and time of the row.
pub payload_state-present :
    (env : Env) (v : Vault) (profile_id b : String)
    → payload_state env v profile_id b ≡ present
    → ((n : Node) × (v.disk (record { root = profile_id; relative = archived b }) ≡ some n)
        × (n.regular ≡ true)
        × (n.links ≡ 1))
      × All (λ r. (str_eq r.backup_id b ≡ false) ⊎ IsBack v.disk r) v.ledger
payload_state-present env v profile_id b h =
    let states = availability_map env v.disk v.ledger [] in
    let empty = availability_map-present env v.disk v.ledger [] b (rw (get-empty b) refl) in
    let node = v.disk (record { root = profile_id; relative = archived b }) in
    (
      there (get states b) node empty h,
      unblocked-IsBack env v.disk v.ledger [] b (offered (get states b) node empty h),
    )
