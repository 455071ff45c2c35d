-- ===== src/Controller/Replay/Once.antt =====
-- The rows of rpc_idempotency over any interleaving of the transactions that touch them
-- (src/game_control/controller.py).
use helios_horizon.Common.{
  ℕ, ◌+◌, ◌≤◌, String, ◌≡◌, refl, ◌⊎◌, inl, inr, Bool, true, false, not, ◌&&◌, Option, Option-cases,
  Bool-cases, none, some, List, [], ◌∷◌, arith, str_eq, eq_iff, if◌then◌else◌, Dict, get, get-put,
}
use helios_horizon.Controller.Database.{RequestRow, Db}
use helios_horizon.Controller.Replay.{
  Protocol, Serialises, Claim, claimed, answered, stored, claim_row, claim_request, complete,
  store_replay, interrupt, interrupt_all, fail_pending, prune_rows, prune_completed_rpc_idempotency,
}

-- A transaction: a claim and its later store, by any process, a restart of the controller, or the
-- removal of completed rows of which the given ones are old enough.
pub data Event (R : Type 0) : Type 0 where
  claim : String → String → Event R
  store : String → String → R → Event R
  restart : Event R
  prune : (String → Bool) → Event R

module _ (p : Protocol) where
  unfoldable pub step : Event p.Response → Db → Db
  step (claim id canonical) db = (claim_request p id canonical db).1
  step (store id canonical r) db = store_replay p id canonical r db
  step restart db = fail_pending p db
  step (prune expired) db = prune_completed_rpc_idempotency p expired db

  unfoldable pub run : List (Event p.Response) → Db → Db
  run [] db = db
  run (e ∷ es) db = run es (step e db)

  -- 1 if the event is a claim of the id that lets the caller execute.
  abbrev granted_by : Claim p.Response → ℕ
  granted_by claimed = 1
  granted_by _ = 0

  unfoldable pub grant : String → Event p.Response → Db → ℕ
  grant id (claim j canonical) db =
      if str_eq j id then granted_by (claim_request p j canonical db).0 else 0
  grant id _ db = 0

  -- How often a claim of the id lets its caller execute.
  unfoldable pub grants : String → List (Event p.Response) → Db → ℕ
  grants id [] db = 0
  grants id (e ∷ es) db = grant id e db + grants id es (step e db)

  abbrev is_removed : Bool → Option RequestRow → ℕ
  is_removed expired none = 0
  is_removed expired (some row) = if expired && not row.pending then 1 else 0

  -- 1 if the event removes the row of the id, which is completed.
  unfoldable pub removal : String → Event p.Response → Db → ℕ
  removal id (prune expired) db = is_removed (expired id) (get db.requests id)
  removal id _ db = 0

  -- How often the row of the id is removed when it is completed.
  unfoldable pub removals : String → List (Event p.Response) → Db → ℕ
  removals id [] db = 0
  removals id (e ∷ es) db = removal id e db + removals id es (step e db)

  unfoldable pub known : String → Dict RequestRow → Bool
  known id rows = elim (get rows id) [ none ↦ false | some row ↦ true ]

  get-interrupt_all :
      (rows : Dict RequestRow) (id : String)
      → get (interrupt_all p rows) id
        ≡ (elim (get rows id) [ none ↦ none | some row ↦ some (interrupt p id row) ])
  unfolding get interrupt_all
  get-interrupt_all [] id = refl
  get-interrupt_all ((j, row) ∷ rows) id = ground (arith, eq_iff j id, get-interrupt_all rows id)

  get-prune_rows :
      (expired : String → Bool) (rows : Dict RequestRow) (id : String) (row : RequestRow)
      → get rows id ≡ some row
      → (expired id && not row.pending) ≡ false
      → get (prune_rows p expired rows) id ≡ some row
  unfolding get prune_rows
  get-prune_rows expired [] id row h k = ground arith
  get-prune_rows expired ((j, other) ∷ rows) id row h k =
      ground (arith, eq_iff j id, get-prune_rows expired rows id row)

  known-step :
      (id : String) (e : Event p.Response) (db : Db)
      → known id db.requests ≡ true
      → (removal id e db ≡ 1) ⊎ (known id (step e db).requests ≡ true)
  unfolding known step removal claim_request store_replay fail_pending
      prune_completed_rpc_idempotency
  known-step id (claim j canonical) db h = inr (
      ground (
        arith,
        get-put db.requests j id (record { canonical = canonical; response = ""; pending = true }),
      ))
  known-step id (store j canonical r) db h = elim (Option-cases (get db.requests j)) [
    | inl absent ↦ inr (ground arith)
    | inr (row, here) ↦
        inr (ground (arith, get-put db.requests j id (complete p canonical (p.encode r) row)))
  ]
  known-step id restart db h = inr (ground (arith, get-interrupt_all db.requests id))
  known-step id (prune expired) db h = elim (Option-cases (get db.requests id)) [
    | inl absent ↦ absurd (ground (arith, h, absent))
    | inr (row, here) ↦ elim (Bool-cases (expired id && not row.pending)) [
      | inl t ↦ inl (rw (here, t) refl)
      | inr t ↦ inr (ground (arith, get-prune_rows expired db.requests id row here t))
    ]
  ]

  grant-step :
      (id : String) (e : Event p.Response) (db : Db)
      → (grant id e db ≡ 0)
        ⊎ ((known id db.requests ≡ false)
            × (grant id e db ≡ 1)
            × (known id (step e db).requests ≡ true))
  unfolding known step grant claim_request claim_row
  grant-step id (claim j canonical) db = elim (Bool-cases (str_eq j id)) [
    | inr other ↦ inl (rw other)
    | inl same ↦ elim (Option-cases (get db.requests j)) [
      | inr (row, here) ↦ inl (ground arith)
      | inl absent ↦ inr (
        ground (arith, eq_iff j id),
        ground arith,
        ground (
          arith,
          get-put db.requests j id
              (record { canonical = canonical; response = ""; pending = true }),
        ),
      )
    ]
  ]
  grant-step id (store j canonical r) db = inl refl
  grant-step id restart db = inl refl
  grant-step id (prune expired) db = inl refl

  -- A row that is known must be removed before its request is granted.
  grants-removals :
      (id : String) (es : List (Event p.Response)) (db : Db)
      → (known id db.requests ≡ true → grants id es db ≤ removals id es db)
        × (grants id es db ≤ 1 + removals id es db)
  unfolding grants removals
  grants-removals id [] db = (λ h. omega arith, omega arith)
  grants-removals id (e ∷ es) db =
      let (tight, loose) = grants-removals id es (step e db) in
      (
        λ h. ground (arith, grant-step id e db, known-step id e db h, tight, loose),
        ground (arith, grant-step id e db, tight, loose),
      )

  -- Whatever claims and stores any processes make, however often the controller restarts, and
  -- whatever completed rows are pruned as too old: the claims of a request id that let their
  -- caller execute are at most one more than the removals of its completed row. So as long as the
  -- row is not pruned, at most one claim does.
  pub at_most_one_grant :
      (id : String) (es : List (Event p.Response)) (db : Db)
      → grants id es db ≤ 1 + removals id es db
  at_most_one_grant id es db = (grants-removals id es db).1

  -- The row holds the request with its response.
  abbrev pub IsCompleted : String → String → p.Response → Db → Type 0
  IsCompleted id canonical r db =
      get db.requests id
      ≡ some (record { canonical = canonical; response = p.encode r; pending = false })

  IsCompleted-step :
      (id canonical : String) (r : p.Response) (e : Event p.Response) (db : Db)
      → IsCompleted id canonical r db
      → removal id e db ≡ 0
      → IsCompleted id canonical r (step e db)
  unfolding step removal claim_request store_replay fail_pending complete interrupt
      prune_completed_rpc_idempotency
  IsCompleted-step id canonical r (claim j c) db h k = elim (Option-cases (get db.requests j)) [
    | inl absent ↦ ground (
      arith,
      eq_iff j id,
      get-put db.requests j id (record { canonical = c; response = ""; pending = true }),
    )
    | inr (row, here) ↦ ground arith
  ]
  IsCompleted-step id canonical r (store j c q) db h k = elim (Option-cases (get db.requests j)) [
    | inl absent ↦ ground arith
    | inr (row, here) ↦
        ground (arith, eq_iff j id, get-put db.requests j id (complete p c (p.encode q) row))
  ]
  IsCompleted-step id canonical r restart db h k = ground (arith, get-interrupt_all db.requests id)
  IsCompleted-step id canonical r (prune expired) db h k =
      let row : RequestRow = record {
        canonical = canonical;
        response = p.encode r;
        pending = false;
      } in
      get-prune_rows expired db.requests id row h (ground (arith, h, k))

  IsCompleted-run :
      (id canonical : String) (r : p.Response) (es : List (Event p.Response)) (db : Db)
      → IsCompleted id canonical r db
      → removals id es db ≡ 0
      → IsCompleted id canonical r (run es db)
  unfolding run removals
  IsCompleted-run id canonical r [] db h k = h
  IsCompleted-run id canonical r (e ∷ es) db h k =
      IsCompleted-run id canonical r es (step e db)
        (IsCompleted-step id canonical r e db h (omega arith)) (omega arith)

  -- Once a request is completed, every later claim of its id is answered: with the response that
  -- was stored if the request is the same, with a conflict if it is another, whatever happens in
  -- between, as long as its row is not removed.
  pub replay_stable :
      Serialises p
      → (id canonical other : String) (r : p.Response) (es : List (Event p.Response)) (db : Db)
      → IsCompleted id canonical r db
      → removals id es db ≡ 0
      → (claim_request p id other (run es db)).0
        ≡ (if str_eq canonical other then answered r else answered (p.id_conflict id))
  unfolding claim_request claim_row stored
  replay_stable laws id canonical other r es db h k = ground (
    arith,
    IsCompleted-run id canonical r es db h k,
    laws.encode-ne_empty r,
    laws.decode-encode r,
  )
