-- ===== src/Controller/Replay/Execute.antt =====
-- `_execute` of src/game_control/controller.py: one dispatch for a request id, and what its repeats
-- get.
use helios_horizon.Common.{
  ℕ, String, ◌≡◌, refl, true, false, none, some, arith, str_eq, eq_refl, if◌then◌else◌, get,
  get-put_self, ◌∙◌,
}
use helios_horizon.Controller.Database.{Db}
use helios_horizon.Controller.Replay.{
  Protocol, Serialises, claimed, answered, stored, claim_row, claim_request, complete, store_replay,
  after_claim, execute,
}

module _ (p : Protocol) (id canonical : String) (db : Db) where
  -- A claim of a fresh id.
  claim-fresh :
      get db.requests id ≡ none
      → ((claim_request p id canonical db).0 ≡ claimed)
        × (get (claim_request p id canonical db).1.requests id
            ≡ some (record { canonical = canonical; response = ""; pending = true }))
  unfolding claim_request
  claim-fresh fresh = ground (
    arith,
    get-put_self db.requests id (record { canonical = canonical; response = ""; pending = true }),
  )

  -- The store of the response of a claimed request.
  store_replay-claimed :
      (r : p.Response)
      → get db.requests id ≡ some (record { canonical = canonical; response = ""; pending = true })
      → get (store_replay p id canonical r db).requests id
        ≡ some (record { canonical = canonical; response = p.encode r; pending = false })
  unfolding store_replay complete
  store_replay-claimed r here = ground (
    arith,
    eq_refl canonical,
    get-put_self db.requests id
        (record { canonical = canonical; response = p.encode r; pending = false }),
  )

  -- A claim of a completed id.
  pub claim-completed :
      Serialises p
      → (other : String) (r : p.Response)
      → get db.requests id
        ≡ some (record { canonical = canonical; response = p.encode r; pending = false })
      → claim_request p id other db
        ≡ (answered (if str_eq canonical other then r else p.id_conflict id), db)
  unfolding claim_request claim_row stored
  claim-completed laws other r here = ground (arith, laws.encode-ne_empty r, laws.decode-encode r)

module _ (p : Protocol) (laws : Serialises p) {W : Type 0} (dispatch : Db × W → p.Response × Db × W)
    (keeps : (s : Db × W) (id : String) → get (dispatch s).1.requests id ≡ get s.0.requests id)
    (sleep : ℕ → Db → Db) where
  -- The first execution of a fresh id dispatches; each repeat afterwards returns the same response
  -- with the tables and the rest of the world as they were, and another request under the id is a
  -- conflict. The handler is taken to leave the table of requests alone.
  pub execute_once :
      (id canonical other : String) (db : Db) (w : W)
      → get db.requests id ≡ none
      → let (r, db', w') = execute p dispatch sleep id canonical db w in
        (w' ≡ (dispatch ((claim_request p id canonical db).1, w)).2)
        × (execute p dispatch sleep id other db' w'
            ≡ ((if str_eq canonical other then r else p.id_conflict id), db', w'))
  unfolding execute after_claim
  execute_once id canonical other db w fresh =
      let (is_claimed, row) = claim-fresh p id canonical db fresh in
      let db₁ = (claim_request p id canonical db).1 in
      let out = dispatch (db₁, w) in
      let kept = keeps (db₁, w) id ∙ row in
      let completed = store_replay-claimed p id canonical out.1 out.0 kept in
      let again =
        claim-completed p id canonical (store_replay p id canonical out.0 out.1) laws other out.0
          completed in
      rw is_claimed (refl, rw again refl)
