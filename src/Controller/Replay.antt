-- ===== src/Controller/Replay.antt =====
-- src/game_control/controller.py: the idempotency of requests. A request id is claimed before any
-- side effect, and its response is stored for the requests that repeat it.
pub mod Once
pub mod Execute
pub mod Waiting
use helios_horizon.Common.{
  ℕ, zero, suc, String, ◌≡◌, Bool, true, false, not, ◌&&◌, Option, none, some, List, [], ◌∷◌,
  str_eq, if◌then◌else◌, Dict, get, put,
}
use helios_horizon.Controller.Database.{RequestRow, Db}

-- protocol.py: a response and its JSON text (pydantic's), with the failures that the replay makes,
-- each for a request id. `decode` is `response_from_json`, `none` its exception.
pub record Protocol : Type 1 where
  pub Response : Type 0
  pub id_conflict : String → Response
  pub stored_unavailable : String → Response
  pub in_progress : String → Response
  pub interrupted : String → Response
  pub encode : Response → String
  pub decode : String → Option Response

-- The documented behaviour of the serialisation: a text is never empty, and reads back.
pub record Serialises (p : Protocol) : Type 0 where
  pub encode-ne_empty : (r : p.Response) → str_eq (p.encode r) "" ≡ false
  pub decode-encode : (r : p.Response) → p.decode (p.encode r) ≡ some r

-- What a claim returns: None (the caller is to execute), `_PENDING`, or a response.
pub data Claim (R : Type 0) : Type 0 where
  claimed pending : Claim R
  answered : R → Claim R

module _ (p : Protocol) where
  -- The response of a row that is completed.
  unfoldable pub stored : String → String → p.Response
  stored request_id text = elim (str_eq text "") [
    | true ↦ p.stored_unavailable request_id
    | false ↦ elim (p.decode text) [ none ↦ p.stored_unavailable request_id | some r ↦ r ]
  ]

  unfoldable pub claim_row : String → String → RequestRow → Claim p.Response
  claim_row request_id canonical row =
      if not (str_eq row.canonical canonical)
      then answered (p.id_conflict request_id)
      else if row.pending
      then pending
      else answered (stored request_id row.response)

  -- `_claim_request`
  unfoldable pub claim_request : String → String → Db → Claim p.Response × Db
  claim_request request_id canonical db = elim (get db.requests request_id) [
    | none ↦ (
      claimed,
      record db {
        requests =
            put db.requests request_id
              (record { canonical = canonical; response = ""; pending = true });
      },
    )
    | some row ↦ (claim_row request_id canonical row, db)
  ]

  unfoldable pub complete : String → String → RequestRow → RequestRow
  complete canonical text row =
      if str_eq row.canonical canonical && row.pending
      then record row { response = text; pending = false }
      else row

  -- `_store_replay`
  unfoldable pub store_replay : String → String → p.Response → Db → Db
  store_replay request_id canonical response db = elim (get db.requests request_id) [
    | none ↦ db
    | some row ↦ record db {
      requests = put db.requests request_id (complete canonical (p.encode response) row);
    }
  ]

  -- A row that the crash of the controller left pending.
  unfoldable pub interrupt : String → RequestRow → RequestRow
  interrupt request_id row =
      if row.pending
      then record row { response = p.encode (p.interrupted request_id); pending = false }
      else row

  unfoldable pub interrupt_all : Dict RequestRow → Dict RequestRow
  interrupt_all [] = []
  interrupt_all ((id, row) ∷ rows) = (id, interrupt id row) ∷ interrupt_all rows

  -- The part of `reconcile_startup` that answers the interrupted requests.
  unfoldable pub fail_pending : Db → Db
  fail_pending db = record db { requests = interrupt_all db.requests }

  -- The rows that are left when the completed ones of the given ids are removed.
  unfoldable pub prune_rows : (String → Bool) → Dict RequestRow → Dict RequestRow
  prune_rows expired [] = []
  prune_rows expired ((id, row) ∷ rows) =
      let rest = prune_rows expired rows in
      if expired id && not row.pending then rest else (id, row) ∷ rest

  -- `prune_completed_rpc_idempotency` of state_db.py. Which rows are more than 48 hours old is an
  -- argument, since a row has no time of creation here.
  unfoldable pub prune_completed_rpc_idempotency : (String → Bool) → Db → Db
  prune_completed_rpc_idempotency expired db = record db {
    requests = prune_rows expired db.requests;
  }

  -- The loop of `_wait_for_replay`: `sleep` is what other processes do to the tables in between.
  unfoldable pub wait_rounds : ℕ → (ℕ → Db → Db) → String → String → Db → p.Response × Db
  wait_rounds zero sleep request_id canonical db = (p.in_progress request_id, db)
  wait_rounds (suc n) sleep request_id canonical db =
      let (claim, db') = claim_request request_id canonical db in
      let rest = wait_rounds n sleep request_id canonical (sleep n db') in
      elim claim [
        | claimed ↦ (p.in_progress request_id, db')
        | pending ↦ rest
        | answered r ↦ (r, db')
      ]

  -- `_wait_for_replay`: `range(1000)`
  unfoldable pub wait_for_replay : (ℕ → Db → Db) → String → String → Db → p.Response × Db
  wait_for_replay = wait_rounds 1000

  -- `_execute` of a mutation. `dispatch` is the handler: it changes the tables and, in `W`, the
  -- rest.
  module _ {W : Type 0} (dispatch : Db × W → p.Response × Db × W) (sleep : ℕ → Db → Db) where
    unfoldable pub after_claim : String → String → Claim p.Response → Db → W → p.Response × Db × W
    after_claim request_id canonical claimed db w =
        let (response, db', w') = dispatch (db, w) in
        (response, store_replay request_id canonical response db', w')
    after_claim request_id canonical pending db w =
        let (response, db') = wait_for_replay sleep request_id canonical db in (response, db', w)
    after_claim request_id canonical (answered r) db w = (r, db, w)

    unfoldable pub execute : String → String → Db → W → p.Response × Db × W
    execute request_id canonical db w =
        let (claim, db') = claim_request request_id canonical db in
        after_claim request_id canonical claim db' w
