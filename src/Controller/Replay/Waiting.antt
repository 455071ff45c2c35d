-- ===== src/Controller/Replay/Waiting.antt =====
-- `_wait_for_replay` of src/game_control/controller.py: what a repeat gets while the request is
-- dispatched.
use helios_horizon.Common.{ℕ, suc, String, ◌≡◌, true, some, arith, eq_refl, get}
use helios_horizon.Controller.Database.{Db}
use helios_horizon.Controller.Replay.{
  Protocol, Serialises, pending, claim_row, claim_request, wait_rounds, wait_for_replay,
}
use helios_horizon.Controller.Replay.Once.{IsCompleted}
use helios_horizon.Controller.Replay.Execute.{claim-completed}

module _ (p : Protocol) (sleep : ℕ → Db → Db) (id canonical : String) (r : p.Response) where
  -- The request is pending in some of the rounds that are left, and then completed in one.
  pub data IsAnsweredIn : ℕ → Db → Type 0 where
    completed : (n : ℕ) (db : Db) → IsCompleted p id canonical r db → IsAnsweredIn (suc n) db
    waits :
        (n : ℕ) (db : Db) (text : String)
        → get db.requests id
          ≡ some (record { canonical = canonical; response = text; pending = true })
        → IsAnsweredIn n (sleep n db)
        → IsAnsweredIn (suc n) db

  claim-pending :
      (db : Db) (text : String)
      → get db.requests id
        ≡ some (record { canonical = canonical; response = text; pending = true })
      → claim_request p id canonical db ≡ (pending, db)
  unfolding claim_request claim_row
  claim-pending db text h = ground (arith, eq_refl canonical)

  wait_rounds-answered :
      Serialises p
      → (n : ℕ) (db : Db) → IsAnsweredIn n db
      → (wait_rounds p n sleep id canonical db).0 ≡ r
  unfolding wait_rounds
  wait_rounds-answered laws _ db (completed n _ done) =
      ground (arith, claim-completed p id canonical db laws canonical r done, eq_refl canonical)
  wait_rounds-answered laws _ db (waits n _ text row rest) =
      ground (arith, claim-pending db text row, wait_rounds-answered laws n (sleep n db) rest)

  -- If the response of a pending request is stored before the rounds are over, then the
  -- repeat that waits for it gets that response.
  pub wait_for_replay-answered :
      Serialises p
      → (db : Db) → IsAnsweredIn 1000 db
      → (wait_for_replay p sleep id canonical db).0 ≡ r
  unfolding wait_for_replay
  wait_for_replay-answered laws db h = wait_rounds-answered laws 1000 db h
