-- ===== src/Controller/Database.antt =====
-- The tables of state_db.py that src/game_control/controller.py writes in its transactions. Each
-- operation of the modules below runs as the callback of one `_transaction`, so alone. A time is a
-- number of microseconds, and its RFC 3339 text is not modelled.
use helios_horizon.Common.{ℕ, ◌+◌, String, Bool, Option, List, [], ◌∷◌, ◌++◌, Dict}

-- rpc_idempotency
pub record RequestRow : Type 0 where
  pub canonical : String
  pub response : String
  pub pending : Bool

-- confirmations
pub record Confirmation : Type 0 where
  pub actor : String
  pub action : String
  pub profile_id : String
  pub payload : String
  pub expires_at : ℕ
  pub consumed_at : Option ℕ
  pub state_generation : ℕ

-- The states of a job; `_finish` may be given another final state.
pub data JobState : Type 0 where
  accepted running succeeded failed : JobState
  other_state : String → JobState

-- jobs, without created_at and detail
pub record Job : Type 0 where
  pub id : String
  pub profile_id : Option String
  pub operation : String
  pub state : JobState
  pub finished_at : Option ℕ
  pub completion_seq : Option ℕ

-- benchmark_runs: the state, with `true` for `running`, and what a restart writes
pub record BenchmarkRun : Type 0 where
  pub is_running : Bool
  pub finished_at : Option ℕ
  pub error_code : Option String

-- ErrorCode of protocol.py
pub data ErrorCode : Type 0 where
  slot_conflict profile_reserved low_disk low_memory required_file_missing : ErrorCode
  upstream_unavailable start_timeout health_failed grace_timeout backup_failed : ErrorCode
  restore_failed update_failed benchmark_failed confirmation_expired : ErrorCode
  confirmation_mismatch request_id_conflict retirement_failed retirement_unavailable : ErrorCode
  unauthorized_peer invalid_request invalid_state internal_error : ErrorCode

-- audit, without its row id and detail
pub record AuditRow : Type 0 where
  pub timestamp : ℕ
  pub actor : String
  pub action : String
  pub profile_id : Option String
  pub result : String
  pub error_code : Option ErrorCode

-- The generation is the pragma `application_id`, below the 2^31 that SQLite keeps of it. The table of benchmark runs is made on first use.
pub record Db : Type 0 where
  pub requests : Dict RequestRow
  pub confirmations : Dict Confirmation
  pub jobs : List Job
  pub benchmark_runs : Option (List BenchmarkRun)
  pub audit_rows : List AuditRow
  pub generation : ℕ

-- `_bump_generation`
unfoldable pub bump_generation : Db → Db
bump_generation db = record db { generation = db.generation + 1 }

-- `_audit`
unfoldable pub audit : ℕ → String → String → Option String → String → Option ErrorCode → Db → Db
audit now actor action profile_id result code db = record db {
  audit_rows =
      db.audit_rows
      ++ record {
        timestamp = now;
        actor = actor;
        action = action;
        profile_id = profile_id;
        result = result;
        error_code = code;
      }
        ∷ [];
}
