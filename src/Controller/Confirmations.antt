-- ===== src/Controller/Confirmations.antt =====
-- src/game_control/controller.py: a confirmation is made for an actor and an action, and is used
-- once, within five minutes and before the next change of the generation.
pub mod Single
use helios_horizon.Common.{
  ℕ, ◌+◌, ◌*◌, String, Bool, true, false, not, ◌&&◌, ◌||◌, Option, none, some, leb, ◌==◌, str_eq,
  if◌then◌else◌, get, put,
}
use helios_horizon.Controller.Database.{
  Confirmation, ErrorCode, confirmation_mismatch, confirmation_expired, Db, audit,
}

-- timedelta(minutes=5)
abbrev pub confirmation_ttl : ℕ
confirmation_ttl = 5 * 60 * 1000000

-- `_create_confirmation`, with the new id from `uuid4`, which no row has, the payload's JSON text,
-- and the generation that was read before the transaction.
unfoldable pub create_confirmation : ℕ → String → String → String → String → String → ℕ → Db → Db
create_confirmation now id actor action profile_id payload generation db = record db {
  confirmations = put db.confirmations id (record {
    actor = actor;
    action = action;
    profile_id = profile_id;
    payload = payload;
    expires_at = now + confirmation_ttl;
    consumed_at = none;
    state_generation = generation;
  });
}

-- The result of `_consume_confirmation`: the payload's text, or the code of the failure.
pub data Consumed : Type 0 where
  payload_of : String → Consumed
  refused : ErrorCode → Consumed

-- `_audit_rejection_sync`, and the `_ControllerFailure`
abbrev reject : ℕ → String → String → Option String → ErrorCode → Db → Consumed × Db
reject now actor action profile_id code db =
    (refused code, audit now actor action profile_id "rejected" (some code) db)

abbrev is_some : Option ℕ → Bool
is_some none = false
is_some (some t) = true

-- `UPDATE confirmations SET consumed_at=? WHERE id=? AND consumed_at IS NULL AND
-- state_generation=?`: under the lock the row is as it was read, so exactly one row is changed.
unfoldable pub mark_consumed : ℕ → String → Confirmation → Db → Db
mark_consumed now id row db = record db {
  confirmations = put db.confirmations id (record row { consumed_at = some now });
}

unfoldable pub consume_row : ℕ → String → String → String → Confirmation → Db → Consumed × Db
consume_row now actor action id row db =
    if not (str_eq row.action action) || not (str_eq row.actor actor)
    then reject now actor action none confirmation_mismatch db
    else if is_some row.consumed_at
    then reject now actor action (some row.profile_id) confirmation_mismatch db
    else if leb row.expires_at now
    then reject now actor action (some row.profile_id) confirmation_expired db
    else if not (row.state_generation == db.generation)
    then reject now actor action (some row.profile_id) confirmation_mismatch db
    else (payload_of row.payload, mark_consumed now id row db)

-- `_consume_confirmation`
unfoldable pub consume_confirmation : ℕ → String → String → String → Db → Consumed × Db
consume_confirmation now actor action id db = elim (get db.confirmations id) [
  | none ↦ reject now actor action none confirmation_mismatch db
  | some row ↦ consume_row now actor action id row db
]
