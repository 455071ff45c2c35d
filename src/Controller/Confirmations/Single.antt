-- ===== src/Controller/Confirmations/Single.antt =====
-- A confirmation is good for its actor and its action, once (src/game_control/controller.py).
use helios_horizon.Common.{
  ℕ, ◌+◌, ◌<◌, String, ◌≡◌, ◌≢◌, refl, inl, inr, Option-cases, none, some, arith, str_eq, eq_iff,
  eq_refl, if◌then◌else◌, get, get-put, get-put_self,
}
use helios_horizon.Controller.Database.{Confirmation, Db}
use helios_horizon.Controller.Confirmations.{
  confirmation_ttl, create_confirmation, payload_of, mark_consumed, consume_row,
  consume_confirmation,
}

-- What is known of a row when its confirmation is consumed.
pub record IsConsumable (now : ℕ) (actor action payload : String) (db : Db) (row : Confirmation)
    : Type 0 where
  pub same_actor : row.actor ≡ actor
  pub same_action : row.action ≡ action
  pub same_payload : row.payload ≡ payload
  pub unused : row.consumed_at ≡ none
  pub in_time : now < row.expires_at
  pub current : row.state_generation ≡ db.generation

consume_row-ok :
    (now : ℕ) (actor action id payload : String) (row : Confirmation) (db : Db)
    → (consume_row now actor action id row db).0 ≡ payload_of payload
    → IsConsumable now actor action payload db row
      × ((consume_row now actor action id row db).1 ≡ mark_consumed now id row db)
unfolding consume_row
consume_row-ok now actor action id payload row db h =
    ground (arith, eq_iff row.action action, eq_iff row.actor actor)

-- A confirmation that is accepted was made for the actor and the action, is unused, unexpired and
-- of the current generation, and is marked as used; every other confirmation is as it was.
pub consume_confirmation-ok :
    (now : ℕ) (actor action id payload : String) (db : Db)
    → (consume_confirmation now actor action id db).0 ≡ payload_of payload
    → (row : Confirmation) × (get db.confirmations id ≡ some row)
      × IsConsumable now actor action payload db row
      × ((j : String)
          → get (consume_confirmation now actor action id db).1.confirmations j ≡ (
              if str_eq id j
              then some (record row { consumed_at = some now })
              else get db.confirmations j))
unfolding consume_confirmation mark_consumed
consume_confirmation-ok now actor action id payload db h =
    elim (Option-cases (get db.confirmations id)) [
      | inl absent ↦ absurd (ground arith)
      | inr (row, here) ↦
          let (good, after) = consume_row-ok now actor action id payload row db (ground arith) in
          (
            row,
            here,
            good,
            λ j.
                ground
                  (arith, get-put db.confirmations id j (record row { consumed_at = some now })),
          )
    ]

-- A row of the actor and the action, unused, in time and current, is accepted.
consume-consumable :
    (now : ℕ) (actor action id payload : String) (row : Confirmation) (db : Db)
    → get db.confirmations id ≡ some row
    → IsConsumable now actor action payload db row
    → consume_confirmation now actor action id db
      ≡ (payload_of payload, mark_consumed now id row db)
unfolding consume_confirmation consume_row
consume-consumable now actor action id payload row db here good = ground (
  arith,
  good.same_actor,
  good.same_action,
  good.same_payload,
  good.unused,
  good.in_time,
  good.current,
  eq_refl actor,
  eq_refl action,
)

-- A row that is used is refused.
consume-used :
    (now t : ℕ) (actor action id text : String) (row : Confirmation) (db : Db)
    → get db.confirmations id ≡ some (record row { consumed_at = some t })
    → (consume_confirmation now actor action id db).0 ≢ payload_of text
unfolding consume_confirmation consume_row
consume-used now t actor action id text row db here h = ground arith

-- Within five minutes of its making and with the generation unchanged, the confirmation of an id is
-- accepted from its actor for its action, with its payload; and then it is not accepted
-- a second time, at whatever time and from whomever.
pub confirm_once :
    (made now later : ℕ) (id actor action profile_id payload actor' action' : String) (db : Db)
    → now < made + confirmation_ttl
    → let created = create_confirmation made id actor action profile_id payload db.generation db in
      let (first, after) = consume_confirmation now actor action id created in
      (first ≡ payload_of payload)
      × ((text : String) → (consume_confirmation later actor' action' id after).0 ≢ payload_of text)
unfolding create_confirmation mark_consumed
confirm_once made now later id actor action profile_id payload actor' action' db in_time =
    let row : Confirmation = record {
      actor = actor;
      action = action;
      profile_id = profile_id;
      payload = payload;
      expires_at = made + confirmation_ttl;
      consumed_at = none;
      state_generation = db.generation;
    } in
    let created = create_confirmation made id actor action profile_id payload db.generation db in
    let accepted =
      consume-consumable now actor action id payload row created
        (get-put_self db.confirmations id row)
        (record {
          same_actor = refl;
          same_action = refl;
          same_payload = refl;
          unused = refl;
          in_time = in_time;
          current = refl;
        }) in
    let used = get-put_self created.confirmations id (record row { consumed_at = some now }) in
    rw accepted (
      refl,
      λ text.
          consume-used later now actor' action' id text row (mark_consumed now id row created) used,
    )
