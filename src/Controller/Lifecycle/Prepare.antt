-- ===== src/Controller/Lifecycle/Prepare.antt =====
-- `_prepare_switch` and `_prepare_force_stop` of src/game_control/controller.py.
use helios_horizon.Common.{String, false}
use helios_horizon.Slot.Values.{ProfileId, value, same_profile}
use helios_horizon.Controller.Database.{invalid_request}
use helios_horizon.Controller.Confirmations.{create_confirmation}
use helios_horizon.Program.{returned, ◌>>=◌, ◌>>◌, raise_if}
use helios_horizon.Controller.Lifecycle.Script.{failure, Env, Script}
use helios_horizon.Controller.Lifecycle.Leases.{get_profile, require_operation}

-- `_create_confirmation` with the text of its payload: the id of the confirmation
unfoldable pub store_confirmation : Env → String → String → ProfileId → String → Script String
store_confirmation env actor action p payload f =
    let id = env.fresh f.tick in
    (
      returned id,
      record f {
        db =
            create_confirmation (env.now f.tick) id actor action (value p) payload f.db.generation
              f.db;
      },
    )

-- `_prepare_switch` with the text of its payload
unfoldable pub prepare_switch : Env → ProfileId → ProfileId → String → String → Script String
prepare_switch env current target payload actor = do
  raise_if (same_profile current target) (failure invalid_request false)
  source ← get_profile env current
  wanted ← get_profile env target
  require_operation env source "stop" actor
  require_operation env wanted "start" actor
  store_confirmation env actor "switch" current payload

-- `_prepare_force_stop` with the text of its payload
unfoldable pub prepare_force_stop : Env → ProfileId → String → String → Script String
prepare_force_stop env p payload actor = do
  profile ← get_profile env p
  require_operation env profile "force_stop" actor
  store_confirmation env actor "force_stop" p payload
