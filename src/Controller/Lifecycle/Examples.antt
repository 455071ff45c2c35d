-- ===== src/Controller/Lifecycle/Examples.antt =====
-- A start, a start whose server is not healthy, and a switch that is rolled back.
use helios_horizon.Common.{
  ◌⊎◌, ℕ, String, ◌≡◌, refl, true, false, Option, none, some, [], ◌∷◌, ◌==◌, if◌then◌else◌,
}
use helios_horizon.Slot.Values.{ProfileId, terraria_vanilla, minecraft}
use helios_horizon.Controller.Database.{Db, Confirmation}
use helios_horizon.Controller.Lifecycle.Script.{
  StatusReply, snapshot, granted, Awaited, work_done, Profile, Env, Frame,
}
use helios_horizon.Controller.Lifecycle.Start.{start_profile}
use helios_horizon.Controller.Lifecycle.Switch.{confirm_switch}
use helios_horizon.Controller.Lifecycle.Guarded.{open_lease, is_guarded, stored_lease, has_fault}
use helios_horizon.Controller.Lifecycle.Starts.{start_profile-guarded}
use helios_horizon.Controller.Lifecycle.Switches.{confirm_switch-guarded}

abbrev configured : ProfileId → Option Profile
configured p = some (record { id = p; operations = "start" ∷ "stop" ∷ "force_stop" ∷ [] })

abbrev running_vanilla : StatusReply
running_vanilla = snapshot (
    record {
      profile_id = terraria_vanilla;
      state = "running";
      slot_owner = some terraria_vanilla;
      active_job_id = none;
      players_online = some 0;
      required_ports_ready = true;
    }
    ∷ [])

-- Everything succeeds, but the answer to the call of one number.
abbrev world : ℕ → Awaited → Env
world bad answer = record {
  now = λ n. n;
  fresh = λ n. "fresh";
  profiles = configured;
  has_adapter = λ p. true;
  has_backups = true;
  decode_switch = λ text. record {
    source = terraria_vanilla;
    target = minecraft;
    create_backup = true;
    force_after_timeout = true;
    rollback_on_failure = true;
  };
  reserving = λ n. granted;
  transferring = λ n. granted;
  awaited = λ n. if n == bad then answer else work_done true false;
  lease_lost = λ n. false;
  interrupted = λ n. false;
  status = λ n. running_vanilla;
  inspected = λ n. some (record {
    owner = some "terraria-vanilla";
    pid = none;
    proc_start_ticks = none;
    inconsistent = false;
  });
  draining = λ n. record { renewal_error = none; cleanup_error = none };
}

abbrev confirmed : String → Confirmation
confirmed action = record {
  actor = "admin";
  action = action;
  profile_id = "terraria-vanilla";
  payload = "terraria-vanilla";
  expires_at = 1000;
  consumed_at = none;
  state_generation = 0;
}

abbrev tables : Db
tables = record {
  requests = [];
  confirmations = ("c1", confirmed "switch") ∷ ("c2", confirmed "force_stop") ∷ [];
  jobs = [];
  benchmark_runs = none;
  audit_rows = [];
  generation = 0;
}

abbrev at_rest : Frame
at_rest = record {
  db = tables;
  calls = [];
  tick = 0;
  lease = none;
  renewing = false;
  job_id = none;
  begun = false;
  attempt = false;
  succeeded = false;
  target_started = false;
  rollback_lease = none;
  rollback_renewing = false;
}

-- The server does not become healthy.
abbrev unhealthy : Env
unhealthy = world 7 (work_done false false)

abbrev frame_after_start : Frame
frame_after_start = (start_profile unhealthy terraria_vanilla "admin" "r1" at_rest).1

start_profile-guarded_example :
    let (r, f') = start_profile unhealthy terraria_vanilla "admin" "r1" at_rest in
    (open_lease f'.calls ≡ none)
    × ((stored_lease f'.calls ≡ none) ⊎ (has_fault f'.calls ≡ true))
    × (is_guarded f'.calls ≡ true)
unfolding open_lease is_guarded
start_profile-guarded_example =
    start_profile-guarded unhealthy terraria_vanilla "admin" "r1" at_rest refl refl

-- The target does not become healthy, and the source is started again.
abbrev target_unhealthy : Env
target_unhealthy = world 11 (work_done false false)

abbrev frame_after_switch : Frame
frame_after_switch = (confirm_switch target_unhealthy "c1" "admin" at_rest).1

confirm_switch-guarded_example :
    let (r, f') = confirm_switch target_unhealthy "c1" "admin" at_rest in
    (open_lease f'.calls ≡ none)
    × ((stored_lease f'.calls ≡ none) ⊎ (has_fault f'.calls ≡ true))
    × (is_guarded f'.calls ≡ true)
unfolding open_lease is_guarded
confirm_switch-guarded_example =
    confirm_switch-guarded target_unhealthy "c1" "admin" at_rest refl refl
