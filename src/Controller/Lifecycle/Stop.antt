-- ===== src/Controller/Lifecycle/Stop.antt =====
-- `_fresh_stop_preflight`, `_acquire_stop_fence`, `_stop_with_fence`, `_stop`, `_restart` and
-- `_confirm_force_stop` of src/game_control/controller.py.
use helios_horizon.Common.{
  ℕ, String, Bool, true, false, not, ◌&&◌, ◌||◌, Option, none, some, List, [], ◌∷◌, ◌==◌, str_eq,
  if◌then◌else◌,
}
use helios_horizon.Slot.Values.{ProfileId, value, same_profile}
use helios_horizon.Slot.Inspector.{SlotObservation}
use helios_horizon.Controller.Database.{health_failed, grace_timeout, internal_error}
use helios_horizon.Controller.Confirmations.{Consumed, payload_of, refused, consume_confirmation}
use helios_horizon.Program.{
  pure, raise, gets, try_except, try_finally, ◌>>=◌, ◌>>◌, modify, raise_if,
}
use helios_horizon.Controller.Lifecycle.Script.{
  Fault, failure, timed_out, cancelled, ServerAction, graceful_stop, force_stop, ProfileStatus,
  StatusReply, unavailable, status_fault, snapshot, status_read, slot_observed, latency_recorded,
  Profile, Env, Script, log,
}
use helios_horizon.Controller.Lifecycle.Leases.{
  conflict, get_profile, require_operation, open_job, close_job, assert_lease, serve, release_lease,
}
use helios_horizon.Controller.Lifecycle.Start.{enter, hold, reported, start_profile}

-- `next(item for item in fresh.profiles if item.profile_id == profile.id)`
unfoldable pub find_profile : ProfileId → List ProfileStatus → Option ProfileStatus
find_profile p [] = none
find_profile p (item ∷ items) =
    if same_profile item.profile_id p then some item else find_profile p items

abbrev pub owns_slot : Option ProfileId → ProfileId → Bool
owns_slot none p = false
owns_slot (some q) p = same_profile q p

abbrev pub no_job : Option String → Bool
no_job none = true
no_job (some id) = false

abbrev pub no_players : Option ℕ → Bool
no_players none = false
no_players (some n) = n == 0

-- None of the refusals of a profile's status.
unfoldable pub is_stoppable : ProfileId → Bool → ProfileStatus → Bool
is_stoppable p allow_players current =
    str_eq current.state "running"
    && owns_slot current.slot_owner p
    && no_job current.active_job_id
    && (allow_players || no_players current.players_online)
    && (allow_players || current.required_ports_ready)

abbrev pub is_owned_by : ProfileId → Option SlotObservation → Bool
is_owned_by p none = false
is_owned_by p (some observed) = elim observed.owner [
  | none ↦ false
  | some owner ↦ not observed.inconsistent && str_eq owner (value p)
]

-- The status of the profile, if it was found.
unfoldable pub check_found : ProfileId → Bool → Option ProfileStatus → Script (Unit {0})
check_found p allow_players none = raise conflict
check_found p allow_players (some current) =
    raise_if (not (is_stoppable p allow_players current)) conflict

-- The status that was read.
unfoldable pub check_status : ProfileId → Bool → StatusReply → Script (Unit {0})
check_status p allow_players unavailable = raise (failure health_failed true)
check_status p allow_players (status_fault e) = raise e
check_status p allow_players (snapshot items) = check_found p allow_players (find_profile p items)

-- `_fresh_stop_preflight`. All of its refusals but the first are SLOT_CONFLICT.
unfoldable pub fresh_stop_preflight : Env → ProfileId → Bool → Script (Unit {0})
fresh_stop_preflight env p allow_players = do
  tick ← gets λ f. f.tick
  log (status_read (env.status tick))
  check_status p allow_players (env.status tick)
  later ← gets λ f. f.tick
  log (slot_observed (env.inspected later))
  raise_if (not (is_owned_by p (env.inspected later))) conflict

unfoldable pub fence_body : Env → Profile → String → String → Bool → Script (Unit {0})
fence_body env profile actor request_id allow_players = do
  hold env profile "stop" request_id actor
  assert_lease env
  fresh_stop_preflight env profile.id allow_players
  assert_lease env

-- The exception of the fence goes on after the release; the caller has no lease then.
unfoldable pub fence_failed : Env → Fault → Script (Unit {0})
fence_failed env e = do
  lease ← gets λ f. f.lease
  renewing ← gets λ f. f.renewing
  release_lease env lease renewing true
  modify λ f. record f { lease = none; renewing = false }
  raise e

-- `_acquire_stop_fence`
unfoldable pub acquire_stop_fence : Env → Profile → String → String → Bool → Script (Unit {0})
acquire_stop_fence env profile actor request_id allow_players =
    try_except (fence_body env profile actor request_id allow_players) (fence_failed env)

abbrev pub stop_operation : Bool → String
stop_operation true = "force_stop"
stop_operation false = "stop"

abbrev pub stop_action : Bool → ServerAction
stop_action true = force_stop
stop_action false = graceful_stop

-- The `try` block of `_stop_with_fence`.
unfoldable pub stop_body : Env → Profile → String → String → Bool → Bool → Script String
stop_body env profile actor request_id force allow_players = do
  acquire_stop_fence env profile actor request_id allow_players
  open_job env (stop_operation force) profile.id actor
  serve env (stop_action force) profile.id
  close_job env (stop_operation force) profile.id actor true none
  modify λ f. record f { succeeded = true }
  gets λ f. reported f.job_id

-- Its `except` clauses.
unfoldable pub stop_failed : Env → ProfileId → String → Bool → Fault → Script String
stop_failed env p actor force cancelled = raise cancelled
stop_failed env p actor force timed_out = do
  close_job env (stop_operation force) p actor false (some grace_timeout)
  raise (failure grace_timeout false)
stop_failed env p actor force (failure code retryable) = do
  close_job env (stop_operation force) p actor false (some code)
  raise (failure code retryable)
stop_failed env p actor force e = do
  close_job env (stop_operation force) p actor false (some internal_error)
  raise (failure internal_error false)

-- Its `finally` clause.
unfoldable pub stop_finally : Env → ProfileId → Bool → Script (Unit {0})
stop_finally env p primary = do
  ok ← gets λ f. f.succeeded
  log (latency_recorded "stop_duration" p ok)
  lease ← gets λ f. f.lease
  renewing ← gets λ f. f.renewing
  release_lease env lease renewing primary

-- `_stop_with_fence`
unfoldable pub stop_with_fence : Env → Profile → String → String → Bool → Bool → Script String
stop_with_fence env profile actor request_id force allow_players =
    enter
    >> try_finally
        (try_except (stop_body env profile actor request_id force allow_players)
          (stop_failed env profile.id actor force))
        (stop_finally env profile.id)

-- `_stop`
unfoldable pub stop_profile : Env → ProfileId → String → String → Script String
stop_profile env p actor request_id = do
  profile ← get_profile env p
  require_operation env profile "stop" actor
  stop_with_fence env profile actor request_id false false

-- `_restart`
unfoldable pub restart_profile : Env → ProfileId → String → String → Script String
restart_profile env p actor request_id = do
  stop_profile env p actor request_id
  start_profile env p actor request_id

abbrev pub consumed : Consumed → Script String
consumed (payload_of text) = pure text
consumed (refused code) = raise (failure code false)

-- `_consume_confirmation`
unfoldable pub consume : Env → String → String → String → Script String
consume env actor action id f =
    let (r, db') = consume_confirmation (env.now f.tick) actor action id f.db in
    consumed r (record f { db = db' })

-- `_confirm_force_stop`. `target` is `ProfileId(payload["profile_id"])`.
unfoldable pub confirm_force_stop :
    Env → (String → ProfileId) → String → String → String → Script String
confirm_force_stop env target confirmation_id actor request_id = do
  text ← consume env actor "force_stop" confirmation_id
  profile ← get_profile env (target text)
  require_operation env profile "force_stop" actor
  stop_with_fence env profile actor request_id true true
