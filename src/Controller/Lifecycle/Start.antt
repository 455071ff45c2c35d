-- ===== src/Controller/Lifecycle/Start.antt =====
-- `_start` of src/game_control/controller.py.
use helios_horizon.Common.{
  String, Bool, true, false, not, ◌&&◌, ◌||◌, Option, none, some, List, [], ◌∷◌, str_eq,
  if◌then◌else◌,
}
use helios_horizon.Slot.Values.{ProfileId}
use helios_horizon.Controller.Database.{Job, ErrorCode, invalid_state, start_timeout, health_failed}
use helios_horizon.Controller.Jobs.{is_open}
use helios_horizon.Program.{
  pure, raise, gets, try_except, try_finally, ◌>>=◌, ◌>>◌, modify, raise_if, when,
}
use helios_horizon.Controller.Lifecycle.Script.{
  Fault, failure, timed_out, cancelled, other_exception, start, force_stop, Outcome, success,
  failed, timeout, readiness_begun, readiness_finished, notified, attempt_begun, attempt_ended,
  estimate_recorded, latency_recorded, Profile, Env, Script, log,
}
use helios_horizon.Controller.Lifecycle.Leases.{
  conflict, write_audit, record_event, get_profile, require_operation, open_job, close_job,
  assert_lease, serve, wait_for_free_slot, probe_start_health, installed_version_hint, reserve,
  release_lease,
}

-- The local variables at the beginning of a handler.
unfoldable pub enter : Script (Unit {0})
enter = modify λ f. record f {
  lease = none;
  renewing = false;
  job_id = none;
  begun = false;
  attempt = false;
  succeeded = false;
  target_started = false;
  rollback_lease = none;
  rollback_renewing = false;
}

-- `lease = await self._reserve(...)`, and `renewal_task = self._lease_renewal(lease)`
unfoldable pub hold : Env → Profile → String → String → String → Script (Unit {0})
hold env profile operation operation_id actor = do
  taken ← reserve env profile operation operation_id actor
  modify λ f. record f { lease = some taken; renewing = true }

unfoldable pub has_benchmark : List Job → Bool
has_benchmark [] = false
has_benchmark (job ∷ jobs) =
    (str_eq job.operation "benchmark" && is_open job.state) || has_benchmark jobs

-- The refusal of a start while a benchmark is accepted or running.
unfoldable pub refuse_during_benchmark : Env → Profile → String → Script (Unit {0})
refuse_during_benchmark env profile actor = do
  busy ← gets λ f. has_benchmark f.db.jobs
  if busy
      then write_audit env actor "start" profile.id "rejected" (some invalid_state)
        >> raise (failure invalid_state true)
      else pure tt

abbrev pub reported : Option String → String
reported none = ""
reported (some id) = id

-- `_begin_startup_attempt`
unfoldable pub begin_attempt : Env → ProfileId → Script (Unit {0})
begin_attempt env p = do
  installed_version_hint env p
  log (attempt_begun p)
  modify λ f. record f { attempt = true }

unfoldable pub begin_readiness : ProfileId → Script (Unit {0})
begin_readiness p = do log (readiness_begun p); modify λ f. record f { begun = true }

-- What is done before the adapter starts the server.
unfoldable pub enter_start : Env → Profile → String → String → Script (Unit {0})
enter_start env profile actor request_id = do
  hold env profile "start" request_id actor
  open_job env "start" profile.id actor
  free ← wait_for_free_slot env profile.id
  raise_if (not free) conflict
  begin_readiness profile.id
  begin_attempt env profile.id

-- The server's start and the probe of its health.
unfoldable pub start_server : Env → Profile → Script (Unit {0})
start_server env profile = do
  serve env start profile.id
  assert_lease env
  ready ← probe_start_health env profile.id
  raise_if (not ready) other_exception

-- The `try` block.
unfoldable pub start_body : Env → Profile → String → String → Script String
start_body env profile actor request_id = do
  enter_start env profile actor request_id
  start_server env profile
  close_job env "start" profile.id actor true none
  modify λ f. record f { succeeded = true }
  log (estimate_recorded profile.id)
  log (notified profile.id success)
  gets λ f. reported f.job_id

abbrev pub swallow : String → Fault → Script String
swallow code cancelled = raise cancelled
swallow code e = pure code

-- `_cleanup_failed_start`
unfoldable pub cleanup_failed_start : Env → ProfileId → Script (Unit {0})
cleanup_failed_start env p = do
  code ←
      try_except (assert_lease env >> (serve env force_stop p >> pure "start_cleanup_succeeded"))
        (swallow "start_cleanup_failed")
  record_event p code

unfoldable pub clean_up_start : Env → ProfileId → Outcome → Script (Unit {0})
clean_up_start env p outcome = do
  begun ← gets λ f. f.begun
  when begun (cleanup_failed_start env p)
  when begun (log (notified p outcome))

abbrev pub code_of : ErrorCode → Fault → ErrorCode
code_of default (failure code retryable) = code
code_of default e = default

abbrev pub is_health : ErrorCode → Bool
is_health health_failed = true
is_health code = false

-- The `except` clauses.
unfoldable pub start_failed : Env → ProfileId → String → Fault → Script String
start_failed env p actor cancelled = raise cancelled
start_failed env p actor timed_out = do
  clean_up_start env p timeout
  close_job env "start" p actor false (some start_timeout)
  raise (failure start_timeout true)
start_failed env p actor e = do
  clean_up_start env p failed
  close_job env "start" p actor false (some (code_of health_failed e))
  raise (failure (code_of health_failed e) (is_health (code_of health_failed e)))

-- The `finally` clause.
unfoldable pub start_finally : Env → ProfileId → Bool → Script (Unit {0})
start_finally env p primary = do
  begun ← gets λ f. f.begun
  when begun (log (readiness_finished p))
  attempt ← gets λ f. f.attempt
  when attempt (log (attempt_ended p))
  ok ← gets λ f. f.succeeded
  log (latency_recorded "wake_duration" p ok)
  lease ← gets λ f. f.lease
  renewing ← gets λ f. f.renewing
  release_lease env lease renewing primary

-- `_start`: the id of the job
unfoldable pub start_profile : Env → ProfileId → String → String → Script String
start_profile env p actor request_id = do
  enter
  profile ← get_profile env p
  require_operation env profile "start" actor
  refuse_during_benchmark env profile actor
  try_finally
      (try_except (start_body env profile actor request_id) (start_failed env profile.id actor))
      (start_finally env profile.id)
