-- ===== src/Controller/Lifecycle/Starts.antt =====
-- `_start` of src/game_control/controller.py serves its server under the lease, and gives it back.
use helios_horizon.Common.{◌⊎◌, String, ◌≡◌, refl, Bool, true, false, Option, none, arith}
use helios_horizon.Slot.Values.{ProfileId}
use helios_horizon.Controller.Database.{ErrorCode}
use helios_horizon.Program.{◌>>◌, pure, raise, when, try_except, try_finally}
use helios_horizon.Controller.Lifecycle.Script.{
  Fault, failure, timed_out, cancelled, exit_75, other_exception, Outcome, success, failed, timeout,
  readiness_begun, readiness_finished, notified, attempt_begun, attempt_ended, estimate_recorded,
  latency_recorded, Profile, Env, Frame, Script, log,
}
use helios_horizon.Controller.Lifecycle.Leases.{close_job}
use helios_horizon.Controller.Lifecycle.Start.{
  refuse_during_benchmark, begin_attempt, begin_readiness, enter_start, start_server, start_body,
  swallow, cleanup_failed_start, clean_up_start, start_failed, start_finally, start_profile,
}
use helios_horizon.Program.Rules.{
  Leads, Keeps, Leads-read, Leads-when, Leads-bind, Leads-then, Leads-gets, Leads-modify,
  Leads-weaken, Leads-try_except, Leads-try_finally,
}
use helios_horizon.Program.Keeping.{
  Keeps-pure, Keeps-raise, Keeps-bind, Keeps-then, Keeps-state, Keeps-if, Keeps-raise_if,
  Keeps-gets, Keeps-try_except,
}
use helios_horizon.Controller.Lifecycle.Guarded.{
  stored_lease, has_fault, open_lease-stored, open_lease, is_guarded, is_quiet, IsStable, Keeps-log,
  Leads-log, Keeps-write_audit, Keeps-record_event, Keeps-require_operation, Keeps-get_profile,
  Keeps-open_job, Keeps-close_job, Keeps-assert_lease, Keeps-wait_for_free_slot,
  Keeps-probe_start_health, Keeps-installed_version_hint,
}
use helios_horizon.Controller.Lifecycle.Holding.{
  IsIdle, IsInStep, IsHolding, Idle-InStep, IsInStep-IsStable, IsHolding-IsStable, Keeps-start,
  Keeps-force_stop, Leads-hold, IsIdle-IsStable, IsOpen, Leads-give_back, Leads-enter,
}

module _ (profile : Profile) (env : Env) where
  abbrev Holding : Frame → Type 0
  Holding = IsHolding profile.id

  abbrev InStep : Frame → Type 0
  InStep = IsInStep profile.id

  holding : IsStable (IsHolding profile.id)
  holding = IsHolding-IsStable profile.id

  in_step : IsStable (IsInStep profile.id)
  in_step = IsInStep-IsStable profile.id

  weaken : {A : Type 0} (m : Script A) → Keeps Holding m → Leads Holding m Holding InStep
  weaken m h = Leads-weaken m (λ f x. x) (λ f x. x) (λ f x. x.0) h

  Keeps-begin_attempt : Keeps Holding (begin_attempt env profile.id)
  unfolding begin_attempt is_quiet
  Keeps-begin_attempt = Keeps-then _ _ (Keeps-installed_version_hint holding env profile.id) (
      Keeps-then _ _ (Keeps-log holding env (attempt_begun profile.id) refl)
        (Leads-modify _ (λ f h. h)))

  Keeps-begin_readiness : Keeps Holding (begin_readiness profile.id)
  unfolding begin_readiness is_quiet
  Keeps-begin_readiness =
      Keeps-then _ _ (Keeps-log holding env (readiness_begun profile.id) refl)
        (Leads-modify _ (λ f h. ground arith))

  Leads-enter_start :
      (actor request_id : String)
      → Leads IsIdle (enter_start env profile actor request_id) Holding InStep
  unfolding enter_start
  Leads-enter_start actor request_id =
      Leads-then _ _
        (Leads-weaken _ (λ f x. x) (λ f x. x) (Idle-InStep profile.id)
          (Leads-hold profile.id env profile "start" request_id actor refl))
        (weaken _ (
          Keeps-then _ _ (Keeps-open_job holding env "start" profile.id actor) (
            Keeps-bind _ _ (Keeps-wait_for_free_slot holding env profile.id) λ free.
              Keeps-then _ _ (Keeps-raise_if _ _)
                (Keeps-then _ _ Keeps-begin_readiness Keeps-begin_attempt))))

  Keeps-start_server : Keeps Holding (start_server env profile)
  unfolding start_server
  Keeps-start_server = Keeps-then _ _ (Keeps-start profile.id env) (
      Keeps-then _ _ (Keeps-assert_lease holding env) (
        Keeps-bind _ _ (Keeps-probe_start_health holding env profile.id)
          λ ready. Keeps-raise_if _ _))

  Leads-start_body :
      (actor request_id : String)
      → Leads IsIdle (start_body env profile actor request_id) InStep InStep
  unfolding start_body is_quiet
  Leads-start_body actor request_id = Leads-then _ _ (Leads-enter_start actor request_id) (
      Leads-weaken _ (λ f x. x) (λ f x. x.0) (λ f x. x.0)
        (Keeps-then _ _ Keeps-start_server (
          Keeps-then _ _ (Keeps-close_job holding env "start" profile.id actor true none) (
            Keeps-then _ _ (Leads-modify {Q = Holding} _ (λ f h. h)) (
              Keeps-then _ _ (Keeps-log holding env (estimate_recorded profile.id) refl) (
                Keeps-then _ _ (Keeps-log holding env (notified profile.id success) refl)
                  (Keeps-gets _)))))))

  Keeps-swallow : (code : String) (e : Fault) → Keeps Holding (swallow code e)
  Keeps-swallow code cancelled = Keeps-raise _
  Keeps-swallow code (failure c r) = Keeps-pure _
  Keeps-swallow code timed_out = Keeps-pure _
  Keeps-swallow code exit_75 = Keeps-pure _
  Keeps-swallow code other_exception = Keeps-pure _

  Keeps-cleanup_failed_start : Keeps Holding (cleanup_failed_start env profile.id)
  unfolding cleanup_failed_start
  Keeps-cleanup_failed_start =
      Keeps-bind _ _
        (Keeps-try_except _ _
          (Keeps-then _ _ (Keeps-assert_lease holding env)
            (Keeps-then _ _ (Keeps-force_stop profile.id env profile.id) (Keeps-pure _)))
          (Keeps-swallow _))
        λ code. Keeps-record_event holding env profile.id code

  -- The cleanup is made only when the start was begun, so under the lease.
  clean_up :
      (begun : Bool) (outcome : Outcome)
      → Leads
          (λ f. InStep f × (f.begun ≡ begun))
          (when begun (cleanup_failed_start env profile.id)
            >> when begun (log (notified profile.id outcome)))
          InStep
          InStep
  unfolding when is_quiet ◌>>◌ pure
  clean_up true outcome =
      Leads-weaken _ (λ f h. ground arith) (λ f x. x.0) (λ f x. x.0)
        (Keeps-then _ _ Keeps-cleanup_failed_start
          (Keeps-log holding env (notified profile.id outcome) refl))
  clean_up false outcome = record { at = λ f h. h.0 }

  Keeps-clean_up_start : (outcome : Outcome) → Keeps InStep (clean_up_start env profile.id outcome)
  unfolding clean_up_start
  Keeps-clean_up_start outcome = Leads-gets _ _ (λ begun. clean_up begun outcome)

  recover :
      (actor : String) (outcome : Outcome) (code : Option ErrorCode) (e : Fault)
      → Keeps InStep (
          clean_up_start env profile.id outcome
          >> (close_job env "start" profile.id actor false code >> raise {A = String} e))
  recover actor outcome code e = Keeps-then _ _ (Keeps-clean_up_start outcome) (
      Keeps-then _ _ (Keeps-close_job in_step env "start" profile.id actor false code)
        (Keeps-raise e))

  Keeps-start_failed :
      (actor : String) (e : Fault) → Keeps InStep (start_failed env profile.id actor e)
  unfolding start_failed
  Keeps-start_failed actor cancelled = Keeps-raise _
  Keeps-start_failed actor timed_out = recover actor timeout _ _
  Keeps-start_failed actor (failure c r) = recover actor failed _ _
  Keeps-start_failed actor exit_75 = recover actor failed _ _
  Keeps-start_failed actor other_exception = recover actor failed _ _

  Leads-start_finally :
      (primary : Bool)
      → Leads InStep (start_finally env profile.id primary) (IsOpen none) (IsOpen none)
  unfolding start_finally is_quiet
  Leads-start_finally primary = Leads-read _ _ λ begun.
      Leads-then _ _ (Leads-when _ _ (Leads-log in_step env (readiness_finished profile.id) refl)) (
        Leads-read _ _ λ attempt.
          Leads-then _ _ (Leads-when _ _ (Leads-log in_step env (attempt_ended profile.id) refl)) (
            Leads-read _ _ λ ok.
              Leads-then _ _
                (Leads-log in_step env (latency_recorded "wake_duration" profile.id ok) refl)
                (Leads-weaken _ (λ f h. (h.0, h.1)) (λ f x. x) (λ f x. x)
                  (Leads-give_back env primary))))

  -- The start of a profile that is configured, permitted and free of benchmarks.
  Leads-guarded_start :
      (actor request_id : String)
      → Leads IsIdle
          (try_finally
            (try_except
              (start_body env profile actor request_id)
              (start_failed env profile.id actor))
            (start_finally env profile.id))
          (IsOpen none)
          (IsOpen none)
  Leads-guarded_start actor request_id =
      Leads-try_finally _ _
        (Leads-try_except _ _ (Leads-start_body actor request_id) (Keeps-start_failed actor))
        Leads-start_finally

Keeps-refuse_during_benchmark :
    (env : Env) (profile : Profile) (actor : String)
    → Keeps IsIdle (refuse_during_benchmark env profile actor)
unfolding refuse_during_benchmark
Keeps-refuse_during_benchmark env profile actor = Leads-read _ _ λ busy.
    Keeps-if _ _ _
      (Keeps-then _ _ (Keeps-write_audit IsIdle-IsStable env actor "start" profile.id "rejected" _)
        (Keeps-raise _))
      (Keeps-pure _)

idle : {A : Type 0} (m : Script A) → Keeps IsIdle m → Leads IsIdle m IsIdle (IsOpen none)
idle m h = Leads-weaken m (λ f x. x) (λ f x. x) (λ f x. (x.0, x.1)) h

pub Leads-start_profile :
    (env : Env) (p : ProfileId) (actor request_id : String)
    → Keeps (IsOpen none) (start_profile env p actor request_id)
unfolding start_profile
Leads-start_profile env p actor request_id = Leads-then _ _ Leads-enter (
    Leads-bind _ _ (idle _ (Keeps-get_profile IsIdle-IsStable env p)) λ profile.
      Leads-then _ _ (idle _ (Keeps-require_operation IsIdle-IsStable env profile "start" actor)) (
        Leads-then _ _ (idle _ (Keeps-refuse_during_benchmark env profile actor))
          (Leads-guarded_start profile env actor request_id)))

-- Whatever the world answers: if no lease is open before a start and every call so far was
-- allowed, then after it, whether it returns or raises, the release of its lease has been asked
-- for, and the store does not have it, unless it raised in the release or after it had published
-- the lease; and the calls were allowed too: the server was started under the lease of its own
-- profile only, every stop was made under a lease, and no second lease was taken.
pub start_profile-guarded :
    (env : Env) (p : ProfileId) (actor request_id : String) (f : Frame)
    → open_lease f.calls ≡ none
    → is_guarded f.calls ≡ true
    → let (r, f') = start_profile env p actor request_id f in
      (open_lease f'.calls ≡ none)
      × ((stored_lease f'.calls ≡ none) ⊎ (has_fault f'.calls ≡ true))
      × (is_guarded f'.calls ≡ true)
start_profile-guarded env p actor request_id f closed guarded =
    let kept = Keeps-state _ (Leads-start_profile env p actor request_id) f (closed, guarded) in
    (kept.0, open_lease-stored _ kept.0, kept.1)
