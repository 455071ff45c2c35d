-- ===== src/Controller/Lifecycle/Stops.antt =====
-- `_stop`, `_confirm_force_stop` and `_restart` of src/game_control/controller.py serve their
-- servers under the lease, and give it back.
use helios_horizon.Common.{String, ◌≡◌, refl, ◌∙◌, Bool, true, false, Option, none, some, arith}
use helios_horizon.Slot.Values.{ProfileId}
use helios_horizon.Controller.Database.{ErrorCode}
use helios_horizon.Controller.Confirmations.{Consumed, payload_of, refused, consume_confirmation}
use helios_horizon.Program.{◌>>◌, raise}
use helios_horizon.Controller.Lifecycle.Script.{
  Fault, failure, timed_out, cancelled, exit_75, other_exception, ProfileStatus, StatusReply,
  unavailable, status_fault, snapshot, status_read, slot_observed, latency_recorded, Profile, Env,
  Frame, Script,
}
use helios_horizon.Controller.Lifecycle.Leases.{close_job, serve}
use helios_horizon.Controller.Lifecycle.Stop.{
  find_profile, check_found, check_status, fresh_stop_preflight, fence_body, fence_failed,
  acquire_stop_fence, stop_operation, stop_action, stop_body, stop_failed, stop_finally,
  stop_with_fence, stop_profile, restart_profile, consumed, consume, confirm_force_stop,
}
use helios_horizon.Program.Rules.{
  Leads, Keeps, Leads-read, Leads-raise, Leads-then, Leads-gets, Leads-modify, Leads-weaken,
  Leads-try_except, Leads-try_finally,
}
use helios_horizon.Program.Keeping.{
  Keeps-pure, Keeps-raise, Keeps-bind, Keeps-then, Keeps-raise_if, Keeps-gets, Keeps-state,
}
use helios_horizon.Controller.Lifecycle.Guarded.{
  open_lease, is_guarded, is_quiet, IsStable, Keeps-log, Leads-log, Keeps-require_operation,
  Keeps-get_profile, Keeps-open_job, Keeps-close_job, Keeps-assert_lease,
}
use helios_horizon.Controller.Lifecycle.Holding.{
  IsIdle, IsHolding, IsHolding-IsStable, IsMatched, IsMatched-IsStable, IsOpen, IsOpen-IsStable,
  Keeps-graceful_stop, Keeps-force_stop, Leads-hold, Leads-release_quietly, Leads-give_back,
  Leads-enter,
}
use helios_horizon.Controller.Lifecycle.Starts.{Leads-start_profile}

-- The checks before a stop make quiet calls.
module _ {P : Frame → Type 0} (stable : IsStable P) (env : Env) where
  Keeps-check_found :
      (p : ProfileId) (allow_players : Bool) (current : Option ProfileStatus)
      → Keeps P (check_found p allow_players current)
  unfolding check_found
  Keeps-check_found p allow_players none = Keeps-raise _
  Keeps-check_found p allow_players (some current) = Keeps-raise_if _ _

  Keeps-check_status :
      (p : ProfileId) (allow_players : Bool) (reply : StatusReply)
      → Keeps P (check_status p allow_players reply)
  unfolding check_status
  Keeps-check_status p allow_players unavailable = Keeps-raise _
  Keeps-check_status p allow_players (status_fault e) = Keeps-raise _
  Keeps-check_status p allow_players (snapshot items) =
      Keeps-check_found p allow_players (find_profile p items)

  pub Keeps-fresh_stop_preflight :
      (p : ProfileId) (allow_players : Bool) → Keeps P (fresh_stop_preflight env p allow_players)
  unfolding fresh_stop_preflight is_quiet
  Keeps-fresh_stop_preflight p allow_players = Leads-read _ _ λ tick.
      Keeps-then _ _ (Keeps-log stable env (status_read (env.status tick)) refl) (
        Keeps-then _ _ (Keeps-check_status p allow_players (env.status tick)) (
          Leads-read _ _ λ later.
            Keeps-then _ _ (Keeps-log stable env (slot_observed (env.inspected later)) refl)
              (Keeps-raise_if _ _)))

module _ (profile : Profile) (env : Env) where
  abbrev Holding : Frame → Type 0
  Holding = IsHolding profile.id

  holding : IsStable (IsHolding profile.id)
  holding = IsHolding-IsStable profile.id

  weaken : {A : Type 0} (m : Script A) → Keeps Holding m → Leads Holding m Holding IsMatched
  weaken m h = Leads-weaken m (λ f x. x) (λ f x. x) (λ f x. (x.0.0, x.0.1)) h

  Leads-fence_body :
      (actor request_id : String) (allow_players : Bool)
      → Leads IsIdle (fence_body env profile actor request_id allow_players) Holding IsMatched
  unfolding fence_body
  Leads-fence_body actor request_id allow_players =
      Leads-then _ _
        (Leads-weaken _ (λ f x. x) (λ f x. x) (λ f x. ground arith)
          (Leads-hold profile.id env profile "stop" request_id actor refl))
        (weaken _ (
          Keeps-then _ _ (Keeps-assert_lease holding env) (
            Keeps-then _ _ (Keeps-fresh_stop_preflight holding env profile.id allow_players)
              (Keeps-assert_lease holding env))))

  Leads-fence_failed : (e : Fault) → Leads IsMatched (fence_failed env e) Holding IsMatched
  unfolding fence_failed
  Leads-fence_failed e = Leads-gets _ _ λ lease. Leads-read _ _ λ renewing.
      Leads-then _ _
        (Leads-weaken _ (λ f h. (h.0.0 ∙ h.1, h.0.1)) (λ f x. x) (λ f x. x)
          (Leads-release_quietly env lease renewing))
        (Leads-then _ _ (Leads-modify {Q = IsMatched} _ (λ f h. h)) (Leads-raise e (λ f h. h)))

  Leads-acquire_stop_fence :
      (actor request_id : String) (allow_players : Bool)
      → Leads IsIdle
          (acquire_stop_fence env profile actor request_id allow_players)
          Holding
          IsMatched
  unfolding acquire_stop_fence
  Leads-acquire_stop_fence actor request_id allow_players =
      Leads-try_except _ _ (Leads-fence_body actor request_id allow_players) Leads-fence_failed

  Keeps-stop_action : (force : Bool) → Keeps Holding (serve env (stop_action force) profile.id)
  Keeps-stop_action true = Keeps-force_stop profile.id env profile.id
  Keeps-stop_action false = Keeps-graceful_stop profile.id env profile.id

  Leads-stop_body :
      (actor request_id : String) (force allow_players : Bool)
      → Leads IsIdle
          (stop_body env profile actor request_id force allow_players)
          IsMatched
          IsMatched
  unfolding stop_body
  Leads-stop_body actor request_id force allow_players =
      Leads-then _ _ (Leads-acquire_stop_fence actor request_id allow_players) (
        Leads-weaken _ (λ f x. x) (λ f x. (x.0.0, x.0.1)) (λ f x. (x.0.0, x.0.1))
          (Keeps-then _ _ (Keeps-open_job holding env (stop_operation force) profile.id actor) (
            Keeps-then _ _ (Keeps-stop_action force) (
              Keeps-then _ _
                (Keeps-close_job holding env (stop_operation force) profile.id actor true none)
                (Keeps-then _ _ (Leads-modify {Q = Holding} _ (λ f h. h)) (Keeps-gets _))))))

  recover :
      (operation actor : String) (code : Option ErrorCode) (e : Fault)
      → Keeps IsMatched
          (close_job env operation profile.id actor false code >> raise {A = String} e)
  recover operation actor code e =
      Keeps-then _ _ (Keeps-close_job IsMatched-IsStable env operation profile.id actor false code)
        (Keeps-raise e)

  Keeps-stop_failed :
      (actor : String) (force : Bool) (e : Fault)
      → Keeps IsMatched (stop_failed env profile.id actor force e)
  unfolding stop_failed
  Keeps-stop_failed actor force cancelled = Keeps-raise _
  Keeps-stop_failed actor force timed_out = recover _ actor _ _
  Keeps-stop_failed actor force (failure code retryable) = recover _ actor _ _
  Keeps-stop_failed actor force exit_75 = recover _ actor _ _
  Keeps-stop_failed actor force other_exception = recover _ actor _ _

  Leads-stop_finally :
      (primary : Bool)
      → Leads IsMatched (stop_finally env profile.id primary) (IsOpen none) (IsOpen none)
  unfolding stop_finally is_quiet
  Leads-stop_finally primary = Leads-read _ _ λ ok.
      Leads-then _ _
        (Leads-log IsMatched-IsStable env (latency_recorded "stop_duration" profile.id ok) refl)
        (Leads-give_back env primary)

  pub Leads-stop_with_fence :
      (actor request_id : String) (force allow_players : Bool)
      → Keeps (IsOpen none) (stop_with_fence env profile actor request_id force allow_players)
  unfolding stop_with_fence
  Leads-stop_with_fence actor request_id force allow_players = Leads-then _ _ Leads-enter (
      Leads-try_finally _ _
        (Leads-try_except _ _ (Leads-stop_body actor request_id force allow_players)
          (Keeps-stop_failed actor force))
        Leads-stop_finally)

module _ (env : Env) where
  closed : IsStable (IsOpen none)
  closed = IsOpen-IsStable none

  Leads-stop_profile :
      (p : ProfileId) (actor request_id : String)
      → Keeps (IsOpen none) (stop_profile env p actor request_id)
  unfolding stop_profile
  Leads-stop_profile p actor request_id = Keeps-bind _ _ (Keeps-get_profile closed env p) λ profile.
      Keeps-then _ _ (Keeps-require_operation closed env profile "stop" actor)
        (Leads-stop_with_fence profile env actor request_id false false)

  Keeps-consumed : (reply : Consumed) → Keeps (IsOpen none) (consumed reply)
  Keeps-consumed (payload_of text) = Keeps-pure text
  Keeps-consumed (refused code) = Keeps-raise _

  pub Keeps-consume : (actor action id : String) → Keeps (IsOpen none) (consume env actor action id)
  unfolding consume
  Keeps-consume actor action id = record {
    at = λ f h.
        (Keeps-consumed (consume_confirmation (env.now f.tick) actor action id f.db).0).at
          (record f { db = (consume_confirmation (env.now f.tick) actor action id f.db).1 }) h;
  }

  Leads-confirm_force_stop :
      (target : String → ProfileId) (confirmation_id actor request_id : String)
      → Keeps (IsOpen none) (confirm_force_stop env target confirmation_id actor request_id)
  unfolding confirm_force_stop
  Leads-confirm_force_stop target confirmation_id actor request_id =
      Keeps-bind _ _ (Keeps-consume actor "force_stop" confirmation_id) λ text.
        Keeps-bind _ _ (Keeps-get_profile closed env (target text)) λ profile.
          Keeps-then _ _ (Keeps-require_operation closed env profile "force_stop" actor)
            (Leads-stop_with_fence profile env actor request_id true true)

-- Whatever the world answers: if no lease is open before a restart and every call so far was
-- allowed, then no lease is open after it, whether it returns or raises, and its calls were
-- allowed too: the server was stopped under a lease, started under the lease of its own profile,
-- and no second lease was taken.
pub restart_profile-guarded :
    (env : Env) (p : ProfileId) (actor request_id : String) (f : Frame)
    → open_lease f.calls ≡ none
    → is_guarded f.calls ≡ true
    → let (r, f') = restart_profile env p actor request_id f in
      (open_lease f'.calls ≡ none) × (is_guarded f'.calls ≡ true)
unfolding restart_profile
restart_profile-guarded env p actor request_id f none_open guarded =
    Keeps-state _
      (Keeps-then _ _ (Leads-stop_profile env p actor request_id)
        (Leads-start_profile env p actor request_id))
      f (none_open, guarded)

-- Whatever the world answers: if no lease is open before a forced stop is confirmed and every call
-- so far was allowed, then no lease is open after it, whether it returns or raises, and its calls
-- were allowed too: the server was stopped under a lease, and no second lease was taken.
pub confirm_force_stop-guarded :
    (env : Env) (target : String → ProfileId) (confirmation_id actor request_id : String)
    (f : Frame)
    → open_lease f.calls ≡ none
    → is_guarded f.calls ≡ true
    → let (r, f') = confirm_force_stop env target confirmation_id actor request_id f in
      (open_lease f'.calls ≡ none) × (is_guarded f'.calls ≡ true)
confirm_force_stop-guarded env target confirmation_id actor request_id f none_open guarded =
    Keeps-state _ (Leads-confirm_force_stop env target confirmation_id actor request_id) f
      (none_open, guarded)
