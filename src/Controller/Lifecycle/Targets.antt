-- ===== src/Controller/Lifecycle/Targets.antt =====
-- The `try` block of `_confirm_switch` (src/game_control/controller.py): from the lease of the
-- target to its start.
use helios_horizon.Common.{String, refl, true, none, arith}
use helios_horizon.Slot.Values.{ProfileId}
use helios_horizon.Controller.Lifecycle.Script.{
  start, graceful_stop, force_stop, backed_up, served, attempt_begun, estimate_recorded, Profile,
  SwitchPayload, Env, Frame, Script, log,
}
use helios_horizon.Controller.Lifecycle.Start.{begin_attempt}
use helios_horizon.Controller.Lifecycle.Switch.{back_up, vacate, start_target, switch_body}
use helios_horizon.Program.Rules.{Leads, Keeps, Leads-when, Leads-then, Leads-modify, Leads-weaken}
use helios_horizon.Program.Keeping.{
  Keeps-raise, Keeps-bind, Keeps-then, Keeps-if, Keeps-raise_if, Keeps-gets,
}
use helios_horizon.Controller.Lifecycle.Guarded.{
  open_lease, is_allowed, is_guarded, is_quiet, IsStable, Keeps-log, Keeps-close_job,
  Keeps-assert_lease, Keeps-await_lease, Keeps-wait_for_free_slot, Keeps-probe_start_health,
  Keeps-installed_version_hint,
}
use helios_horizon.Controller.Lifecycle.Switching.{
  IsReady, IsSwitching, IsFailed, IsSwitching-IsStable, Keeps-start_with_free_retry,
  Keeps-stop_or_force, Leads-hold_target,
}

-- The `try` block.
module _ (env : Env) (target : Profile) (payload : SwitchPayload) where
  abbrev Switching : Frame → Type 0
  Switching = IsSwitching target.id

  switching : IsStable (IsSwitching target.id)
  switching = IsSwitching-IsStable target.id

  failing : {A : Type 0} (m : Script A) → Keeps Switching m → Leads Switching m Switching IsFailed
  failing m h = Leads-weaken m (λ f x. x) (λ f x. x) (λ f x. ground arith) h

  Keeps-back_up : Keeps Switching (back_up env payload.source)
  unfolding back_up log open_lease is_guarded is_allowed
  Keeps-back_up =
      Keeps-if _ _ _
        (Keeps-then _ _
          (Keeps-await_lease switching env (backed_up payload.source)
            (record { at = λ f h. ground arith }))
          (Keeps-assert_lease switching env))
        (Keeps-raise _)

  Keeps-graceful_stop : (q : ProfileId) → Keeps Switching (log (served graceful_stop q))
  unfolding log open_lease is_guarded is_allowed
  Keeps-graceful_stop q = record { at = λ f h. ground arith }

  Keeps-force_stop : (q : ProfileId) → Keeps Switching (log (served force_stop q))
  unfolding log open_lease is_guarded is_allowed
  Keeps-force_stop q = record { at = λ f h. ground arith }

  Keeps-start : Keeps Switching (log (served start target.id))
  unfolding log open_lease is_guarded is_allowed
  Keeps-start = record { at = λ f h. ground arith }

  Keeps-vacate : Keeps Switching (vacate env payload)
  unfolding vacate
  Keeps-vacate =
      Keeps-then _ _
        (Keeps-stop_or_force switching env payload.source payload.force_after_timeout _
          (Keeps-graceful_stop payload.source) (Keeps-force_stop payload.source))
        (Keeps-then _ _ (Keeps-assert_lease switching env) (
          Keeps-bind _ _ (Keeps-wait_for_free_slot switching env payload.source) λ free.
            Keeps-then _ _ (Keeps-raise_if _ _)
              (Keeps-then _ _ (Keeps-assert_lease switching env) (Leads-when _ _ Keeps-back_up))))

  Keeps-begin_attempt : Keeps Switching (begin_attempt env target.id)
  unfolding begin_attempt is_quiet
  Keeps-begin_attempt = Keeps-then _ _ (Keeps-installed_version_hint switching env target.id) (
      Keeps-then _ _ (Keeps-log switching env (attempt_begun target.id) refl)
        (Leads-modify _ (λ f h. h)))

  Keeps-start_target : Keeps Switching (start_target env target.id)
  unfolding start_target
  Keeps-start_target = Keeps-then _ _ (Leads-modify {Q = Switching} _ (λ f h. h)) (
      Keeps-then _ _ Keeps-begin_attempt (
        Keeps-then _ _ (Keeps-start_with_free_retry switching env target.id Keeps-start) (
          Keeps-then _ _ (Keeps-assert_lease switching env) (
            Keeps-bind _ _ (Keeps-probe_start_health switching env target.id)
              λ ready. Keeps-raise_if _ _))))

  pub Leads-switch_body :
      (confirmation_id actor : String)
      → Leads IsReady (switch_body env target payload confirmation_id actor) Switching IsFailed
  unfolding switch_body is_quiet
  Leads-switch_body confirmation_id actor =
      Leads-then _ _
        (Leads-weaken _ (λ f x. x) (λ f x. x) (λ f x. ground arith)
          (Leads-hold_target target.id env target "switch" confirmation_id actor refl))
        (failing _ (
          Keeps-then _ _ Keeps-vacate (
            Keeps-then _ _ Keeps-start_target (
              Keeps-then _ _ (Keeps-close_job switching env "switch" target.id actor true none) (
                Keeps-then _ _ (Leads-modify {Q = Switching} _ (λ f h. h)) (
                  Keeps-then _ _ (Keeps-log switching env (estimate_recorded target.id) refl)
                    (Keeps-gets _)))))))
