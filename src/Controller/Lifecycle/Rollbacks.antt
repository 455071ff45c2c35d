-- ===== src/Controller/Lifecycle/Rollbacks.antt =====
-- The rollback of `_confirm_switch` (src/game_control/controller.py): the lease goes to the
-- source, which is started again.
use helios_horizon.Common.{String, ◌≡◌, refl, Bool, true, false, none, some, arith, ◌⊎◌, inl, inr}
use helios_horizon.Controller.Database.{ErrorCode, health_failed}
use helios_horizon.Program.{◌>>◌, pure, raise, when}
use helios_horizon.Controller.Lifecycle.Script.{
  Fault, failure, timed_out, cancelled, exit_75, other_exception, start, served, Profile,
  SwitchPayload, Env, Frame, Script, log,
}
use helios_horizon.Controller.Lifecycle.Leases.{close_job, write_audit, record_event}
use helios_horizon.Controller.Lifecycle.Switch.{
  stop_or_force, roll_back, roll_back_failed, attempt_roll_back, switch_failed,
}
use helios_horizon.Program.Rules.{
  Leads, Keeps, Leads-pure, Leads-raise, Leads-then, Leads-gets, Leads-modify, Leads-weaken,
  Leads-try_except,
}
use helios_horizon.Program.Keeping.{Keeps-raise, Keeps-bind, Keeps-then, Keeps-raise_if}
use helios_horizon.Controller.Lifecycle.Guarded.{
  open_lease, is_held, is_allowed, is_guarded, IsStable, leases-IsStable, Keeps-write_audit,
  Keeps-record_event, Keeps-close_job, Keeps-wait_for_free_slot, Keeps-probe_start_health,
}
use helios_horizon.Controller.Lifecycle.Switching.{
  IsFailed, IsRolling, IsLeft, IsRolling-IsStable, IsFailed-IsStable, Keeps-start_with_free_retry,
  Keeps-stop_or_force, Leads-take_back,
}

-- The rollback.
module _ (env : Env) (source : Profile) (payload : SwitchPayload) where
  abbrev Rolling : Frame → Type 0
  Rolling = IsRolling source.id

  rolling : IsStable (IsRolling source.id)
  rolling = IsRolling-IsStable source.id

  leaving : {A : Type 0} (m : Script A) → Keeps Rolling m → Leads Rolling m Rolling IsLeft
  leaving m h = Leads-weaken m (λ f x. x) (λ f x. x) (λ f x. inr (inr (ground arith))) h

  kept : {A : Type 0} (m : Script A) → Keeps IsFailed m → Leads IsFailed m IsFailed IsLeft
  kept m h = Leads-weaken m (λ f x. x) (λ f x. x) (λ f x. inl (ground arith)) h

  abbrev Started : Frame → Type 0
  Started f =
      (open_lease f.calls ≡ f.lease)
      × (is_guarded f.calls ≡ true)
      × (is_held f.lease ≡ true)
      × (f.rollback_lease ≡ none)

  Started-IsStable : IsStable Started
  Started-IsStable =
      leases-IsStable (λ o g l b t r. (o ≡ l) × (g ≡ true) × (is_held l ≡ true) × (r ≡ none))

  stop_target :
      (started : Bool)
      → Leads
          (λ f. IsFailed f × (f.target_started ≡ started))
          (when started (stop_or_force env payload.target payload.force_after_timeout timed_out))
          IsFailed
          IsFailed
  unfolding log open_lease is_guarded is_allowed when pure
  stop_target true =
      Leads-weaken _ (λ f h. ground arith) (λ f h. ground arith) (λ f h. ground arith)
        (Keeps-stop_or_force Started-IsStable env payload.target payload.force_after_timeout
          timed_out (record { at = λ f h. ground arith }) (record { at = λ f h. ground arith }))
  stop_target false = record { at = λ f h. h.0 }

  Keeps-start_source : Keeps Rolling (log (served start source.id))
  unfolding log open_lease is_guarded is_allowed
  Keeps-start_source = record { at = λ f h. ground arith }

  Leads-roll_back :
      (actor : String) → Leads IsFailed (roll_back env source payload actor) Rolling IsLeft
  unfolding roll_back
  Leads-roll_back actor = Leads-gets _ _ λ started.
      Leads-then _ _
        (Leads-weaken _ (λ f x. x) (λ f x. x) (λ f x. inl (ground arith)) (stop_target started))
        (Leads-gets _ _ λ lease.
          Leads-then _ _ (Leads-take_back source.id env source actor lease refl) (
            leaving _ (
              Keeps-then _ _ (Leads-modify {Q = Rolling} _ (λ f h. h)) (
                Keeps-bind _ _ (Keeps-wait_for_free_slot rolling env source.id) λ free.
                  Keeps-then _ _ (Keeps-raise_if _ _) (
                    Keeps-then _ _
                      (Keeps-start_with_free_retry rolling env source.id Keeps-start_source)
                      (Keeps-bind _ _ (Keeps-probe_start_health rolling env source.id) λ ready.
                        Keeps-then _ _ (Keeps-raise_if _ _) (
                          Keeps-then _ _
                            (Keeps-record_event rolling env source.id "rollback_succeeded")
                            (Keeps-write_audit rolling env actor "rollback" source.id "succeeded"
                              none))))))))

  left : IsStable IsLeft
  left = leases-IsStable (λ o g l b t r.
      (((o ≡ l) × (g ≡ true)) × (r ≡ none))
      ⊎ ((((o ≡ none) × (g ≡ true)) × (r ≡ none)) ⊎ (((o ≡ r) × (g ≡ true)) × (l ≡ none))))

  note_failure :
      (actor : String)
      → Keeps IsLeft (
          record_event source.id "rollback_failed"
          >> write_audit env actor "rollback" source.id "failed" (some health_failed))
  note_failure actor =
      Keeps-then _ _ (Keeps-record_event left env source.id "rollback_failed")
        (Keeps-write_audit left env actor "rollback" source.id "failed" (some health_failed))

  Keeps-roll_back_failed :
      (actor : String) (e : Fault) → Keeps IsLeft (roll_back_failed env source.id actor e)
  unfolding roll_back_failed
  Keeps-roll_back_failed actor cancelled = Keeps-raise _
  Keeps-roll_back_failed actor timed_out = note_failure actor
  Keeps-roll_back_failed actor (failure code retryable) = note_failure actor
  Keeps-roll_back_failed actor exit_75 = note_failure actor
  Keeps-roll_back_failed actor other_exception = note_failure actor

  Leads-attempt_roll_back :
      (actor : String) → Leads IsFailed (attempt_roll_back env source payload actor) IsLeft IsLeft
  unfolding attempt_roll_back
  Leads-attempt_roll_back actor =
      (Leads-then _ _
        (kept _ (Keeps-record_event IsFailed-IsStable env source.id "rollback_attempt"))
        (Leads-then _ _
          (kept _
            (Keeps-write_audit IsFailed-IsStable env actor "rollback" source.id "accepted" none))
          (Leads-try_except _ _
            (Leads-weaken _ (λ f x. x) (λ f x. inr (inr (ground arith))) (λ f x. x)
              (Leads-roll_back actor))
            (Keeps-roll_back_failed actor))))

  roll_back_if :
      (wanted : Bool) (actor : String)
      → Leads IsFailed (when wanted (attempt_roll_back env source payload actor)) IsLeft IsLeft
  unfolding when
  roll_back_if true actor = Leads-attempt_roll_back actor
  roll_back_if false actor = Leads-pure tt (λ f h. inl (ground arith))

  recover :
      {Q : Frame → Type 0} (target : Profile) (actor : String) (code : ErrorCode)
      → Leads IsFailed
          (when payload.rollback_on_failure (attempt_roll_back env source payload actor)
            >> (close_job env "switch" target.id actor false (some code)
                >> raise {A = String} (failure code false)))
          Q
          IsLeft
  recover target actor code = Leads-then _ _ (roll_back_if payload.rollback_on_failure actor) (
      Leads-then _ _ (Keeps-close_job left env "switch" target.id actor false (some code))
        (Leads-raise _ (λ f h. h)))

  pub Leads-switch_failed :
      {Q : Frame → Type 0} (target : Profile) (actor : String) (e : Fault)
      → Leads IsFailed (switch_failed env source target payload actor e) Q IsLeft
  unfolding switch_failed
  Leads-switch_failed target actor cancelled = Leads-raise _ (λ f h. inl (ground arith))
  Leads-switch_failed target actor timed_out = recover target actor _
  Leads-switch_failed target actor (failure code retryable) = recover target actor _
  Leads-switch_failed target actor exit_75 = recover target actor _
  Leads-switch_failed target actor other_exception = recover target actor _
