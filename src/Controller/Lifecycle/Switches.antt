-- ===== src/Controller/Lifecycle/Switches.antt =====
-- `_confirm_switch` of src/game_control/controller.py serves its servers under the lease of their
-- profile, and gives back the lease of the target and that of a rollback.
use helios_horizon.Common.{
  ◌⊎◌, String, ◌≡◌, refl, ◌∙◌, Bool, true, false, Option, none, some, arith,
}
use helios_horizon.Slot.Values.{ProfileId}
use helios_horizon.Program.{modify, ◌>>=◌, ◌>>◌, gets}
use helios_horizon.Controller.Lifecycle.Script.{
  attempt_ended, latency_recorded, SwitchPayload, Env, Frame, Script, Lease,
}
use helios_horizon.Controller.Lifecycle.Leases.{release_lease}
use helios_horizon.Controller.Lifecycle.Start.{enter}
use helios_horizon.Controller.Lifecycle.Switch.{switch_finally, switch_profiles, confirm_switch}
use helios_horizon.Program.Rules.{
  Leads, Keeps, Leads-read, Leads-when, Leads-bind, Leads-then, Leads-gets, Leads-weaken,
  Leads-try_except, Leads-finally, Leads-either,
}
use helios_horizon.Program.Keeping.{Keeps-bind, Keeps-state}
use helios_horizon.Controller.Lifecycle.Guarded.{
  stored_lease, has_fault, open_lease-stored, open_lease, is_guarded, is_quiet, IsStable,
  leases-IsStable, Leads-log, Keeps-get_profile, Keeps-open_job,
}
use helios_horizon.Controller.Lifecycle.Holding.{IsOpen, Leads-release_quietly, Leads-release_lease}
use helios_horizon.Controller.Lifecycle.Switching.{
  IsReady, IsSwitching, IsKept, IsShut, IsSwapped, IsLeft, IsKept-IsStable, IsShut-IsStable,
  IsSwapped-IsStable,
}
use helios_horizon.Controller.Lifecycle.Releasing.{
  Leads-release_none, Leads-release_shut, Leads-release_kept,
}
use helios_horizon.Controller.Lifecycle.Targets.{Leads-switch_body}
use helios_horizon.Controller.Lifecycle.Rollbacks.{Leads-switch_failed}
use helios_horizon.Controller.Lifecycle.Stops.{Keeps-consume}

abbrev Closed : Frame → Type 0
Closed = IsOpen none

module _ (env : Env) (target : ProfileId) where
  abbrev releases : Bool → Script (Unit {0})
  releases primary = gets (λ f. f.lease) >>= λ lease. gets (λ f. f.renewing) >>= λ renewing.
      release_lease env lease renewing primary
      >> (gets (λ f. f.rollback_lease) >>= λ lease'.
          gets (λ f. f.rollback_renewing) >>= λ renewing'.
          release_lease env lease' renewing' primary)

  -- What comes before the two releases is quiet.
  Leads-quiet_end :
      {P : Frame → Type 0} (stable : IsStable P) (primary : Bool)
      → Leads P (releases primary) Closed Closed
      → Leads P (switch_finally env target primary) Closed Closed
  unfolding switch_finally is_quiet
  Leads-quiet_end stable primary h = Leads-read _ _ λ attempt.
      Leads-then _ _ (Leads-when _ _ (Leads-log stable env (attempt_ended target) refl)) (
        Leads-read _ _ λ ok.
          Leads-then _ _ (Leads-log stable env (latency_recorded "switch_duration" target ok) refl)
            h)

  second_shut :
      Leads Closed
        (gets (λ f. f.rollback_lease) >>= λ lease'.
          gets (λ f. f.rollback_renewing) >>= λ renewing'. release_lease env lease' renewing' true)
        Closed
        Closed
  second_shut =
      Leads-read _ _ (λ lease. Leads-read _ _ (λ renewing. Leads-release_shut env lease renewing))

  from_IsKept : Leads IsKept (releases true) Closed Closed
  from_IsKept = Leads-gets _ _ λ lease. Leads-read _ _ λ renewing.
      Leads-then _ _
        (Leads-weaken _ (λ f h. ground arith) (λ f x. x) (λ f x. x)
          (Leads-release_quietly env lease renewing))
        second_shut

  from_IsShut : Leads IsShut (releases true) Closed Closed
  from_IsShut = Leads-read _ _ λ lease. Leads-read _ _ λ renewing.
      Leads-then _ _
        (Leads-weaken _ (λ f h. h.0) (λ f x. x) (λ f x. x) (Leads-release_shut env lease renewing))
        second_shut

  -- The lease of the target is the source's now.
  IsSwapped-first :
      (lease : Option Lease) (renewing : Bool)
      → Leads
          (λ f. IsSwapped f × (f.lease ≡ lease))
          (release_lease env lease renewing true)
          IsSwapped
          Closed
  IsSwapped-first none renewing =
      Leads-weaken _ (λ f h. h.0) (λ f x. x) (λ f x. x)
        (Leads-release_none env IsSwapped-IsStable renewing)
  IsSwapped-first (some l) renewing = record { at = λ f h. ground arith }

  from_IsSwapped : Leads IsSwapped (releases true) Closed Closed
  from_IsSwapped = Leads-gets _ _ λ lease. Leads-read _ _ λ renewing.
      Leads-then _ _ (IsSwapped-first lease renewing) (
        Leads-gets _ _ λ lease'. Leads-read _ _ λ renewing'.
          Leads-weaken _ (λ f h. ground arith) (λ f x. x) (λ f x. x)
            (Leads-release_quietly env lease' renewing'))

  Leads-failed_end : Leads IsLeft (switch_finally env target true) Closed Closed
  Leads-failed_end = Leads-either _ (Leads-quiet_end IsKept-IsStable true from_IsKept) (
      Leads-either _ (Leads-quiet_end IsShut-IsStable true from_IsShut)
        (Leads-quiet_end IsSwapped-IsStable true from_IsSwapped))

  -- After a success there is no lease of a rollback.
  without_rollback :
      (lease : Option Lease) (renewing : Bool)
      → Leads
          (λ f. IsKept f × (f.lease ≡ lease))
          (release_lease env lease renewing false)
          IsShut
          Closed
  without_rollback lease renewing =
      Leads-weaken _ (λ f h. ((h.0.0.0 ∙ h.1, h.0.0.1), h.0.1)) (λ f x. x) (λ f x. x.0)
        (Leads-release_kept env lease renewing false)

  from_success : Leads IsKept (releases false) Closed Closed
  from_success = Leads-gets _ _ λ lease. Leads-read _ _ λ renewing.
      Leads-then _ _ (without_rollback lease renewing) (
        Leads-gets _ _ λ lease'. Leads-read _ _ λ renewing'.
          Leads-weaken _ (λ f h. ground arith) (λ f x. x) (λ f x. x)
            (Leads-release_lease env lease' renewing' false))

  Leads-success_end :
      (p : ProfileId) → Leads (IsSwitching p) (switch_finally env target false) Closed Closed
  Leads-success_end p =
      Leads-weaken _ (λ f h. ground arith) (λ f x. x) (λ f x. x)
        (Leads-quiet_end IsKept-IsStable false from_success)

module _ (env : Env) where
  ready : IsStable IsReady
  ready = leases-IsStable (λ o g l b t r.
      ((o ≡ none) × (g ≡ true) × (l ≡ none) × (b ≡ false)) × (t ≡ false) × (r ≡ none))

  closing : {A : Type 0} (m : Script A) → Keeps IsReady m → Leads IsReady m IsReady Closed
  closing m h = Leads-weaken m (λ f x. x) (λ f x. x) (λ f x. ground arith) h

  Leads-enter_switch : {R : Frame → Type 0} → Leads Closed enter IsReady R
  unfolding enter modify
  Leads-enter_switch = record { at = λ f h. ((h.0, h.1, refl, refl), refl, refl) }

  Leads-switch_profiles :
      (payload : SwitchPayload) (confirmation_id actor : String)
      → Keeps Closed (switch_profiles env payload confirmation_id actor)
  unfolding switch_profiles
  Leads-switch_profiles payload confirmation_id actor = Leads-then _ _ Leads-enter_switch (
      Leads-bind _ _ (closing _ (Keeps-get_profile ready env payload.source)) λ source.
        Leads-bind _ _ (closing _ (Keeps-get_profile ready env payload.target)) λ target.
          Leads-then _ _ (closing _ (Keeps-open_job ready env "switch" target.id actor)) (
            Leads-finally _ _
              (Leads-try_except _ _ (Leads-switch_body env target payload confirmation_id actor)
                (Leads-switch_failed env source payload target actor))
              (Leads-success_end env target.id target.id) (Leads-failed_end env target.id)))

  Leads-confirm_switch :
      (confirmation_id actor : String) → Keeps Closed (confirm_switch env confirmation_id actor)
  unfolding confirm_switch
  Leads-confirm_switch confirmation_id actor =
      Keeps-bind _ _ (Keeps-consume env actor "switch" confirmation_id)
        λ text. Leads-switch_profiles (env.decode_switch text) confirmation_id actor

-- Whatever the world answers: if no lease is open before a switch is confirmed and every call so
-- far was allowed, then after it, whether it returns or raises, the release of every lease has been
-- asked for, that of the target and that of a rollback, and the store has none of them, unless it
-- raised in a release or after it had published a lease; and the calls were allowed too: each
-- server was started under the lease of its own profile, each stop and backup was made under a
-- lease, and no second lease was taken.
pub confirm_switch-guarded :
    (env : Env) (confirmation_id actor : String) (f : Frame)
    → open_lease f.calls ≡ none
    → is_guarded f.calls ≡ true
    → let (r, f') = confirm_switch env confirmation_id actor f in
      (open_lease f'.calls ≡ none)
      × ((stored_lease f'.calls ≡ none) ⊎ (has_fault f'.calls ≡ true))
      × (is_guarded f'.calls ≡ true)
confirm_switch-guarded env confirmation_id actor f closed guarded =
    let kept = Keeps-state _ (Leads-confirm_switch env confirmation_id actor) f (closed, guarded) in
    (kept.0, open_lease-stored _ kept.0, kept.1)
