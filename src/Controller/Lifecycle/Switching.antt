-- ===== src/Controller/Lifecycle/Switching.antt =====
-- The states between the calls of `_confirm_switch` (src/game_control/controller.py): the lease of
-- the target, and the one of the source that a rollback takes in its place.
use helios_horizon.Common.{
  ◌+◌, ◌∷◌, String, ◌≡◌, Bool, true, false, Option, none, some, arith, eq_refl, ◌⊎◌, inl, inr,
}
use helios_horizon.Slot.Values.{ProfileId, value, same_profile}
use helios_horizon.Program.{◌>>=◌, ◌>>◌, modify, gets, pure, raise, continue}
use helios_horizon.Controller.Lifecycle.Script.{
  Fault, failure, timed_out, cancelled, exit_75, other_exception, Lease, start, graceful_stop,
  force_stop, served, Profile, Env, Frame, Reserving, granted, refused, refused_published,
  cancelled_published, reserved, transferred, cancelled_before, cancelled_after, log,
}
use helios_horizon.Controller.Lifecycle.Leases.{
  slot_refused, clear_reservation, write_audit, record_event, receive, reserve,
}
use helios_horizon.Controller.Lifecycle.Start.{hold}
use helios_horizon.Controller.Lifecycle.Switch.{
  retry_start, start_with_free_retry, forced, stop_or_force, receive_transfer, take_back,
}
use helios_horizon.Program.Rules.{Ends, Leads, Keeps}
use helios_horizon.Program.Keeping.{
  Keeps-pure, Keeps-raise, Keeps-then, Keeps-bind, Keeps-if, Keeps-raise_if, Keeps-try_except,
}
use helios_horizon.Controller.Lifecycle.Guarded.{
  cleared-open_lease, cleared-is_guarded, open_lease, is_held, is_held_for, is_allowed, is_guarded,
  leases-IsStable, IsStable, Keeps-serve, Keeps-wait_for_free_slot,
}
use helios_horizon.Controller.Lifecycle.Holding.{
  IsIdle, IsHolding, IsOpen, implies, same_lease_refl,
}

-- Before the lease of the target.
abbrev pub IsReady : Frame → Type 0
IsReady f = IsIdle f × (f.target_started ≡ false) × (f.rollback_lease ≡ none)

-- With the lease of the target.
abbrev pub IsSwitching : ProfileId → Frame → Type 0
IsSwitching p f = IsHolding p f × (f.rollback_lease ≡ none)

-- After a failure: the open lease is the handler's, and it is there once the target was started.
abbrev pub IsFailed : Frame → Type 0
IsFailed f =
    (open_lease f.calls ≡ f.lease)
    × (is_guarded f.calls ≡ true)
    × (implies f.target_started (is_held f.lease) ≡ true)
    × (f.rollback_lease ≡ none)

-- With the lease of the source for the rollback.
abbrev pub IsRolling : ProfileId → Frame → Type 0
IsRolling p f =
    (open_lease f.calls ≡ f.rollback_lease)
    × (is_guarded f.calls ≡ true)
    × (f.lease ≡ none)
    × (is_held_for p f.rollback_lease ≡ true)

-- What a rollback leaves: the lease of the target, no lease, or the one of the source.
abbrev pub IsKept : Frame → Type 0
IsKept f = IsOpen f.lease f × (f.rollback_lease ≡ none)

abbrev pub IsShut : Frame → Type 0
IsShut f = IsOpen none f × (f.rollback_lease ≡ none)

abbrev pub IsSwapped : Frame → Type 0
IsSwapped f = IsOpen f.rollback_lease f × (f.lease ≡ none)

abbrev pub IsLeft : Frame → Type 0
IsLeft f = IsKept f ⊎ (IsShut f ⊎ IsSwapped f)

module _ (p : ProfileId) where
  pub IsSwitching-IsStable : IsStable (IsSwitching p)
  IsSwitching-IsStable = leases-IsStable (λ o g l b t r.
      (((o ≡ l)
          × (g ≡ true)
          × (implies (is_held l) (is_held_for p l) ≡ true)
          × (implies b (is_held l) ≡ true))
        × (is_held l ≡ true))
      × (r ≡ none))

  pub IsRolling-IsStable : IsStable (IsRolling p)
  IsRolling-IsStable =
      leases-IsStable (λ o g l b t r. (o ≡ r) × (g ≡ true) × (l ≡ none) × (is_held_for p r ≡ true))

pub IsFailed-IsStable : IsStable IsFailed
IsFailed-IsStable =
    leases-IsStable
      (λ o g l b t r. (o ≡ l) × (g ≡ true) × (implies t (is_held l) ≡ true) × (r ≡ none))

pub IsKept-IsStable : IsStable IsKept
IsKept-IsStable = leases-IsStable (λ o g l b t r. ((o ≡ l) × (g ≡ true)) × (r ≡ none))

pub IsShut-IsStable : IsStable IsShut
IsShut-IsStable = leases-IsStable (λ o g l b t r. ((o ≡ none) × (g ≡ true)) × (r ≡ none))

pub IsSwapped-IsStable : IsStable IsSwapped
IsSwapped-IsStable = leases-IsStable (λ o g l b t r. ((o ≡ r) × (g ≡ true)) × (l ≡ none))

-- The actions of a switch under whatever allows them.
module _ {P : Frame → Type 0} (stable : IsStable P) (env : Env) (p : ProfileId) where
  Keeps-retry_start : Keeps P (log (served start p)) → (e : Fault) → Keeps P (retry_start env p e)
  unfolding retry_start
  Keeps-retry_start h exit_75 = Keeps-bind _ _ (Keeps-wait_for_free_slot stable env p) λ free.
      Keeps-then _ _ (Keeps-raise_if _ _)
        (Keeps-then _ _ (Keeps-serve stable env start p h) (Keeps-pure _))
  Keeps-retry_start h (failure code retryable) = Keeps-raise _
  Keeps-retry_start h timed_out = Keeps-raise _
  Keeps-retry_start h cancelled = Keeps-raise _
  Keeps-retry_start h other_exception = Keeps-raise _

  pub Keeps-start_with_free_retry :
      Keeps P (log (served start p)) → Keeps P (start_with_free_retry env p)
  unfolding start_with_free_retry
  Keeps-start_with_free_retry h =
      Keeps-try_except _ _ (Keeps-then _ _ (Keeps-serve stable env start p h) (Keeps-pure _))
        (Keeps-retry_start h)

  Keeps-forced :
      (force : Bool) (otherwise : Fault)
      → Keeps P (log (served force_stop p))
      → (e : Fault) → Keeps P (forced env p force otherwise e)
  unfolding forced
  Keeps-forced force otherwise h timed_out =
      Keeps-if _ _ _ (Keeps-then _ _ (Keeps-serve stable env force_stop p h) (Keeps-pure _))
        (Keeps-raise _)
  Keeps-forced force otherwise h (failure code retryable) = Keeps-raise _
  Keeps-forced force otherwise h exit_75 = Keeps-raise _
  Keeps-forced force otherwise h cancelled = Keeps-raise _
  Keeps-forced force otherwise h other_exception = Keeps-raise _

  pub Keeps-stop_or_force :
      (force : Bool) (otherwise : Fault)
      → Keeps P (log (served graceful_stop p))
      → Keeps P (log (served force_stop p))
      → Keeps P (stop_or_force env p force otherwise)
  unfolding stop_or_force
  Keeps-stop_or_force force otherwise g h =
      Keeps-try_except _ _
        (Keeps-then _ _ (Keeps-serve stable env graceful_stop p g) (Keeps-pure _))
        (Keeps-forced force otherwise h)

module _ (p : ProfileId) (env : Env) where
  taken_after :
      (reply : Reserving) (l : Lease) (operation actor : String) (f : Frame)
      → l.profile ≡ p
      → IsReady f
      → let r =
          continue
            (receive env reply l operation actor f).0
            (λ taken. modify λ g. record g { lease = some taken; renewing = true })
            (receive env reply l operation actor f).1 in
        Ends (IsSwitching p) IsReady r.0 r.1
  unfolding receive slot_refused clear_reservation gets open_lease is_guarded is_allowed log pure
      raise ◌>>=◌ ◌>>◌ modify record_event write_audit same_profile
  taken_after granted l operation actor f same h = ground (arith, eq_refl (value p))
  taken_after refused l operation actor f same h = ground arith
  taken_after refused_published l operation actor f same h = ground arith
  taken_after cancelled_published l operation actor f same h = ground arith
  taken_after cancelled_before l operation actor f same h = h
  taken_after cancelled_after l operation actor f same h =
      let e = (env.draining (f.tick + 1)).cleanup_error in
      ground (
        arith,
        same_lease_refl l,
        cleared-open_lease l e (reserved l ∷ f.calls),
        cleared-is_guarded l e (reserved l ∷ f.calls),
      )

  pub Leads-hold_target :
      (profile : Profile) (operation operation_id actor : String)
      → profile.id ≡ p
      → Leads IsReady (hold env profile operation operation_id actor) (IsSwitching p) IsReady
  unfolding hold reserve ◌>>=◌ gets
  Leads-hold_target profile operation operation_id actor same = record {
    at = λ f h.
        taken_after (env.reserving f.tick)
          (record { profile = profile.id; id = operation_id; generation = f.db.generation })
          operation actor f same h;
  }

  -- A rollback without a lease of the target reserves for the source.
  Ends-take_back :
      (reply : Reserving) (l : Lease) (operation actor : String) (f : Frame)
      → l.profile ≡ p
      → IsFailed f
      → f.lease ≡ none
      → let r =
          continue
            (receive env reply l operation actor f).0
            (λ taken. modify λ g. record g { rollback_lease = some taken })
            (receive env reply l operation actor f).1 in
        Ends (IsRolling p) IsLeft r.0 r.1
  unfolding receive slot_refused clear_reservation gets open_lease is_guarded is_allowed log pure
      raise ◌>>=◌ ◌>>◌ modify record_event write_audit same_profile
  Ends-take_back granted l operation actor f same h none_held = ground (arith, eq_refl (value p))
  Ends-take_back refused l operation actor f same h none_held = inl (ground arith)
  Ends-take_back refused_published l operation actor f same h none_held = inl (ground arith)
  Ends-take_back cancelled_published l operation actor f same h none_held = inl (ground arith)
  Ends-take_back cancelled_before l operation actor f same h none_held = inl (ground arith)
  Ends-take_back cancelled_after l operation actor f same h none_held =
      let e = (env.draining (f.tick + 1)).cleanup_error in
      inl (
        ground (
          arith,
          same_lease_refl l,
          cleared-open_lease l e (reserved l ∷ f.calls),
          cleared-is_guarded l e (reserved l ∷ f.calls),
        ))

  -- With one it is transferred.
  Ends-receive_transfer :
      (reply : Reserving) (l given : Lease) (f : Frame)
      → given.profile ≡ p
      → IsFailed f
      → f.lease ≡ some l
      → let r = receive_transfer env reply l given f in Ends (IsRolling p) IsLeft r.0 r.1
  unfolding receive_transfer clear_reservation gets ◌>>=◌ pure open_lease is_guarded is_allowed log
      raise ◌>>◌ modify same_profile
  Ends-receive_transfer granted l given f same h held =
      ground (arith, eq_refl (value p), same_lease_refl l)
  Ends-receive_transfer refused l given f same h held = inl (ground arith)
  Ends-receive_transfer refused_published l given f same h held = inl (ground arith)
  Ends-receive_transfer cancelled_published l given f same h held = inl (ground arith)
  Ends-receive_transfer cancelled_before l given f same h held = inl (ground arith)
  Ends-receive_transfer cancelled_after l given f same h held =
      let e = (env.draining (f.tick + 1)).cleanup_error in
      let calls = transferred l given ∷ f.calls in
      inr (
        inl (
          ground (
            arith,
            same_lease_refl l,
            same_lease_refl given,
            cleared-open_lease given e calls,
            cleared-is_guarded given e calls,
          )))

  pub Leads-take_back :
      (source : Profile) (actor : String) (lease : Option Lease)
      → source.id ≡ p
      → Leads
          (λ f. IsFailed f × (f.lease ≡ lease))
          (take_back env source actor lease)
          (IsRolling p)
          IsLeft
  unfolding take_back reserve ◌>>=◌ gets
  Leads-take_back source actor (some l) same = record {
    at = λ f h.
        Ends-receive_transfer (env.transferring f.tick) l
          (record { profile = source.id; id = env.fresh f.tick; generation = l.generation }) f same
          h.0 h.1;
  }
  Leads-take_back source actor none same = record {
    at = λ f h.
        Ends-take_back (env.reserving f.tick)
          (record { profile = source.id; id = env.fresh f.tick; generation = f.db.generation })
          "rollback" actor f same h.0 h.1;
  }
