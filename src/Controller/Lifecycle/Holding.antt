-- ===== src/Controller/Lifecycle/Holding.antt =====
-- The states between the calls of a start or a stop (src/game_control/controller.py): the lease
-- that the handler has in its variable is the one that is open.
use helios_horizon.Common.{
  ◌+◌, ◌∷◌, String, ◌≡◌, refl, ◌∙◌, Bool, true, false, Option, none, some, arith, eq_refl,
}
use helios_horizon.Slot.Values.{ProfileId, value, same_profile}
use helios_horizon.Program.{◌>>=◌, ◌>>◌, modify, gets, pure, raise, continue}
use helios_horizon.Controller.Lifecycle.Script.{
  Fault, Lease, start, graceful_stop, force_stop, drained, Profile, Env, Frame, Reserving, granted,
  refused, refused_published, cancelled_published, cancelled_before, cancelled_after, reserved, log,
}
use helios_horizon.Controller.Lifecycle.Leases.{
  slot_refused, write_audit, record_event, receive, reserve, serve, release_lease, drain_renewal,
  clear_reservation, report,
}
use helios_horizon.Controller.Lifecycle.Start.{enter, hold}
use helios_horizon.Program.Rules.{
  Ends, Leads, Keeps, Leads-pure, Leads-bind, Leads-weaken, Leads-gets, Leads-read,
}
use helios_horizon.Program.Keeping.{Keeps-pure, Keeps-raise}
use helios_horizon.Controller.Lifecycle.Guarded.{
  same_lease, cleared-open_lease, cleared-is_guarded, open_lease, is_held, is_held_for, is_allowed,
  is_guarded, is_quiet, leases-IsStable, IsStable, Keeps-serve,
}

pub same_lease_refl : (l : Lease) → same_lease l (some l) ≡ true
unfolding same_profile
same_lease_refl l = ground (arith, eq_refl (value l.profile), eq_refl l.id)

-- No lease is open, and the handler has none.
abbrev pub IsIdle : Frame → Type 0
IsIdle f =
    (open_lease f.calls ≡ none) × (is_guarded f.calls ≡ true) × (f.lease ≡ none) × (f.begun ≡ false)

abbrev pub implies : Bool → Bool → Bool
implies true b = b
implies false b = true

-- The open lease is the handler's, it is for the profile, and it is there once the start was begun.
abbrev pub IsInStep : ProfileId → Frame → Type 0
IsInStep p f =
    (open_lease f.calls ≡ f.lease)
    × (is_guarded f.calls ≡ true)
    × (implies (is_held f.lease) (is_held_for p f.lease) ≡ true)
    × (implies f.begun (is_held f.lease) ≡ true)

abbrev pub IsHolding : ProfileId → Frame → Type 0
IsHolding p f = IsInStep p f × (is_held f.lease ≡ true)

pub Idle-InStep : (p : ProfileId) (f : Frame) → IsIdle f → IsInStep p f
Idle-InStep p f h = ground arith

pub IsInStep-IsStable : (p : ProfileId) → IsStable (IsInStep p)
IsInStep-IsStable p = leases-IsStable (λ o g l b t r.
    (o ≡ l)
    × (g ≡ true)
    × (implies (is_held l) (is_held_for p l) ≡ true)
    × (implies b (is_held l) ≡ true))

pub IsHolding-IsStable : (p : ProfileId) → IsStable (IsHolding p)
IsHolding-IsStable p = leases-IsStable (λ o g l b t r.
    ((o ≡ l)
      × (g ≡ true)
      × (implies (is_held l) (is_held_for p l) ≡ true)
      × (implies b (is_held l) ≡ true))
    × (is_held l ≡ true))

module _ (p : ProfileId) (env : Env) where
  -- With the lease in hand the server of its profile is started, and any server stopped.
  pub Keeps-start : Keeps (IsHolding p) (serve env start p)
  unfolding log open_lease is_guarded is_allowed
  Keeps-start = Keeps-serve (IsHolding-IsStable p) env start p (record { at = λ f h. ground arith })

  pub Keeps-force_stop : (q : ProfileId) → Keeps (IsHolding p) (serve env force_stop q)
  unfolding log open_lease is_guarded is_allowed
  Keeps-force_stop q =
      Keeps-serve (IsHolding-IsStable p) env force_stop q (record { at = λ f h. ground arith })

  pub Keeps-graceful_stop : (q : ProfileId) → Keeps (IsHolding p) (serve env graceful_stop q)
  unfolding log open_lease is_guarded is_allowed
  Keeps-graceful_stop q =
      Keeps-serve (IsHolding-IsStable p) env graceful_stop q (record { at = λ f h. ground arith })

  held_after :
      (reply : Reserving) (l : Lease) (operation actor : String) (f : Frame)
      → l.profile ≡ p
      → IsIdle f
      → let r =
          continue
            (receive env reply l operation actor f).0
            (λ taken. modify λ g. record g { lease = some taken; renewing = true })
            (receive env reply l operation actor f).1 in
        Ends (IsHolding p) IsIdle r.0 r.1
  unfolding receive slot_refused clear_reservation gets open_lease is_guarded is_allowed log pure
      raise ◌>>=◌ ◌>>◌ modify record_event write_audit same_profile
  held_after granted l operation actor f same h = ground (arith, eq_refl (value p))
  held_after refused l operation actor f same h = ground arith
  held_after refused_published l operation actor f same h = ground arith
  held_after cancelled_published l operation actor f same h = ground arith
  held_after cancelled_before l operation actor f same h = h
  held_after cancelled_after l operation actor f same h =
      let e = (env.draining (f.tick + 1)).cleanup_error in
      ground (
        arith,
        same_lease_refl l,
        cleared-open_lease l e (reserved l ∷ f.calls),
        cleared-is_guarded l e (reserved l ∷ f.calls),
      )

  -- From no lease to the profile's, or to an exception with none.
  pub Leads-hold :
      (profile : Profile) (operation operation_id actor : String)
      → profile.id ≡ p
      → Leads IsIdle (hold env profile operation operation_id actor) (IsHolding p) IsIdle
  unfolding hold reserve ◌>>=◌ gets
  Leads-hold profile operation operation_id actor same = record {
    at = λ f h.
        held_after (env.reserving f.tick)
          (record { profile = profile.id; id = operation_id; generation = f.db.generation })
          operation actor f same h;
  }

-- Of a lease that is open, and of none.
abbrev pub IsOpen : Option Lease → Frame → Type 0
IsOpen lease f = (open_lease f.calls ≡ lease) × (is_guarded f.calls ≡ true)

pub IsOpen-IsStable : (lease : Option Lease) → IsStable (IsOpen lease)
IsOpen-IsStable lease = leases-IsStable (λ o g l b t r. (o ≡ lease) × (g ≡ true))

module _ (env : Env) where
  -- The drain itself raises nothing.
  Leads-drain_renewal :
      {R : Frame → Type 0} (lease : Option Lease) (renewing : Bool)
      → Leads (IsOpen lease) (drain_renewal env renewing) (IsOpen lease) R
  unfolding drain_renewal is_quiet ◌>>=◌ ◌>>◌ gets log pure
  Leads-drain_renewal lease false = record { at = λ f h. h }
  Leads-drain_renewal lease true = record {
    at = λ f h. (IsOpen-IsStable lease).logged drained f refl h;
  }

  Leads-clear_reservation :
      {R : Frame → Type 0} (lease : Option Lease)
      → Leads (IsOpen lease) (clear_reservation env lease) (IsOpen none) R
  unfolding clear_reservation open_lease is_guarded is_allowed ◌>>=◌ ◌>>◌ gets log pure
  Leads-clear_reservation none = record { at = λ f h. h }
  Leads-clear_reservation (some l) = record {
    at = λ f h.
        let e = (env.draining f.tick).cleanup_error in
        ground (
          arith,
          same_lease_refl l,
          cleared-open_lease l e f.calls,
          cleared-is_guarded l e f.calls,
        );
  }

  pub Keeps-report :
      {P : Frame → Type 0} (primary : Bool) (cleanup_error renewal_error : Option Fault)
      → Keeps P (report primary cleanup_error renewal_error)
  unfolding report
  Keeps-report true cleanup_error renewal_error = Keeps-pure tt
  Keeps-report false none none = Keeps-pure tt
  Keeps-report false none (some e) = Keeps-raise e
  Keeps-report false (some e) renewal_error = Keeps-raise e

  pub Leads-release_lease :
      (lease : Option Lease) (renewing primary : Bool)
      → Leads (IsOpen lease) (release_lease env lease renewing primary) (IsOpen none) (IsOpen none)
  unfolding release_lease
  Leads-release_lease lease renewing primary =
      Leads-bind _ _ (Leads-drain_renewal lease renewing) λ renewal_error.
        Leads-bind _ _ (Leads-clear_reservation lease)
          λ cleanup_error. Keeps-report primary cleanup_error renewal_error

  -- Over a primary exception the release raises nothing.
  pub Leads-release_quietly :
      {R : Frame → Type 0} (lease : Option Lease) (renewing : Bool)
      → Leads (IsOpen lease) (release_lease env lease renewing true) (IsOpen none) R
  unfolding release_lease report
  Leads-release_quietly lease renewing =
      Leads-bind _ _ (Leads-drain_renewal lease renewing) λ renewal_error.
        Leads-bind _ _ (Leads-clear_reservation lease) λ cleanup_error. Leads-pure tt (λ f h. h)

-- The open lease is the handler's.
abbrev pub IsMatched : Frame → Type 0
IsMatched f = (open_lease f.calls ≡ f.lease) × (is_guarded f.calls ≡ true)

pub IsMatched-IsStable : IsStable IsMatched
IsMatched-IsStable = leases-IsStable (λ o g l b t r. (o ≡ l) × (g ≡ true))

pub IsIdle-IsStable : IsStable IsIdle
IsIdle-IsStable =
    leases-IsStable (λ o g l b t r. (o ≡ none) × (g ≡ true) × (l ≡ none) × (b ≡ false))

-- The handler's lease is released.
pub Leads-give_back :
    (env : Env) (primary : Bool)
    → Leads IsMatched
        (gets (λ f. f.lease) >>= λ lease.
          gets (λ f. f.renewing) >>= λ renewing. release_lease env lease renewing primary)
        (IsOpen none)
        (IsOpen none)
Leads-give_back env primary = Leads-gets _ _ λ lease. Leads-read _ _ λ renewing.
    Leads-weaken _ (λ f h. (h.0.0 ∙ h.1, h.0.1)) (λ f x. x) (λ f x. x)
      (Leads-release_lease env lease renewing primary)

-- A handler begins with its variables empty.
pub Leads-enter : {R : Frame → Type 0} → Leads (IsOpen none) enter IsIdle R
unfolding enter modify
Leads-enter = record { at = λ f h. (h.0, h.1, refl, refl) }
