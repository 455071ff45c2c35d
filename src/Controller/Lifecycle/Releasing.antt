-- ===== src/Controller/Lifecycle/Releasing.antt =====
-- The two releases at the end of `_confirm_switch` (src/game_control/controller.py).
use helios_horizon.Common.{◌≡◌, refl, Bool, true, false, Option, none, some, arith}
use helios_horizon.Program.{◌>>=◌, ◌>>◌, gets, pure}
use helios_horizon.Controller.Lifecycle.Script.{Lease, drained, Env, Frame, log}
use helios_horizon.Controller.Lifecycle.Leases.{
  release_lease, drain_renewal, clear_reservation, report,
}
use helios_horizon.Program.Rules.{Leads, Leads-pure, Leads-bind}
use helios_horizon.Controller.Lifecycle.Guarded.{
  open_lease, is_allowed, is_guarded, is_quiet, leases-IsStable, IsStable,
}
use helios_horizon.Controller.Lifecycle.Holding.{
  IsOpen, IsOpen-IsStable, same_lease_refl, Keeps-report,
}
use helios_horizon.Controller.Lifecycle.Switching.{IsShut}

-- The two releases at the end, over a primary exception.
module _ (env : Env) where
  Leads-drain :
      {P R : Frame → Type 0} (stable : IsStable P) (renewing : Bool)
      → Leads P (drain_renewal env renewing) P R
  unfolding drain_renewal is_quiet ◌>>=◌ ◌>>◌ gets log pure
  Leads-drain stable false = record { at = λ f h. h }
  Leads-drain stable true = record { at = λ f h. stable.logged drained f refl h }

  pub Leads-release_none :
      {P R : Frame → Type 0} (stable : IsStable P) (renewing : Bool)
      → Leads P (release_lease env none renewing true) P R
  unfolding release_lease report clear_reservation
  Leads-release_none stable renewing = Leads-bind _ _ (Leads-drain stable renewing) λ renewal_error.
      Leads-bind _ _ (Leads-pure none (λ f h. h)) λ cleanup_error. Leads-pure tt (λ f h. h)

  Leads-clear_shut :
      {R : Frame → Type 0} (lease : Option Lease)
      → Leads (IsOpen none) (clear_reservation env lease) (IsOpen none) R
  unfolding clear_reservation open_lease is_guarded is_allowed ◌>>=◌ ◌>>◌ gets log pure
  Leads-clear_shut none = record { at = λ f h. h }
  Leads-clear_shut (some l) = record { at = λ f h. ground arith }

  pub Leads-release_shut :
      {R : Frame → Type 0} (lease : Option Lease) (renewing : Bool)
      → Leads (IsOpen none) (release_lease env lease renewing true) (IsOpen none) R
  unfolding release_lease report
  Leads-release_shut lease renewing =
      Leads-bind _ _ (Leads-drain (IsOpen-IsStable none) renewing) λ renewal_error.
        Leads-bind _ _ (Leads-clear_shut lease) λ cleanup_error. Leads-pure tt (λ f h. h)

  -- No lease of a rollback: what a release leaves, if it raises too.
  Leads-clear_kept :
      {R : Frame → Type 0} (lease : Option Lease)
      → Leads
          (λ f. IsOpen lease f × (f.rollback_lease ≡ none))
          (clear_reservation env lease)
          IsShut
          R
  unfolding clear_reservation open_lease is_guarded is_allowed ◌>>=◌ ◌>>◌ gets log pure
  Leads-clear_kept none = record { at = λ f h. h }
  Leads-clear_kept (some l) = record { at = λ f h. ground (arith, same_lease_refl l) }

  pub Leads-release_kept :
      (lease : Option Lease) (renewing primary : Bool)
      → Leads
          (λ f. IsOpen lease f × (f.rollback_lease ≡ none))
          (release_lease env lease renewing primary)
          IsShut
          IsShut
  unfolding release_lease
  Leads-release_kept lease renewing primary =
      Leads-bind _ _
        (Leads-drain (leases-IsStable (λ o g l b t r. ((o ≡ lease) × (g ≡ true)) × (r ≡ none)))
          renewing)
        λ renewal_error.
          Leads-bind _ _ (Leads-clear_kept lease)
            λ cleanup_error. Keeps-report env primary cleanup_error renewal_error
