-- ===== src/Slot/Exec.antt =====
-- Code that works on one file and may raise: the file comes back beside the error too, since what
-- was written before an exception stays written.
use helios_horizon.Common.{Option, none, some, Bool, true, false, ◌≡◌, refl, ◌⊎◌, inl, inr}

-- The exceptions of src/game_control/slot.py, with what its messages tell apart.
pub data Failure : Type 0 where
  -- PermissionError
  not_root : Failure
  -- ValueError
  invalid_profile invalid_operation_id invalid_ttl invalid_generation invalid_kind : Failure
  invalid_capability no_controller unsafe_lock unsafe_reservation malformed_reservation : Failure
  -- BlockingIOError
  already_live precondition_failed ownership_changed handoff_mismatch : Failure
  -- OSError
  os_error : Failure

pub data Outcome {ℓ} (A : Type ℓ) : Type ℓ where
  ok : A → Outcome A
  err : Failure → Outcome A

abbrev pub Exec {ℓ} : Type ℓ → Type ℓ → Type ℓ
Exec S A = S → Outcome A × S

module _ {ℓ} {S A : Type ℓ} where
  abbrev pub pure : A → Exec S A
  pure a s = (ok a, s)

  abbrev pub raise : Failure → Exec S A
  raise e s = (err e, s)

  abbrev pub lift : Outcome A → Exec S A
  lift r s = (r, s)

  -- `none` is raised as the failure.
  abbrev pub need : Failure → Option A → Exec S A
  need e none s = (err e, s)
  need e (some a) s = (ok a, s)

  abbrev pub gets : (S → A) → Exec S A
  gets f s = (ok (f s), s)

module _ {ℓ} {S : Type ℓ} {A B : Type ℓ} where
  abbrev pub continue : Outcome A → (A → Exec S B) → Exec S B
  continue (ok a) f s = f a s
  continue (err e) f s = (err e, s)

  infixl 5 ◌>>=◌ ◌>>◌
  abbrev pub ◌>>=◌ : Exec S A → (A → Exec S B) → Exec S B
  ◌>>=◌ m f s = let (r, s') = m s in continue r f s'

  abbrev pub ◌>>◌ : Exec S A → Exec S B → Exec S B
  m >> n = m >>= λ _. n

-- `if test: raise e`
abbrev pub reject : {S : Type 0} → Bool → Failure → Exec S (Unit {0})
reject true e s = (err e, s)
reject false e s = (ok tt, s)

-- The outcome of code that looks at no file.
abbrev pub outcome : {A : Type 0} → Exec (Unit {0}) A → Outcome A
outcome m = (m tt).0

pub Outcome-cases {ℓ} :
    {A : Type ℓ} (m : Outcome A) → ((a : A) × (m ≡ ok a)) ⊎ ((e : Failure) × (m ≡ err e))
Outcome-cases (ok a) = inl (a, refl)
Outcome-cases (err e) = inr (e, refl)
