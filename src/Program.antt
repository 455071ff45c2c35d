-- ===== src/Program.antt =====
-- Programs over a state that may raise an exception, as the methods of src/game_control that change
-- tables, files and local variables: the state survives the exception.
pub mod Rules
pub mod Keeping
pub mod Loops
pub mod Branches
use helios_horizon.Common.{Bool, true, false, List, [], ◌∷◌}

pub data Result (E A : Type 0) : Type 0 where
  returned : A → Result E A
  raised : E → Result E A

abbrev pub Program : Type 0 → Type 0 → Type 0 → Type 0
Program S E A = S → Result E A × S

module _ {E A : Type 0} where
  abbrev pub is_raised : Result E A → Bool
  is_raised (returned a) = false
  is_raised (raised e) = true

  abbrev pub replaced : Result E A → Result E (Unit {0}) → Result E A
  replaced r (returned u) = r
  replaced r (raised e) = raised e

module _ {S E A : Type 0} where
  unfoldable pub pure : A → Program S E A
  pure a f = (returned a, f)

  unfoldable pub raise : E → Program S E A
  raise e f = (raised e, f)

  unfoldable pub gets : (S → A) → Program S E A
  gets g f = (returned (g f), f)

  -- `try: m except: handler`
  abbrev pub handled : Result E A → (E → Program S E A) → Program S E A
  handled (returned a) handler f = (returned a, f)
  handled (raised e) handler f = handler e f

  unfoldable pub try_except : Program S E A → (E → Program S E A) → Program S E A
  try_except m handler f = let (r, f') = m f in handled r handler f'

  -- `try: m finally: cleanup`, where the cleanup is told whether an exception is on its way.
  unfoldable pub try_finally : Program S E A → (Bool → Program S E (Unit {0})) → Program S E A
  try_finally m cleanup f =
      let (r, f') = m f in let (u, f'') = cleanup (is_raised r) f' in (replaced r u, f'')

module _ {S E A B : Type 0} where
  abbrev pub continue : Result E A → (A → Program S E B) → Program S E B
  continue (returned a) k f = k a f
  continue (raised e) k f = (raised e, f)

  infixl 5 ◌>>=◌ ◌>>◌
  unfoldable pub ◌>>=◌ : Program S E A → (A → Program S E B) → Program S E B
  ◌>>=◌ m k f = let (r, f') = m f in continue r k f'

  unfoldable pub ◌>>◌ : Program S E A → Program S E B → Program S E B
  ◌>>◌ m n f = let (r, f') = m f in continue r (λ _. n) f'

module _ {S E : Type 0} where
  unfoldable pub modify : (S → S) → Program S E (Unit {0})
  modify g f = (returned tt, g f)

  unfoldable pub raise_if : Bool → E → Program S E (Unit {0})
  unfolding raise pure
  raise_if true e = raise e
  raise_if false e = pure tt

  unfoldable pub when : Bool → Program S E (Unit {0}) → Program S E (Unit {0})
  unfolding pure
  when true m = m
  when false m = pure tt

-- `for x in xs: body x`
unfoldable pub for_each :
    {S E A : Type 0} → (A → Program S E (Unit {0})) → List A → Program S E (Unit {0})
unfolding pure ◌>>◌
for_each body [] = pure tt
for_each body (x ∷ xs) = body x >> for_each body xs
