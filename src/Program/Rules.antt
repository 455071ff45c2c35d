-- ===== src/Program/Rules.antt =====
-- Where a program leads, one rule for each way to build a program.
use helios_horizon.Common.{◌≡◌, refl, Bool, true, false, ◌⊎◌, inl, inr}
use helios_horizon.Program.{
  Result, returned, raised, Program, pure, raise, gets, handled, try_except, replaced, is_raised,
  try_finally, continue, ◌>>=◌, ◌>>◌, modify, when,
}

-- The states in which a program may end: `Q` if it returns, `R` if it raises.
abbrev pub Ends : {S E A : Type 0} → (S → Type 0) → (S → Type 0) → Result E A → S → Type 0
Ends Q R (returned a) f = Q f
Ends Q R (raised e) f = R f

-- From `P` the program ends in `Q` if it returns, and in `R` if it raises.
pub record Leads {S E A : Type 0} (P : S → Type 0) (m : Program S E A) (Q R : S → Type 0)
    : Type 0 where
  pub at : (f : S) → P f → Ends Q R (m f).0 (m f).1

-- Whatever it does, `P` holds again.
abbrev pub Keeps : {S E A : Type 0} → (S → Type 0) → Program S E A → Type 0
Keeps P m = Leads P m P P

module _ {S E : Type 0} (Q R : S → Type 0) where
  Ends-weaken :
      {A : Type 0} (Q' R' : S → Type 0) (r : Result E A) (f : S)
      → ((g : S) → Q g → Q' g)
      → ((g : S) → R g → R' g)
      → Ends Q R r f
      → Ends Q' R' r f
  Ends-weaken Q' R' (returned a) f q r h = q f h
  Ends-weaken Q' R' (raised e) f q r h = r f h

  Ends-handled :
      {A : Type 0} (M : S → Type 0) (r : Result E A) (handler : E → Program S E A) (f : S)
      → Ends Q M r f
      → ((e : E) → Leads M (handler e) Q R)
      → Ends Q R (handled r handler f).0 (handled r handler f).1
  Ends-handled M (returned a) handler f h k = h
  Ends-handled M (raised e) handler f h k = (k e).at f h

  Ends-continue :
      {A B : Type 0} (M : S → Type 0) (r : Result E A) (k : A → Program S E B) (f : S)
      → Ends M R r f
      → ((a : A) → Leads M (k a) Q R)
      → Ends Q R (continue r k f).0 (continue r k f).1
  Ends-continue M (returned a) k f h n = (n a).at f h
  Ends-continue M (raised e) k f h n = h

module _ {S E : Type 0} (Q : S → Type 0) where
  pub settled : {A : Type 0} (r : Result E A) (f : S) → Ends Q Q r f → Q f
  settled (returned a) f h = h
  settled (raised e) f h = h

  Ends-replaced :
      {A : Type 0} (r : Result E A) (u : Result E (Unit {0})) (f : S)
      → Ends Q Q u f
      → Ends Q Q (replaced r u) f
  Ends-replaced (returned a) (returned u) f h = h
  Ends-replaced (raised e) (returned u) f h = h
  Ends-replaced r (raised e) f h = h

module _ {S E A : Type 0} {Q R M : S → Type 0} (cleanup : Bool → Program S E (Unit {0})) where
  Ends-finally :
      (r : Result E A) (f : S)
      → Ends Q R r f
      → Leads Q (cleanup false) M M
      → Leads R (cleanup true) M M
      → let done = cleanup (is_raised r) f in Ends M M (replaced r done.0) done.1
  Ends-finally (returned a) f h k l =
      Ends-replaced M (returned a) (cleanup false f).0 (cleanup false f).1 (k.at f h)
  Ends-finally (raised e) f h k l =
      Ends-replaced M (raised e) (cleanup true f).0 (cleanup true f).1 (l.at f h)

  -- The same cleanup after a value and after an exception, from the state of each.
  pub Leads-finally :
      {P : S → Type 0} (m : Program S E A)
      → Leads P m Q R
      → Leads Q (cleanup false) M M
      → Leads R (cleanup true) M M
      → Leads P (try_finally m cleanup) M M
  unfolding try_finally
  Leads-finally m h k l = record { at = λ f x. Ends-finally (m f).0 (m f).1 (h.at f x) k l }

module _ {S E A : Type 0} {P Q R : S → Type 0} where
  pub Leads-pure : (a : A) → ((f : S) → P f → Q f) → Leads P (pure {E = E} a) Q R
  unfolding pure
  Leads-pure a h = record { at = h }

  pub Leads-raise : (e : E) → ((f : S) → P f → R f) → Leads P (raise {A = A} e) Q R
  unfolding raise
  Leads-raise e h = record { at = h }

  pub Leads-weaken :
      {P' Q' R' : S → Type 0} (m : Program S E A)
      → ((f : S) → P' f → P f)
      → ((f : S) → Q f → Q' f)
      → ((f : S) → R f → R' f)
      → Leads P m Q R
      → Leads P' m Q' R'
  Leads-weaken {Q' = Q'} {R' = R'} m p q r h = record {
    at = λ f x. Ends-weaken Q R Q' R' (m f).0 (m f).1 q r (h.at f (p f x));
  }

  pub Leads-try_except :
      {M : S → Type 0} (m : Program S E A) (handler : E → Program S E A)
      → Leads P m Q M
      → ((e : E) → Leads M (handler e) Q R)
      → Leads P (try_except m handler) Q R
  unfolding try_except
  Leads-try_except {M = M} m handler h k = record {
    at = λ f x. Ends-handled Q R M (m f).0 handler (m f).1 (h.at f x) k;
  }

  -- The state after the cleanup, whichever way it is reached.
  pub Leads-try_finally :
      (m : Program S E A) (cleanup : Bool → Program S E (Unit {0}))
      → Leads P m R R
      → ((primary : Bool) → Leads R (cleanup primary) Q Q)
      → Leads P (try_finally m cleanup) Q Q
  unfolding try_finally
  Leads-try_finally m cleanup h k = record {
    at = λ f x.
        let primary = is_raised (m f).0 in
        let done = cleanup primary (m f).1 in
        Ends-replaced Q (m f).0 done.0 done.1
          ((k primary).at (m f).1 (settled R (m f).0 (m f).1 (h.at f x)));
  }

-- From either of two states.
pub Leads-either :
    {S E : Type 0} {A : Type 0} {P P' Q R : S → Type 0} (m : Program S E A)
    → Leads P m Q R
    → Leads P' m Q R
    → Leads (λ f. P f ⊎ P' f) m Q R
Leads-either m h k = record { at = λ f x. elim x [ inl y ↦ h.at f y | inr z ↦ k.at f z ] }

module _ {S E A B : Type 0} {P M Q R : S → Type 0} where
  pub Leads-bind :
      (m : Program S E A) (k : A → Program S E B)
      → Leads P m M R
      → ((a : A) → Leads M (k a) Q R)
      → Leads P (m >>= k) Q R
  unfolding ◌>>=◌
  Leads-bind m k h n = record { at = λ f x. Ends-continue Q R M (m f).0 k (m f).1 (h.at f x) n }

  pub Leads-then :
      (m : Program S E A) (k : Program S E B) → Leads P m M R → Leads M k Q R → Leads P (m >> k) Q R
  unfolding ◌>>◌
  Leads-then m k h n = record {
    at = λ f x. Ends-continue Q R M (m f).0 (λ _. k) (m f).1 (h.at f x) (λ _. n);
  }

-- A value that is read is that of the state.
pub Leads-gets :
    {S E : Type 0} {A B : Type 0} {P Q R : S → Type 0} (g : S → A) (k : A → Program S E B)
    → ((a : A) → Leads (λ f. P f × (g f ≡ a)) (k a) Q R)
    → Leads P (gets g >>= k) Q R
unfolding ◌>>=◌ gets
Leads-gets g k h = record { at = λ f x. (h (g f)).at f (x, refl) }

pub Leads-read :
    {S E : Type 0} {A B : Type 0} {P Q R : S → Type 0} (g : S → A) (k : A → Program S E B)
    → ((a : A) → Leads P (k a) Q R)
    → Leads P (gets g >>= k) Q R
unfolding ◌>>=◌ gets
Leads-read g k h = record { at = λ f x. (h (g f)).at f x }

pub Leads-when :
    {S E : Type 0} {P R : S → Type 0} (b : Bool) (m : Program S E (Unit {0}))
    → Leads P m P R
    → Leads P (when b m) P R
unfolding when
Leads-when true m h = h
Leads-when false m h = record { at = λ f x. x }

pub Leads-modify :
    {S E : Type 0} {P Q R : S → Type 0} (g : S → S)
    → ((f : S) → P f → Q (g f))
    → Leads P (modify {E = E} g) Q R
unfolding modify
Leads-modify g h = record { at = h }
