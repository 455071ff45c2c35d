-- ===== src/Program/Keeping.antt =====
-- What a program keeps: one rule for each way to build a program, for what holds before and after.
use helios_horizon.Common.{◌≡◌, refl, Bool, true, false, if◌then◌else◌}
use helios_horizon.Program.{Program, pure, raise, gets, try_except, ◌>>=◌, ◌>>◌, raise_if, when}
use helios_horizon.Program.Rules.{
  Leads, settled, Keeps, Leads-pure, Leads-raise, Leads-try_except, Leads-bind, Leads-then,
}

module _ {S E : Type 0} {P : S → Type 0} where
  pub Keeps-pure : {A : Type 0} (a : A) → Keeps P (pure {E = E} a)
  Keeps-pure a = Leads-pure a (λ f h. h)

  pub Keeps-raise : {A : Type 0} (e : E) → Keeps P (raise {A = A} e)
  Keeps-raise e = Leads-raise e (λ f h. h)

  pub Keeps-gets : {A : Type 0} (g : S → A) → Keeps P (gets {E = E} g)
  unfolding gets
  Keeps-gets g = record { at = λ f h. h }

  -- Past a test that may raise, its outcome is known.
  pub Leads-raise_if :
      {Q R : S → Type 0} (b : Bool) (e : E)
      → ((f : S) → P f → b ≡ false → Q f)
      → ((f : S) → P f → R f)
      → Leads P (raise_if b e) Q R
  unfolding raise_if
  Leads-raise_if true e h k = record { at = k }
  Leads-raise_if false e h k = record { at = λ f x. h f x refl }

  pub Keeps-raise_if : (b : Bool) (e : E) → Keeps P (raise_if b e)
  unfolding raise_if
  Keeps-raise_if true e = record { at = λ f h. h }
  Keeps-raise_if false e = record { at = λ f h. h }

  pub Keeps-when : (b : Bool) (m : Program S E (Unit {0})) → Keeps P m → Keeps P (when b m)
  unfolding when
  Keeps-when true m h = h
  Keeps-when false m h = record { at = λ f x. x }

  pub Keeps-if :
      {A : Type 0} (b : Bool) (m n : Program S E A)
      → Keeps P m
      → Keeps P n
      → Keeps P (if b then m else n)
  Keeps-if true m n h k = h
  Keeps-if false m n h k = k

  pub Keeps-bind :
      {A B : Type 0} (m : Program S E A) (k : A → Program S E B)
      → Keeps P m
      → ((a : A) → Keeps P (k a))
      → Keeps P (m >>= k)
  Keeps-bind m k h n = Leads-bind m k h n

  pub Keeps-then :
      {A B : Type 0} (m : Program S E A) (k : Program S E B)
      → Keeps P m
      → Keeps P k
      → Keeps P (m >> k)
  Keeps-then m k h n = Leads-then m k h n

  pub Keeps-try_except :
      {A : Type 0} (m : Program S E A) (handler : E → Program S E A)
      → Keeps P m
      → ((e : E) → Keeps P (handler e))
      → Keeps P (try_except m handler)
  Keeps-try_except m handler h k = Leads-try_except m handler h k

pub ruleset keeps_rules = (
  Keeps-pure, Keeps-raise, Keeps-gets, Keeps-raise_if, Keeps-when, Keeps-if, Keeps-bind, Keeps-then,
  Keeps-try_except,
)

-- What is kept holds of the state that a program leaves.
pub Keeps-state :
    {S E : Type 0} {P : S → Type 0} {A : Type 0} (m : Program S E A)
    → Keeps P m
    → (f : S) → P f
    → P (m f).1
Keeps-state {P} m h f x = settled P (m f).0 (m f).1 (h.at f x)
