-- ===== src/Program/Branches.antt =====
-- What a program keeps past a test and past its cleanup, which are known to have gone one way.
use helios_horizon.Common.{Bool, true, false, if◌then◌else◌, ◌≡◌, refl, ◌∙◌}
use helios_horizon.Program.{
  Result, returned, raised, Program, gets, raise_if, when, replaced, is_raised, try_finally, ◌>>=◌,
}
use helios_horizon.Program.Rules.{Ends, Leads, Leads-gets}
use helios_horizon.Program.Keeping.{Leads-raise_if}

-- `if g(...): raise e`
pub Leads-test :
    {S E : Type 0} {P Q R : S → Type 0} (g : S → Bool) (e : E)
    → ((s : S) → P s → g s ≡ false → Q s)
    → ((s : S) → P s → R s)
    → Leads P (gets g >>= λ b. raise_if b e) Q R
Leads-test g e h k =
    Leads-gets g _ (λ b. Leads-raise_if b e (λ s p t. h s p.0 (p.1 ∙ t)) (λ s p. k s p.0))

-- `if b: m`, with what the test says.
pub Leads-when_test :
    {S E : Type 0} {P Q R : S → Type 0} (b : Bool) (m : Program S E (Unit {0}))
    → (b ≡ true → Leads P m Q R)
    → ((s : S) → P s → b ≡ false → Q s)
    → Leads P (when b m) Q R
unfolding when
Leads-when_test true m h k = h refl
Leads-when_test false m h k = record { at = λ s p. k s p refl }

pub Leads-if :
    {S E A : Type 0} {P Q R : S → Type 0} (b : Bool) (m n : Program S E A)
    → Leads P m Q R
    → Leads P n Q R
    → Leads P (if b then m else n) Q R
Leads-if true m n h k = h
Leads-if false m n h k = k

pub Leads-if_test :
    {S E A : Type 0} {P Q R : S → Type 0} (b : Bool) (m n : Program S E A)
    → (b ≡ true → Leads P m Q R)
    → (b ≡ false → Leads P n Q R)
    → Leads P (if b then m else n) Q R
Leads-if_test true m n h k = h refl
Leads-if_test false m n h k = k refl

-- A program that is not reached.
pub Leads-never :
    {S E A : Type 0} {P Q R : S → Type 0} (m : Program S E A) → ((s : S) → P s → ⊥) → Leads P m Q R
Leads-never m h = record { at = λ s p. elim (h s p) [ ] }

-- `try: m finally: cleanup`, where the cleanup keeps what holds after a value, and after an
-- exception.
module _ {S E A : Type 0} {Q R : S → Type 0} (cleanup : Bool → Program S E (Unit {0})) where
  Ends-cleanup :
      (r : Result E A) (s : S)
      → Ends Q R r s
      → Leads Q (cleanup false) Q R
      → Leads R (cleanup true) R R
      → let done = cleanup (is_raised r) s in Ends Q R (replaced r done.0) done.1
  Ends-cleanup (returned a) s h k l = after_value (cleanup false s).0 (k.at s h)
    where
      after_value :
          (u : Result E (Unit {0}))
          → Ends Q R u (cleanup false s).1
          → Ends Q R (replaced (returned a) u) (cleanup false s).1
      after_value (returned u) h = h
      after_value (raised e) h = h
  Ends-cleanup (raised e) s h k l = after_exception (cleanup true s).0 (l.at s h)
    where
      after_exception :
          (u : Result E (Unit {0}))
          → Ends R R u (cleanup true s).1
          → Ends Q R (replaced {A = A} (raised e) u) (cleanup true s).1
      after_exception (returned u) h = h
      after_exception (raised e) h = h

  pub Leads-cleanup :
      {P : S → Type 0} (m : Program S E A)
      → Leads P m Q R
      → Leads Q (cleanup false) Q R
      → Leads R (cleanup true) R R
      → Leads P (try_finally m cleanup) Q R
  unfolding try_finally
  Leads-cleanup m h k l = record { at = λ s p. Ends-cleanup (m s).0 (m s).1 (h.at s p) k l }
