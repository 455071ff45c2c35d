-- ===== src/Program/Loops.antt =====
-- What a loop keeps, and what one of its rounds achieves and the later ones keep.
use helios_horizon.Common.{List, [], ◌∷◌, All, ◌⊎◌, inl, inr}
use helios_horizon.Program.{Program, for_each, pure}
use helios_horizon.Program.Rules.{Leads, Keeps, Leads-then}
use helios_horizon.Program.Keeping.{Keeps-pure}

-- A predicate of some element.
abbrev pub Any : {A : Type 0} → (A → Type 0) → List A → Type 0
Any P [] = ⊥
Any P (x ∷ xs) = P x ⊎ Any P xs

pub All-map :
    {A : Type 0} {P Q : A → Type 0} (xs : List A) → ((x : A) → P x → Q x) → All P xs → All Q xs
All-map [] f h = tt
All-map (x ∷ xs) f h = (f x h.0, All-map xs f h.1)

module _ {S E A : Type 0} {P R : S → Type 0} (body : A → Program S E (Unit {0})) where
  pub Leads-for_each :
      (xs : List A)
      → ((s : S) → P s → R s)
      → All (λ x. Leads P (body x) P R) xs
      → Leads P (for_each body xs) P R
  unfolding for_each pure
  Leads-for_each [] w h = record { at = λ s p. p }
  Leads-for_each (x ∷ xs) w h = Leads-then (body x) _ h.0 (Leads-for_each xs w h.1)

-- From `P` every round leads to `P` again, from `Q` to `Q`, and some round from `P` to `Q`.
module _ {S E A : Type 0} {P Q R : S → Type 0} (body : A → Program S E (Unit {0})) where
  pub Leads-for_some :
      (xs : List A)
      → ((s : S) → Q s → R s)
      → All (λ x. Leads P (body x) P R × Leads Q (body x) Q R) xs
      → Any (λ x. Leads P (body x) Q R) xs
      → Leads P (for_each body xs) Q R
  unfolding for_each
  Leads-for_some [] w h k = elim k [ ]
  Leads-for_some (x ∷ xs) w h k = elim k [
    | inl l ↦ Leads-then (body x) _ l (Leads-for_each body xs w (All-map xs (λ y hy. hy.1) h.1))
    | inr l ↦ Leads-then (body x) _ h.0.0 (Leads-for_some xs w h.1 l)
  ]

pub Keeps-for_each :
    {S E A : Type 0} {P : S → Type 0} (body : A → Program S E (Unit {0})) (xs : List A)
    → ((x : A) → Keeps P (body x))
    → Keeps P (for_each body xs)
unfolding for_each
Keeps-for_each body [] h = Keeps-pure tt
Keeps-for_each body (x ∷ xs) h = Leads-then (body x) _ (h x) (Keeps-for_each body xs h)
