-- ===== src/Schedule/Search.antt =====
-- A search that returns the first hit of a range: what a hit and what no hit says.
use helios_horizon.Common.{
  ℕ, zero, suc, ◌+◌, ◌≤◌, ◌<◌, ◌≡◌, refl, ◌∙◌, Option, none, some, arith, Bool-cases, ◌==◌, ==_iff,
  ap, inl, inr,
}
use helios_horizon.Schedule.{found_or, first_some}

-- What is returned comes from an index of the range before which there is no hit.
pub record IsFirst (f : ℕ → Option ℕ) (start n r : ℕ) : Type 0 where
  pub index : ℕ
  pub lower : start ≤ index
  pub upper : index < start + n
  pub hit : f index ≡ some r
  pub before : (j : ℕ) → start ≤ j → j < index → f j ≡ none

found_or-none : (o rest : Option ℕ) → found_or o rest ≡ none → (o ≡ none) × (rest ≡ none)
found_or-none none rest h = (refl, h)
found_or-none (some r) rest h = cc

module _ (f : ℕ → Option ℕ) where
  pub first_some-none :
      (n start : ℕ) → first_some f start n ≡ none → (j : ℕ) → start ≤ j → j < start + n → f j ≡ none
  unfolding first_some
  first_some-none zero start h j low high = ground arith
  first_some-none (suc n) start h j low high =
      let (here, rest) = found_or-none (f start) (first_some f (start + 1) n) h in
      elim (Bool-cases (j == start)) [
        | inl same ↦ ap f ((==_iff j start).0 same) ∙ here
        | inr other ↦ first_some-none n (start + 1) rest j (ground arith) (omega arith)
      ]

  later : (n start r : ℕ) → f start ≡ none → IsFirst f (start + 1) n r → IsFirst f start (suc n) r
  later n start r here first = record {
    index = first.index;
    lower = omega (arith, first.lower);
    upper = omega (arith, first.upper);
    hit = first.hit;
    before = λ j low high. elim (Bool-cases (j == start)) [
      | inl same ↦ ap f ((==_iff j start).0 same) ∙ here
      | inr other ↦ first.before j (ground arith) high
    ];
  }

  first_or_later :
      (n start r : ℕ) (o : Option ℕ)
      → f start ≡ o
      → found_or o (first_some f (start + 1) n) ≡ some r
      → (first_some f (start + 1) n ≡ some r → IsFirst f (start + 1) n r)
      → IsFirst f start (suc n) r
  first_or_later n start r none here h rest = later n start r here (rest h)
  first_or_later n start r (some x) here h rest = record {
    index = start;
    lower = omega arith;
    upper = omega arith;
    hit = here ∙ h;
    before = λ j low high. ground arith;
  }

  pub first_some-IsFirst : (n start r : ℕ) → first_some f start n ≡ some r → IsFirst f start n r
  unfolding first_some
  first_some-IsFirst zero start r h = cc
  first_some-IsFirst (suc n) start r h =
      first_or_later n start r (f start) refl h (first_some-IsFirst n (start + 1) r)
