-- ===== src/Readiness/Store.antt =====
-- The cells of the coordinator of src/game_control/health.py: what a write of one changes.
use helios_horizon.Common.{
  ℕ, ◌+◌, ◌≡◌, refl, Bool, true, false, ◌||◌, Option, none, some, List, [], ◌∷◌, ◌==◌,
  if◌then◌else◌, arith,
}
use helios_horizon.Controller.Lifecycle.Script.{Outcome, success, failed, timeout}
use helios_horizon.Readiness.{Cell, outcome_of, resolve, deactivate}

abbrev pub is_outcome : Outcome → Option Outcome → Bool
is_outcome success (some success) = true
is_outcome failed (some failed) = true
is_outcome timeout (some timeout) = true
is_outcome o result = false

-- The starts with an outcome
unfoldable pub count_of : Outcome → List Cell → ℕ
count_of o [] = 0
count_of o (c ∷ cells) =
    let rest = count_of o cells in if is_outcome o c.outcome then rest + 1 else rest

unfoldable pub has_cell : ℕ → List Cell → Bool
has_cell g [] = false
has_cell g (c ∷ cells) = c.generation == g || has_cell g cells

-- The store of cells
module _ (g : ℕ) where
  pub has_cell-resolve :
      (h : ℕ) (o : Outcome) (cells : List Cell) → has_cell h (resolve g o cells) ≡ has_cell h cells
  unfolding has_cell resolve
  has_cell-resolve h o [] = refl
  has_cell-resolve h o (c ∷ cells) = ground (arith, has_cell-resolve h o cells)

  pub has_cell-deactivate :
      (h : ℕ) (cells : List Cell) → has_cell h (deactivate g cells) ≡ has_cell h cells
  unfolding has_cell deactivate
  has_cell-deactivate h [] = refl
  has_cell-deactivate h (c ∷ cells) = ground (arith, has_cell-deactivate h cells)

  pub count-deactivate :
      (o : Outcome) (cells : List Cell) → count_of o (deactivate g cells) ≡ count_of o cells
  unfolding count_of deactivate
  count-deactivate o [] = refl
  count-deactivate o (c ∷ cells) = ground (arith, count-deactivate o cells)

  pub outcome-deactivate :
      (h : ℕ) (cells : List Cell) → outcome_of h (deactivate g cells) ≡ outcome_of h cells
  unfolding outcome_of deactivate
  outcome-deactivate h [] = refl
  outcome-deactivate h (c ∷ cells) = ground (arith, outcome-deactivate h cells)

  -- A cell that gets its outcome is counted once more, under it only.
  pub count-resolve :
      (o o' : Outcome) (cells : List Cell)
      → outcome_of g cells ≡ none
      → has_cell g cells ≡ true
      → count_of o' (resolve g o cells)
        ≡ (if is_outcome o' (some o) then count_of o' cells + 1 else count_of o' cells)
  unfolding count_of resolve outcome_of has_cell
  count-resolve o o' [] unset there = ground arith
  count-resolve o o' (c ∷ cells) unset there = ground (arith, count-resolve o o' cells)

  -- An outcome that is there stays.
  pub outcome-resolve :
      (h : ℕ) (o o' : Outcome) (cells : List Cell)
      → outcome_of g cells ≡ none
      → outcome_of h cells ≡ some o'
      → outcome_of h (resolve g o cells) ≡ some o'
  unfolding outcome_of resolve
  outcome-resolve h o o' [] unset set = set
  outcome-resolve h o o' (c ∷ cells) unset set = ground (arith, outcome-resolve h o o' cells)

  pub outcome-resolve_self :
      (o : Outcome) (cells : List Cell)
      → has_cell g cells ≡ true
      → outcome_of g (resolve g o cells) ≡ some o
  unfolding outcome_of resolve has_cell
  outcome-resolve_self o [] there = ground arith
  outcome-resolve_self o (c ∷ cells) there = ground (arith, outcome-resolve_self o cells)

  pub outcome-has_cell :
      (o : Outcome) (cells : List Cell) → outcome_of g cells ≡ some o → has_cell g cells ≡ true
  unfolding outcome_of has_cell
  outcome-has_cell o [] set = ground arith
  outcome-has_cell o (c ∷ cells) set = ground (arith, outcome-has_cell o cells)
