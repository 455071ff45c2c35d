-- ===== src/Retention.antt =====
-- ops/laptop-backup/retention_plan.py: which objects of the laptop's archive vault may be proposed
-- for deletion. An inventory here is what `_int`, `_digest`, `_created_at` and the tests on types
-- have read from the JSON document; the digests of the plan are not modelled.
pub mod Plan
pub mod Eligible
pub mod Complete
pub mod Newest
mod Examples
use helios_horizon.Common.{
  ℕ, zero, suc, ◌+◌, ◌-◌, String, Bool, true, false, not, ◌&&◌, ◌||◌, Option, none, some, List, [],
  ◌∷◌, map, ◌==◌, leb, ltb, str_eq, if◌then◌else◌, all, ℤ, ltb_ℤ, eqb_ℤ,
}
use Prim.Native.Char.{code}

-- SCOPES
pub data Scope : Type 0 where
  remote_vault local_payload : Scope

-- KNOWN_LEDGER_STATES
pub data LedgerState : Type 0 where
  prepared quarantined purge_prepared purged failed ambiguous : LedgerState
  present rolled_back missing : LedgerState

-- BLOCKING_LEDGER_STATES
unfoldable pub is_blocking : LedgerState → Bool
is_blocking present = false
is_blocking rolled_back = false
is_blocking missing = false
is_blocking _ = true

abbrev pub same_state : LedgerState → LedgerState → Bool
same_state prepared prepared = true
same_state quarantined quarantined = true
same_state purge_prepared purge_prepared = true
same_state purged purged = true
same_state failed failed = true
same_state ambiguous ambiguous = true
same_state present present = true
same_state rolled_back rolled_back = true
same_state missing missing = true
same_state _ _ = false

-- An entry of the catalog, its time as a number of ticks.
pub record Row : Type 0 where
  pub backup_id : String
  pub profile_id : String
  pub size_bytes : ℕ
  pub digest : String
  pub created_at : ℤ

pub record Inventory : Type 0 where
  pub budget_bytes : ℕ
  pub reserve_bytes : ℕ
  pub used_bytes : ℕ
  pub available_bytes : ℕ
  pub keep_newest_per_profile : ℕ
  pub scope : Scope
  pub catalog : List Row
  pub protected_backup_ids : List String
  pub ledger : List (String × LedgerState)
  pub manifests : List (String × ℕ)

-- The texts of PlanRefused.
pub data Refusal : Type 0 where
  not_positive keep_too_small empty_catalog duplicate_backup_id conflicting_sizes : Refusal
  duplicate_protection unknown_protection unknown_ledger_row conflicting_ledger_rows : Refusal
  conflicting_manifest_sizes catalog_and_manifest_disagree : Refusal

unfoldable pub any_of {ℓ} : {A : Type ℓ} → (A → Bool) → List A → Bool
any_of p [] = false
any_of p (x ∷ xs) = p x || any_of p xs

unfoldable pub filter_by {ℓ} : {A : Type ℓ} → (A → Bool) → List A → List A
filter_by p [] = []
filter_by p (x ∷ xs) = let rest = filter_by p xs in if p x then x ∷ rest else rest

unfoldable pub first {ℓ} : {A : Type ℓ} → ℕ → List A → List A
first zero xs = []
first (suc n) [] = []
first (suc n) (x ∷ xs) = x ∷ first n xs

-- The stable sort of Python, for an order `before`.
unfoldable pub insert {ℓ} : {A : Type ℓ} → (A → A → Bool) → A → List A → List A
insert before x [] = x ∷ []
insert before x (y ∷ ys) =
    let rest = insert before x ys in if before y x then y ∷ rest else x ∷ y ∷ ys

unfoldable pub sort_by {ℓ} : {A : Type ℓ} → (A → A → Bool) → List A → List A
sort_by before [] = []
sort_by before (x ∷ xs) = insert before x (sort_by before xs)

-- `s < t`, by code points
unfoldable pub text_before : String → String → Bool
text_before String.[] String.[] = false
text_before String.[] (String.◌∷◌ d t) = true
text_before (String.◌∷◌ c s) String.[] = false
text_before (String.◌∷◌ c s) (String.◌∷◌ d t) =
    let rest = text_before s t in if code c == code d then rest else ltb (code c) (code d)

-- `(created_at_epoch, backup_id)`, in reverse
unfoldable pub is_newer : Row → Row → Bool
is_newer a b =
    ltb_ℤ b.created_at a.created_at
    || (eqb_ℤ b.created_at a.created_at && text_before b.backup_id a.backup_id)

abbrev pub contains : List String → String → Bool
contains ids id = any_of (str_eq id) ids

unfoldable pub has_row : List Row → String → Bool
has_row rows id = any_of (λ row. str_eq row.backup_id id) rows

-- The loop over the catalog; `seen` are the rows read so far.
unfoldable pub check_catalog : List Row → List Row → Option Refusal
check_catalog seen [] = none
check_catalog seen (row ∷ rows) =
    let rest = check_catalog (row ∷ seen) rows in
    if has_row seen row.backup_id
    then some duplicate_backup_id
    else if any_of (λ old. str_eq old.digest row.digest && not (old.size_bytes == row.size_bytes))
        seen
    then some conflicting_sizes
    else rest

unfoldable pub has_repeat : List String → Bool
has_repeat [] = false
has_repeat (id ∷ ids) = contains ids id || has_repeat ids

-- The loop over the ledger.
unfoldable pub check_ledger :
    List Row → List (String × LedgerState) → List (String × LedgerState) → Option Refusal
check_ledger catalog seen [] = none
check_ledger catalog seen ((id, state) ∷ rows) =
    let rest = check_ledger catalog ((id, state) ∷ seen) rows in
    if not (has_row catalog id)
    then some unknown_ledger_row
    else if any_of (λ old. str_eq old.0 id && not (same_state old.1 state)) seen
    then some conflicting_ledger_rows
    else rest

-- The loop over the manifests.
unfoldable pub check_manifests : List (String × ℕ) → List (String × ℕ) → Option Refusal
check_manifests seen [] = none
check_manifests seen ((digest, size) ∷ rows) =
    let rest = check_manifests ((digest, size) ∷ seen) rows in
    if any_of (λ old. str_eq old.0 digest && not (old.1 == size)) seen
    then some conflicting_manifest_sizes
    else rest

abbrev pub or_else : Option Refusal → Option Refusal → Option Refusal
or_else (some r) next = some r
or_else none next = next

abbrev pub refuse_if : Bool → Refusal → Option Refusal
refuse_if true r = some r
refuse_if false r = none

-- The refusals of `build_plan` in their order.
unfoldable pub refusal : Inventory → Option Refusal
refusal inv = or_else (refuse_if (inv.budget_bytes == 0 || inv.reserve_bytes == 0) not_positive) (
    or_else (refuse_if (ltb inv.keep_newest_per_profile 2) keep_too_small) (
      or_else (refuse_if (not (any_of (λ row. true) inv.catalog)) empty_catalog) (
        or_else (check_catalog [] inv.catalog) (
          or_else (refuse_if (has_repeat inv.protected_backup_ids) duplicate_protection) (
            or_else
              (refuse_if (any_of (λ id. not (has_row inv.catalog id)) inv.protected_backup_ids)
                unknown_protection)
              (or_else (check_ledger inv.catalog [] inv.ledger) (
                or_else (check_manifests [] inv.manifests) (
                  refuse_if
                    (any_of
                      (λ member.
                        any_of
                          (λ row. str_eq row.digest member.0 && not (row.size_bytes == member.1))
                          inv.catalog)
                      inv.manifests)
                    catalog_and_manifest_disagree))))))))
