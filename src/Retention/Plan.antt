-- ===== src/Retention/Plan.antt =====
-- ops/laptop-backup/retention_plan.py: the plan of an inventory that is not refused. The aliases
-- of a digest are a set in the source; here they come in the order of the catalog.
use helios_horizon.Common.{
  ℕ, ◌+◌, ◌-◌, String, Bool, true, false, not, ◌&&◌, Option, none, some, List, [], ◌∷◌, map, str_eq,
  if◌then◌else◌, all, length,
}
use helios_horizon.Retention.{
  Scope, remote_vault, local_payload, is_blocking, Row, Inventory, Refusal, any_of, filter_by,
  first, sort_by, text_before, is_newer, contains, has_row, refusal,
}

-- The values of `reason_by_backup`.
pub data Reason : Type 0 where
  within_keep_newest is_protected blocking_ledger_state : Reason
  remote_object_referenced_by_manifest no_remote_manifest_copy : Reason

-- `order[profile_id]`, newest first
unfoldable pub newest_first : List Row → String → List Row
newest_first catalog profile_id =
    sort_by is_newer (filter_by (λ row. str_eq row.profile_id profile_id) catalog)

-- Membership in `within_keep`, of a row of the catalog.
unfoldable pub is_within_keep : Inventory → Row → Bool
is_within_keep inv row =
    has_row (first inv.keep_newest_per_profile (newest_first inv.catalog row.profile_id))
      row.backup_id

-- Membership in `blocking`.
unfoldable pub has_blocking : Inventory → Row → Bool
has_blocking inv row =
    any_of (λ entry. str_eq entry.0 row.backup_id && is_blocking entry.1) inv.ledger

-- Membership in `referenced`.
unfoldable pub is_referenced : Inventory → String → Bool
is_referenced inv digest = any_of (λ member. str_eq member.0 digest) inv.manifests

abbrev pub scope_reason : Scope → Bool → Option Reason
scope_reason remote_vault true = some remote_object_referenced_by_manifest
scope_reason remote_vault false = none
scope_reason local_payload true = none
scope_reason local_payload false = some no_remote_manifest_copy

-- `reason_by_backup`
unfoldable pub reason_of : Inventory → Row → Option Reason
reason_of inv row =
    if is_within_keep inv row
    then some within_keep_newest
    else if contains inv.protected_backup_ids row.backup_id
    then some is_protected
    else if has_blocking inv row
    then some blocking_ledger_state
    else scope_reason inv.scope (is_referenced inv row.digest)

abbrev pub has_reason : Option Reason → Bool
has_reason none = false
has_reason (some reason) = true

-- `aliases[digest]`
unfoldable pub aliases : List Row → String → List Row
aliases catalog digest = filter_by (λ row. str_eq row.digest digest) catalog

-- The keys of `aliases`.
unfoldable pub digests : List Row → List String
digests [] = []
digests (row ∷ rows) =
    row.digest ∷ filter_by (λ digest. not (str_eq digest row.digest)) (digests rows)

-- `inherited`
unfoldable pub inherited : Inventory → List Row → Option Reason
inherited inv [] = none
inherited inv (row ∷ rows) =
    let rest = inherited inv rows in
    elim (reason_of inv row) [ none ↦ rest | some reason ↦ some reason ]

-- `excluded`, of a row of the catalog
unfoldable pub excluded : Inventory → Row → Option Reason
excluded inv row = elim (reason_of inv row) [
  | none ↦ inherited inv (aliases inv.catalog row.digest)
  | some reason ↦ some reason
]

unfoldable pub is_eligible : Inventory → String → Bool
is_eligible inv digest =
    all (λ row. not (has_reason (reason_of inv row))) (aliases inv.catalog digest)

pub record Candidate : Type 0 where
  pub digest : String
  pub size_bytes : ℕ
  pub backup_ids : List String

-- `digest_sizes[digest]`
unfoldable pub size_of : List Row → ℕ
size_of [] = 0
size_of (row ∷ rows) = row.size_bytes

unfoldable pub candidate : Inventory → String → Candidate
candidate inv digest = record {
  digest = digest;
  size_bytes = size_of (aliases inv.catalog digest);
  backup_ids = sort_by text_before (map (λ row. row.backup_id) (aliases inv.catalog digest));
}

unfoldable pub candidates : Inventory → List Candidate
candidates inv =
    sort_by (λ a b. text_before a.digest b.digest)
      (map (candidate inv) (filter_by (is_eligible inv) (digests inv.catalog)))

unfoldable pub sum_of : List Candidate → ℕ
sum_of [] = 0
sum_of (c ∷ cs) = c.size_bytes + sum_of cs

-- The plan, less its digests, gates and copies of the policy.
pub record Plan : Type 0 where
  pub scope : Scope
  pub candidate_count : ℕ
  pub candidate_bytes : ℕ
  pub candidates : List Candidate
  pub over_budget : ℕ
  pub under_reserve : ℕ

pub data Planned : Type 0 where
  refused : Refusal → Planned
  planned : Plan → Planned

-- `build_plan`. A difference of numbers stops at 0, which is `max(0, ...)`.
unfoldable pub build_plan : Inventory → Planned
build_plan inv = elim (refusal inv) [
  | some r ↦ refused r
  | none ↦ planned (record {
    scope = inv.scope;
    candidate_count = length (candidates inv);
    candidate_bytes = sum_of (candidates inv);
    candidates = candidates inv;
    over_budget = inv.used_bytes - inv.budget_bytes;
    under_reserve = inv.reserve_bytes - inv.available_bytes;
  })
]
