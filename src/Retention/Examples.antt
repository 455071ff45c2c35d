-- ===== src/Retention/Examples.antt =====
-- A vault with three backups of one profile, of which the oldest may be proposed.
use helios_horizon.Common.{◌≤◌, ◌≡◌, refl, inl, inr, none, [], ◌∷◌, pos, ◌↔◌}
use helios_horizon.Retention.{
  Row, Inventory, local_payload, present, is_blocking, any_of, filter_by, first, insert, sort_by,
  text_before, is_newer, has_row, check_catalog, has_repeat, check_ledger, check_manifests, refusal,
}
use helios_horizon.Retention.Plan.{
  newest_first, is_within_keep, has_blocking, is_referenced, reason_of, aliases, digests, excluded,
  is_eligible, size_of, Candidate, candidate, candidates, sum_of, Plan, planned, build_plan,
}
use helios_horizon.Retention.Eligible.{In, IsDisposable, candidates-IsDisposable}
use helios_horizon.Retention.Complete.{excluded-candidates}
use helios_horizon.Retention.Newest.{newer_count, candidates-newer}

abbrev oldest : Row
oldest = record {
  backup_id = "b1";
  profile_id = "minecraft";
  size_bytes = 10;
  digest = "d1";
  created_at = pos 100;
}

abbrev middle : Row
middle = record {
  backup_id = "b2";
  profile_id = "minecraft";
  size_bytes = 20;
  digest = "d2";
  created_at = pos 200;
}

abbrev newest : Row
newest = record {
  backup_id = "b3";
  profile_id = "minecraft";
  size_bytes = 30;
  digest = "d3";
  created_at = pos 300;
}

abbrev vault : Inventory
vault = record {
  budget_bytes = 50;
  reserve_bytes = 5;
  used_bytes = 60;
  available_bytes = 7;
  keep_newest_per_profile = 2;
  scope = local_payload;
  catalog = oldest ∷ newest ∷ middle ∷ [];
  protected_backup_ids = "b2" ∷ [];
  ledger = ("b1", present) ∷ [];
  manifests = ("d1", 10) ∷ [];
}

abbrev proposed : Candidate
proposed = record { digest = "d1"; size_bytes = 10; backup_ids = "b1" ∷ [] }

abbrev proposal : Plan
proposal = record {
  scope = local_payload;
  candidate_count = 1;
  candidate_bytes = 10;
  candidates = proposed ∷ [];
  over_budget = 10;
  under_reserve = 0;
}

vault_plan : build_plan vault ≡ planned proposal
unfolding build_plan refusal any_of check_catalog has_row has_repeat check_ledger check_manifests
    candidates sum_of sort_by filter_by digests is_eligible aliases reason_of is_within_keep first
    newest_first candidate has_blocking is_referenced size_of insert is_blocking is_newer
    text_before
vault_plan = refl

candidates-IsDisposable_example : IsDisposable vault oldest
candidates-IsDisposable_example =
    candidates-IsDisposable vault proposal proposed oldest vault_plan (inl refl) (inl refl) refl

excluded-candidates_example : (excluded vault newest ≡ none) ↔ (
    (c : Candidate) × In c proposal.candidates
    × (c.digest ≡ newest.digest)
    × In newest.backup_id c.backup_ids)
excluded-candidates_example = excluded-candidates vault proposal newest vault_plan (inr (inl refl))

candidates-newer_example : (2 ≤ newer_count vault oldest) × (2 ≤ newer_count vault oldest)
candidates-newer_example =
    candidates-newer vault proposal proposed oldest vault_plan (inl refl) (inl refl) refl
