-- ===== src/Retention/Complete.antt =====
-- Each backup is either excluded with a reason or listed by a candidate
-- (ops/laptop-backup/retention_plan.py).
use helios_horizon.Common.{
  String, ◌≡◌, refl, sym, ◌∙◌, ap, inl, inr, true, not, Bool-cases, Option-cases, none, List, [],
  ◌∷◌, map, arith, str_eq, eq_iff, eq_refl, all, ◌↔◌,
}
use helios_horizon.Retention.{Row, Inventory, filter_by, text_before}
use helios_horizon.Retention.Plan.{
  reason_of, has_reason, aliases, digests, inherited, excluded, is_eligible, Candidate, candidate,
  candidates, Plan, planned, build_plan,
}
use helios_horizon.Retention.Eligible.{
  In, In-sort_by, In-filter_by, map-In, build_plan-candidates, candidates-eligible, eligible-none,
}

inherited-none :
    (inv : Inventory) (rows : List Row)
    → (inherited inv rows ≡ none) ↔ (all (λ row. not (has_reason (reason_of inv row))) rows ≡ true)
unfolding inherited
inherited-none inv [] = ground arith
inherited-none inv (row ∷ rows) = elim (Option-cases (reason_of inv row)) [
  | inl free ↦ ground (arith, inherited-none inv rows)
  | inr (reason, held) ↦ ground arith
]

In-digests : (row : Row) (rows : List Row) → In row rows → In row.digest (digests rows)
unfolding digests
In-digests row [] h = absurd h
In-digests row (other ∷ rows) (inl same) = inl (ap (λ r. r.digest) same)
In-digests row (other ∷ rows) (inr later) = elim (Bool-cases (str_eq row.digest other.digest)) [
  | inl same ↦ inl ((eq_iff row.digest other.digest).0 same)
  | inr differs ↦ inr (
      (In-filter_by (λ d. not (str_eq d other.digest)) row.digest (digests rows)).1
        (In-digests row rows later, ground arith))
]

-- A row with no reason and none to inherit has an eligible object.
excluded-eligible :
    (inv : Inventory) (row : Row)
    → In row inv.catalog
    → (excluded inv row ≡ none) ↔ (is_eligible inv row.digest ≡ true)
unfolding excluded is_eligible
excluded-eligible inv row listed = elim (Option-cases (reason_of inv row)) [
  | inl free ↦ ground (arith, inherited-none inv (aliases inv.catalog row.digest))
  | inr (reason, held) ↦ (
    (λ free. absurd (ground arith)),
    λ good. absurd (ground (arith, eligible-none inv row.digest row good listed refl)),
  )
]

-- The rows of a candidate's object are what it lists.
candidate-lists :
    (inv : Inventory) (row : Row)
    → In row inv.catalog
    → In row.backup_id (candidate inv row.digest).backup_ids
unfolding candidate aliases
candidate-lists inv row listed =
    let rows = aliases inv.catalog row.digest in
    let alias =
      (In-filter_by (λ r. str_eq r.digest row.digest) row inv.catalog).1
        (listed, eq_refl row.digest) in
    (In-sort_by text_before row.backup_id (map (λ r. r.backup_id) rows)).1
      (map-In (λ r. r.backup_id) row rows alias)

eligible-In :
    (inv : Inventory) (digest : String)
    → In digest (digests inv.catalog)
    → is_eligible inv digest ≡ true
    → In (candidate inv digest) (candidates inv)
unfolding candidates
eligible-In inv digest known good =
    let eligible = filter_by (is_eligible inv) (digests inv.catalog) in
    let there = (In-filter_by (is_eligible inv) digest (digests inv.catalog)).1 (known, good) in
    (In-sort_by (λ a b. text_before a.digest b.digest) (candidate inv digest)
        (map (candidate inv) eligible)).1
      (map-In (candidate inv) digest eligible there)

-- A backup of the catalog is excluded by no reason exactly if some candidate is of its object; and
-- that candidate lists it.
pub excluded-candidates :
    (inv : Inventory) (plan : Plan) (row : Row)
    → build_plan inv ≡ planned plan
    → In row inv.catalog
    → (excluded inv row ≡ none) ↔ (
        (c : Candidate) × In c plan.candidates
        × (c.digest ≡ row.digest)
        × In row.backup_id c.backup_ids)
unfolding candidate
excluded-candidates inv plan row h listed = rw (build_plan-candidates inv plan h) (
  (λ free. (
    candidate inv row.digest,
    eligible-In inv row.digest (In-digests row inv.catalog listed)
        ((excluded-eligible inv row listed).0 free),
    refl,
    candidate-lists inv row listed,
  )),
  λ (c, proposed, same, lists).
      let (digest, known, good, is) = candidates-eligible inv c proposed in
      (excluded-eligible inv row listed).1 (rw (sym same ∙ ap (λ x. x.digest) is) good),
)
