-- ===== src/Retention/Eligible.antt =====
-- What may be proposed for deletion, and what never is (ops/laptop-backup/retention_plan.py).
use helios_horizon.Common.{
  String, ◌≡◌, refl, sym, ◌∙◌, ap, ◌⊎◌, inl, inr, Bool, true, false, not, Bool-cases, Option-cases,
  List, [], ◌∷◌, map, arith, str_eq, eq_iff, all, ◌↔◌,
}
use helios_horizon.Retention.{
  remote_vault, local_payload, Row, Inventory, filter_by, insert, sort_by, text_before, contains,
  refusal,
}
use helios_horizon.Retention.Plan.{
  is_within_keep, has_blocking, is_referenced, reason_of, has_reason, aliases, digests, is_eligible,
  Candidate, candidate, candidates, Plan, planned, build_plan,
}

-- An element of a list.
abbrev pub In : {A : Type 0} → A → List A → Type 0
In x [] = ⊥
In x (y ∷ ys) = (x ≡ y) ⊎ In x ys

module _ {A : Type 0} (before : A → A → Bool) where
  pub In-insert : (x y : A) (ys : List A) → In x (insert before y ys) ↔ ((x ≡ y) ⊎ In x ys)
  unfolding insert
  In-insert x y [] = ground arith
  In-insert x y (z ∷ ys) = elim (Bool-cases (before z y)) [
    | inl later ↦ ground (arith, In-insert x y ys)
    | inr here ↦ ground arith
  ]

  pub In-sort_by : (x : A) (ys : List A) → In x (sort_by before ys) ↔ In x ys
  unfolding sort_by
  In-sort_by x [] = ground arith
  In-sort_by x (y ∷ ys) = ground (arith, In-insert x y (sort_by before ys), In-sort_by x ys)

pub In-filter_by :
    {A : Type 0} (p : A → Bool) (x : A) (ys : List A)
    → In x (filter_by p ys) ↔ (In x ys × (p x ≡ true))
unfolding filter_by
In-filter_by p x [] = ground arith
In-filter_by p x (y ∷ ys) = elim (Bool-cases (p y)) [
  | inl passes ↦ ground (arith, In-filter_by p x ys)
  | inr fails ↦ ground (arith, In-filter_by p x ys)
]

In-map :
    {A B : Type 0} (f : A → B) (y : B) (xs : List A)
    → In y (map f xs)
    → (x : A) × In x xs × (y ≡ f x)
In-map f y [] h = absurd h
In-map f y (x ∷ xs) (inl same) = (x, inl refl, same)
In-map f y (x ∷ xs) (inr later) = let (z, there, same) = In-map f y xs later in (z, inr there, same)

pub map-In : {A B : Type 0} (f : A → B) (x : A) (xs : List A) → In x xs → In (f x) (map f xs)
map-In f x [] h = absurd h
map-In f x (y ∷ ys) (inl same) = inl (ap f same)
map-In f x (y ∷ ys) (inr later) = inr (map-In f x ys later)

pub all-In :
    {A : Type 0} (p : A → Bool) (x : A) (xs : List A) → all p xs ≡ true → In x xs → p x ≡ true
all-In p x [] h i = absurd i
all-In p x (y ∷ ys) h (inl same) = ground arith
all-In p x (y ∷ ys) h (inr later) = ground (arith, all-In p x ys)

-- The backup is not wanted: it is none of the newest, unprotected, not blocked by the ledger, and
-- the scope allows it.
pub record IsDisposable (inv : Inventory) (row : Row) : Type 0 where
  pub not_newest : is_within_keep inv row ≡ false
  pub unprotected : contains inv.protected_backup_ids row.backup_id ≡ false
  pub unblocked : has_blocking inv row ≡ false
  pub unreferenced : inv.scope ≡ remote_vault → is_referenced inv row.digest ≡ false
  pub copied : inv.scope ≡ local_payload → is_referenced inv row.digest ≡ true

reason_of-none :
    (inv : Inventory) (row : Row) → has_reason (reason_of inv row) ≡ false → IsDisposable inv row
unfolding reason_of
reason_of-none inv row h = record {
  not_newest = ground arith;
  unprotected = ground arith;
  unblocked = ground arith;
  unreferenced = λ e. ground arith;
  copied = λ e. ground arith;
}

pub build_plan-candidates :
    (inv : Inventory) (plan : Plan)
    → build_plan inv ≡ planned plan
    → plan.candidates ≡ candidates inv
unfolding build_plan
build_plan-candidates inv plan h = elim (Option-cases (refusal inv)) [
  | inl allowed ↦ ground arith
  | inr (r, refuses) ↦ absurd (ground arith)
]

-- A candidate is of a digest of the catalog that is eligible.
pub candidates-eligible :
    (inv : Inventory) (c : Candidate)
    → In c (candidates inv)
    → (digest : String) × (In digest (digests inv.catalog))
      × (is_eligible inv digest ≡ true)
      × (c ≡ candidate inv digest)
unfolding candidates
candidates-eligible inv c h =
    let eligible = filter_by (is_eligible inv) (digests inv.catalog) in
    let listed =
      (In-sort_by (λ a b. text_before a.digest b.digest) c (map (candidate inv) eligible)).0 h in
    let (digest, there, same) = In-map (candidate inv) c eligible listed in
    let (known, good) = (In-filter_by (is_eligible inv) digest (digests inv.catalog)).0 there in
    (digest, known, good, same)

pub eligible-none :
    (inv : Inventory) (digest : String) (row : Row)
    → is_eligible inv digest ≡ true
    → In row inv.catalog
    → row.digest ≡ digest
    → has_reason (reason_of inv row) ≡ false
unfolding is_eligible aliases
eligible-none inv digest row good listed same =
    let alias =
      (In-filter_by (λ r. str_eq r.digest digest) row inv.catalog).1
        (listed, ground (arith, eq_iff row.digest digest)) in
    let free =
      all-In (λ r. not (has_reason (reason_of inv r))) row
        (filter_by (λ r. str_eq r.digest digest) inv.catalog) good alias in
    ground (arith, free)

-- Every backup that shares the object of a proposed candidate can be disposed of: none is among the
-- newest of its profile, protected, blocked by the ledger, referenced by a manifest in the scope of
-- the remote vault, or without a copy there in that of local payloads.
pub candidates-IsDisposable :
    (inv : Inventory) (plan : Plan) (c : Candidate) (row : Row)
    → build_plan inv ≡ planned plan
    → In c plan.candidates
    → In row inv.catalog
    → row.digest ≡ c.digest
    → IsDisposable inv row
unfolding candidate
candidates-IsDisposable inv plan c row h proposed listed same =
    let (digest, known, good, is) =
      candidates-eligible inv c (rw (sym (build_plan-candidates inv plan h)) proposed) in
    reason_of-none inv row (eligible-none inv digest row good listed (same ∙ ap (λ x. x.digest) is))
