-- ===== src/Retention/Newest.antt =====
-- No candidate touches the newest backups of a profile (ops/laptop-backup/retention_plan.py).
use helios_horizon.Common.{
  ℕ, zero, suc, ◌≤◌, String, ◌≡◌, refl, ap, inl, inr, Bool, true, false, not, ◌&&◌, Bool-cases,
  List, [], ◌∷◌, arith, str_eq, eq_refl, if◌then◌else◌,
}
use helios_horizon.Retention.{
  Row, Inventory, any_of, filter_by, first, insert, sort_by, text_before, is_newer, has_row,
  refusal,
}
use helios_horizon.Retention.Plan.{
  newest_first, is_within_keep, Candidate, Plan, planned, build_plan,
}
use helios_horizon.Retention.Eligible.{
  In, In-insert, In-sort_by, In-filter_by, candidates-IsDisposable,
}

-- The order of texts is a strict order of all texts, and so is that of backups.
text_before-negative :
    (s t u : String) → text_before s t ≡ false → text_before t u ≡ false → text_before s u ≡ false
unfolding text_before
text_before-negative String.[] String.[] u h k = k
text_before-negative String.[] (String.◌∷◌ d t) u h k = absurd (ground arith)
text_before-negative (String.◌∷◌ c s) t String.[] h k = refl
text_before-negative (String.◌∷◌ c s) String.[] (String.◌∷◌ e u) h k = absurd (ground arith)
text_before-negative (String.◌∷◌ c s) (String.◌∷◌ d t) (String.◌∷◌ e u) h k =
    ground (arith, text_before-negative s t u)

text_before-asymmetric : (s t : String) → text_before s t ≡ true → text_before t s ≡ false
unfolding text_before
text_before-asymmetric String.[] String.[] h = refl
text_before-asymmetric String.[] (String.◌∷◌ d t) h = refl
text_before-asymmetric (String.◌∷◌ c s) String.[] h = absurd (ground arith)
text_before-asymmetric (String.◌∷◌ c s) (String.◌∷◌ d t) h =
    ground (arith, text_before-asymmetric s t)

is_newer-negative :
    (a b c : Row) → is_newer a b ≡ false → is_newer b c ≡ false → is_newer a c ≡ false
unfolding is_newer
is_newer-negative a b c h k =
    ground (arith, text_before-negative c.backup_id b.backup_id a.backup_id)

is_newer-asymmetric : (a b : Row) → is_newer a b ≡ true → is_newer b a ≡ false
unfolding is_newer
is_newer-asymmetric a b h = ground (arith, text_before-asymmetric b.backup_id a.backup_id)

-- Nothing later is before something earlier.
data IsSorted {A : Type 0} (before : A → A → Bool) : List A → Type 0 where
  sorted_nil : IsSorted before []
  sorted_cons :
      (x : A) (xs : List A)
      → ((y : A) → In y xs → before y x ≡ false)
      → IsSorted before xs
      → IsSorted before (x ∷ xs)

module _ {A : Type 0} (before : A → A → Bool)
    (asymmetric : (x y : A) → before x y ≡ true → before y x ≡ false)
    (negative : (x y z : A) → before x y ≡ false → before y z ≡ false → before x z ≡ false) where
  insert-IsSorted :
      (x : A) (ys : List A) → IsSorted before ys → IsSorted before (insert before x ys)
  unfolding insert
  insert-IsSorted x [] h = sorted_cons x [] (λ y i. absurd i) sorted_nil
  insert-IsSorted x _ (sorted_cons y ys least rest) = elim (Bool-cases (before y x)) [
    | inl later ↦ rw later (
        sorted_cons y (insert before x ys)
          (λ z i. elim ((In-insert before z x ys).0 i) [
            | inl same ↦ rw same (asymmetric y x later)
            | inr there ↦ least z there
          ])
          (insert-IsSorted x ys rest))
    | inr here ↦ rw here (
        sorted_cons x (y ∷ ys)
          (λ z i. elim i [
            | inl same ↦ rw same here
            | inr there ↦ negative z y x (least z there) here
          ])
          (sorted_cons y ys least rest))
  ]

  sort_by-IsSorted : (xs : List A) → IsSorted before (sort_by before xs)
  unfolding sort_by
  sort_by-IsSorted [] = sorted_nil
  sort_by-IsSorted (x ∷ xs) = insert-IsSorted x (sort_by before xs) (sort_by-IsSorted xs)

-- How many elements pass.
unfoldable pub count : {A : Type 0} → (A → Bool) → List A → ℕ
count p [] = 0
count p (x ∷ xs) = let rest = count p xs in if p x then suc rest else rest

count-insert :
    {A : Type 0} (before : A → A → Bool) (p : A → Bool) (x : A) (ys : List A)
    → count p (insert before x ys) ≡ count p (x ∷ ys)
unfolding count insert
count-insert before p x [] = refl
count-insert before p x (y ∷ ys) = ground (arith, count-insert before p x ys)

count-sort_by :
    {A : Type 0} (before : A → A → Bool) (p : A → Bool) (xs : List A)
    → count p (sort_by before xs) ≡ count p xs
unfolding count sort_by
count-sort_by before p [] = refl
count-sort_by before p (x ∷ xs) =
    ground (arith, count-insert before p x (sort_by before xs), count-sort_by before p xs)

count-filter_by :
    {A : Type 0} (p q : A → Bool) (xs : List A)
    → count p (filter_by q xs) ≡ count (λ x. q x && p x) xs
unfolding count filter_by
count-filter_by p q [] = refl
count-filter_by p q (x ∷ xs) = ground (arith, count-filter_by p q xs)

-- Of an element that is not among the first k, k elements of the sorted list are none that it is
-- newer than.
count-first :
    (k : ℕ) (b : Row) (xs : List Row)
    → IsSorted is_newer xs
    → In b xs
    → has_row (first k xs) b.backup_id ≡ false
    → k ≤ count (λ a. not (is_newer b a) && not (str_eq a.backup_id b.backup_id)) xs
unfolding count first has_row any_of
count-first zero b xs sorted i outside = omega arith
count-first (suc k) b _ sorted_nil i outside = absurd i
count-first (suc k) b _ (sorted_cons x xs least rest) (inl same) outside =
    absurd (ground (arith, eq_refl b.backup_id, ap (λ r. r.backup_id) same))
count-first (suc k) b _ (sorted_cons x xs least rest) (inr there) outside =
    ground (arith, least b there, count-first k b xs rest there)

-- How many other backups of the same profile are there that are at least as new.
unfoldable pub newer_count : Inventory → Row → ℕ
newer_count inv row =
    count
      (λ a.
        str_eq a.profile_id row.profile_id
        && (not (is_newer row a) && not (str_eq a.backup_id row.backup_id)))
      inv.catalog

within_keep-count :
    (inv : Inventory) (row : Row)
    → In row inv.catalog
    → is_within_keep inv row ≡ false
    → inv.keep_newest_per_profile ≤ newer_count inv row
unfolding is_within_keep newest_first newer_count
within_keep-count inv row listed outside =
    let same : Row → Bool = λ r. str_eq r.profile_id row.profile_id in
    let rows = filter_by same inv.catalog in
    let newer : Row → Bool = λ a. not (is_newer row a) && not (str_eq a.backup_id row.backup_id) in
    let here = (In-filter_by same row inv.catalog).1 (listed, eq_refl row.profile_id) in
    ground (
      arith,
      count-first inv.keep_newest_per_profile row (sort_by is_newer rows)
          (sort_by-IsSorted is_newer is_newer-asymmetric is_newer-negative rows)
          ((In-sort_by is_newer row rows).1 here) outside,
      count-sort_by is_newer newer rows,
      count-filter_by newer same inv.catalog,
    )

build_plan-keep :
    (inv : Inventory) (plan : Plan)
    → build_plan inv ≡ planned plan
    → 2 ≤ inv.keep_newest_per_profile
unfolding build_plan refusal
build_plan-keep inv plan h = ground arith

-- Each backup of a proposed object has as many other backups of its profile that are no older
-- as the policy keeps, and at least two.
pub candidates-newer :
    (inv : Inventory) (plan : Plan) (c : Candidate) (row : Row)
    → build_plan inv ≡ planned plan
    → In c plan.candidates
    → In row inv.catalog
    → row.digest ≡ c.digest
    → (inv.keep_newest_per_profile ≤ newer_count inv row) × (2 ≤ newer_count inv row)
candidates-newer inv plan c row h proposed listed same =
    let good = candidates-IsDisposable inv plan c row h proposed listed same in
    ground (arith, within_keep-count inv row listed good.not_newest, build_plan-keep inv plan h)
