-- ===== src/Retirement/Loading.antt =====
-- The checks of `parse_manifest` of src/game_control/retirement.py on the decoded entries and
-- receipt, past the shapes and the formats of their fields.
use helios_horizon.Common.{
  String, ◌≡◌, refl, sym, ap, Bool, true, false, not, ◌&&◌, ◌||◌, Option, none, some, List, [], ◌∷◌,
  ◌⊎◌, inl, inr, arith, str_eq, eq_iff, eq_refl, Bool-cases, All, all, length, leb, if◌then◌else◌,
}
use mathlib.Core.Path.{subst}
use helios_horizon.Program.Loops.{Any, All-map}
use helios_horizon.Retirement.Payloads.{ManifestEntry}
use helios_horizon.Retirement.World.{RemoteMember, RemoteReceipt, Manifest}
use helios_horizon.Retirement.Assertions.{is_receipt, is_some, copies, find_entry, find_member}
use helios_horizon.Retirement.Rows.{and_iff}
use helios_horizon.Retirement.Entries.{IsEntry}

abbrev has_backup : String → List ManifestEntry → Bool
has_backup b [] = false
has_backup b (e ∷ es) = str_eq e.backup_id b || has_backup b es

-- `len(set(ids)) == len(ids)`
unfoldable pub has_unique_ids : List ManifestEntry → Bool
has_unique_ids [] = true
has_unique_ids (e ∷ es) = not (has_backup e.backup_id es) && has_unique_ids es

abbrev has_member : String → List RemoteMember → Bool
has_member b [] = false
has_member b (r ∷ rs) = str_eq r.backup_id b || has_member b rs

-- `len(by_id) == len(members)`
unfoldable pub has_unique_members : List RemoteMember → Bool
has_unique_members [] = true
has_unique_members (r ∷ rs) = not (has_member r.backup_id rs) && has_unique_members rs

-- The order of the members' keys, by the order of texts of Python.
abbrev is_before : (String → String → Bool) → RemoteMember → RemoteMember → Bool
is_before less r s =
    less r.backup_id s.backup_id || str_eq r.backup_id s.backup_id && less r.profile_id s.profile_id

abbrev insert_member :
    (String → String → Bool) → RemoteMember → List RemoteMember → List RemoteMember
insert_member less r [] = r ∷ []
insert_member less r (s ∷ rs) =
    let rest = insert_member less r rs in if is_before less s r then s ∷ rest else r ∷ s ∷ rs

abbrev sort_members : (String → String → Bool) → List RemoteMember → List RemoteMember
sort_members less [] = []
sort_members less (r ∷ rs) = insert_member less r (sort_members less rs)

-- What stands for SHA-256 of the canonical text of a destination, a time and members
abbrev Digest : Type 0
Digest = String → String → List RemoteMember → String

abbrev receipt_digest : (String → String → Bool) → Digest → RemoteReceipt → String
receipt_digest less sha256 r = sha256 r.destination_id r.verified_at (sort_members less r.members)

-- What the checks admit of an operation.
unfoldable pub is_manifest : (String → String → Bool) → Digest → Manifest → Bool
is_manifest less sha256 m =
    leb 1 (length m.entries)
    && leb (length m.entries) 4096
    && has_unique_ids m.entries
    && has_unique_members m.receipt.members
    && is_receipt m
    && str_eq (receipt_digest less sha256 m.receipt) m.receipt.receipt_sha256

unfoldable pub parse_manifest :
    (String → String → Bool)
    → Digest
    → String
    → List ManifestEntry
    → RemoteReceipt
    → Option Manifest
parse_manifest less sha256 op entries receipt =
    let m : Manifest = record { operation_id = op; entries = entries; receipt = receipt } in
    if is_manifest less sha256 m then some m else none

-- No entry of the rest has the backup.
apart_from :
    (b : String) (es : List ManifestEntry)
    → has_backup b es ≡ false
    → All (λ x. str_eq x.backup_id b ≡ false) es
apart_from b [] h = tt
apart_from b (e ∷ es) h = (ground arith, apart_from b es (ground arith))

backup_of_member :
    (e : ManifestEntry) (es : List ManifestEntry)
    → Any (λ x. x ≡ e) es
    → has_backup e.backup_id es ≡ true
backup_of_member e [] h = elim h [ ]
backup_of_member e (x ∷ es) h = elim h [
  | inl k ↦ rw k (ground (arith, eq_refl e.backup_id))
  | inr k ↦ ground (arith, backup_of_member e es k)
]

other :
    (e x : ManifestEntry) (es : List ManifestEntry)
    → not (has_backup x.backup_id es) ≡ true
    → Any (λ y. y ≡ e) es
    → str_eq x.backup_id e.backup_id ≡ false
other e x es h k = elim (Bool-cases (str_eq x.backup_id e.backup_id)) [
  | inl t ↦
      let same = (eq_iff x.backup_id e.backup_id).0 t in
      let there : has_backup x.backup_id es ≡ true =
        subst (λ b. has_backup b es ≡ true) (sym same) (backup_of_member e es k) in
      ground (arith, h, there)
  | inr t ↦ t
]

alone :
    (e : ManifestEntry) (es : List ManifestEntry)
    → has_unique_ids es ≡ true
    → Any (λ x. x ≡ e) es
    → All (λ x. (x ≡ e) ⊎ (str_eq x.backup_id e.backup_id ≡ false)) es
unfolding has_unique_ids
alone e [] h k = tt
alone e (x ∷ es) h k =
    let u = and_iff (not (has_backup x.backup_id es)) (has_unique_ids es) h in
    elim k [
      | inl s ↦ (
        inl s,
        All-map es (λ y d. inr (subst (λ z. str_eq y.backup_id z.backup_id ≡ false) s d))
            (apart_from x.backup_id es (ground (arith, u))),
      )
      | inr s ↦ (inr (other e x es u.0 s), alone e es u.1 s)
    ]

third_and_fifth :
    (a b c d f g : Bool) → (a && b && c && d && f && g) ≡ true → (c ≡ true) × (f ≡ true)
third_and_fifth a b c d f g h = ground arith

is_manifest-checked :
    (less : String → String → Bool) (sha256 : Digest) (m : Manifest)
    → is_manifest less sha256 m ≡ true
    → (has_unique_ids m.entries ≡ true) × (is_receipt m ≡ true)
unfolding is_manifest
is_manifest-checked less sha256 m h =
    third_and_fifth (leb 1 (length m.entries)) (leb (length m.entries) 4096)
      (has_unique_ids m.entries) (has_unique_members m.receipt.members) (is_receipt m)
      (str_eq (receipt_digest less sha256 m.receipt) m.receipt.receipt_sha256) h

abbrev from_some : Manifest → Option Manifest → Manifest
from_some m none = m
from_some m (some n) = n

guarded : (b : Bool) (m n : Manifest) → (if b then some m else none) ≡ some n → (b ≡ true) × (m ≡ n)
guarded true m n h = (refl, ap (from_some m) h)
guarded false m n h = ground arith

-- A verified receipt has a copy of the entry: a member with its backup, profile, size and digest.
abbrev pub IsCopied : RemoteReceipt → ManifestEntry → Type 0
IsCopied r e =
    (r.verified ≡ true)
    × ((c : RemoteMember) × Any (λ x. x ≡ c) r.members
        × (c.backup_id ≡ e.backup_id)
        × (c.profile_id ≡ e.profile_id)
        × (c.size_bytes ≡ e.identity.size_bytes)
        × (c.sha256 ≡ e.identity.sha256))

member_first :
    (b : String) (r : RemoteMember) (rs : List RemoteMember) (c : RemoteMember) (first : Bool)
    → str_eq r.backup_id b ≡ first
    → (if first then some r else find_member b rs) ≡ some c
    → (find_member b rs ≡ some c → Any (λ x. x ≡ c) rs × (c.backup_id ≡ b))
    → Any (λ x. x ≡ c) (r ∷ rs) × (c.backup_id ≡ b)
member_first b r rs c true e h later =
    let same : r ≡ c = cc in
    (inl same, subst (λ (x : RemoteMember). x.backup_id ≡ b) same ((eq_iff r.backup_id b).0 e))
member_first b r rs c false e h later = let l = later h in (inr l.0, l.1)

member_found :
    (b : String) (rs : List RemoteMember) (c : RemoteMember)
    → find_member b rs ≡ some c
    → Any (λ x. x ≡ c) rs × (c.backup_id ≡ b)
member_found b [] c h = ground arith
member_found b (r ∷ rs) c h =
    member_first b r rs c (str_eq r.backup_id b) refl h (member_found b rs c)

entry_found :
    (b : String) (es : List ManifestEntry)
    → is_some (find_entry b es) ≡ true
    → Any (λ x. x.backup_id ≡ b) es
entry_found b [] h = ground arith
entry_found b (e ∷ es) h = elim (Bool-cases (str_eq e.backup_id b)) [
  | inl t ↦ inl ((eq_iff e.backup_id b).0 t)
  | inr t ↦ inr (entry_found b es (ground (arith, h, t)))
]

entries_found :
    (es : List ManifestEntry) (rs : List RemoteMember)
    → all (λ r. is_some (find_entry r.backup_id es)) rs ≡ true
    → All (λ r. Any (λ x. x.backup_id ≡ r.backup_id) es) rs
entries_found es [] h = tt
entries_found es (r ∷ rs) h =
    let g = and_iff (is_some (find_entry r.backup_id es)) _ h in
    (entry_found r.backup_id es g.0, entries_found es rs g.1)

copied :
    (e : ManifestEntry) (rs : List RemoteMember) (o : Option RemoteMember)
    → find_member e.backup_id rs ≡ o
    → copies e o ≡ true
    → (c : RemoteMember) × Any (λ x. x ≡ c) rs
      × (c.backup_id ≡ e.backup_id)
      × (c.profile_id ≡ e.profile_id)
      × (c.size_bytes ≡ e.identity.size_bytes)
      × (c.sha256 ≡ e.identity.sha256)
copied e rs none h k = ground arith
copied e rs (some c) h k =
    let f = member_found e.backup_id rs c h in
    (
      c,
      f.0,
      f.1,
      ground (arith, k, eq_iff c.profile_id e.profile_id),
      ground (arith, k),
      ground (arith, k, eq_iff c.sha256 e.identity.sha256),
    )

copies_found :
    (es : List ManifestEntry) (rs : List RemoteMember) (e : ManifestEntry)
    → all (λ x. copies x (find_member x.backup_id rs)) es ≡ true
    → Any (λ x. x ≡ e) es
    → copies e (find_member e.backup_id rs) ≡ true
copies_found [] rs e h k = elim k [ ]
copies_found (x ∷ es) rs e h k =
    let g = and_iff (copies x (find_member x.backup_id rs)) _ h in
    elim k [
      | inl s ↦ subst (λ y. copies y (find_member y.backup_id rs) ≡ true) s g.0
      | inr s ↦ copies_found es rs e g.1 s
    ]

three_hold : (a b c : Bool) → (a && b && c) ≡ true → (a ≡ true) × (b ≡ true) × (c ≡ true)
three_hold a b c h = ground arith

-- Every entry of a manifest that is parsed is the only one for its backup, the receipt is verified
-- and has a member with the entry's backup, profile, size and digest; and every member of the
-- receipt has the backup of an entry.
pub parse_manifest-IsEntry :
    (less : String → String → Bool) (sha256 : Digest) (op : String) (entries : List ManifestEntry)
    (receipt : RemoteReceipt) (m : Manifest) (e : ManifestEntry)
    → parse_manifest less sha256 op entries receipt ≡ some m
    → Any (λ x. x ≡ e) m.entries
    → IsEntry m.entries e
      × IsCopied m.receipt e
      × All (λ r. Any (λ x. x.backup_id ≡ r.backup_id) m.entries) m.receipt.members
unfolding parse_manifest
parse_manifest-IsEntry less sha256 op entries receipt m e h k =
    let raw : Manifest = record { operation_id = op; entries = entries; receipt = receipt } in
    let g = guarded (is_manifest less sha256 raw) raw m h in
    let f =
      is_manifest-checked less sha256 m (subst (λ n. is_manifest less sha256 n ≡ true) g.1 g.0) in
    let r = three_hold m.receipt.verified _ _ f.1 in
    (
      (k, alone e m.entries f.0 k),
      (r.0, copied e m.receipt.members _ refl (copies_found m.entries m.receipt.members e r.2 k)),
      entries_found m.entries m.receipt.members r.1,
    )
