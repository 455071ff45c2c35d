-- ===== src/Slot/Exclusion.antt =====
-- Nobody but its owner changes a live reservation, over any sequence of the operations of
-- src/game_control/slot.py by any processes in which `reserve`, the only writer that does not look
-- at what is there, is not let through.
use helios_horizon.Common.{
  String, ◌≡◌, refl, Bool, true, false, ◌&&◌, Option, none, some, List, [], ◌∷◌, arith, All, inl,
  inr, ℤ, str_eq,
}
use helios_horizon.Slot.Values.{ProfileRef, ProfileId, profile, Float, Value, same_profile}
use helios_horizon.Slot.Record.{Reservation, reservation_from_json}
use helios_horizon.Slot.Exec.{Outcome, Outcome-cases, ok, err}
use helios_horizon.Slot.Disk.{Entry, read_json, missing, unavailable, dangling, file, Host}
use helios_horizon.Slot.Store.{
  live, read, admit, is_unsafe, read_for_admission, Request, is_taken, check_request,
  reserve_locked, reserve_if_available, reserve,
}
use helios_horizon.Slot.Lease.{
  Claim, Owner, identify, is_owner, owns, owned, owned_live, release_locked, release_if_owned,
  release_if_owned_locked, transfer_if_owned, renew_if_owned,
}
use helios_horizon.Slot.Views.{runner_view, valid_for_runner, remove_if_stale, reconcile}

-- An operation that may write the file, with its arguments.
pub data Op : Type 0 where
  acquire : Request → Option Bool → Option Value → Op
  overwrite : Request → Op
  release release_held : Claim → Op
  renew : Claim → Float → Op
  transfer : Claim → ProfileRef → String → Float → Op
  reconciliation : Host → Entry → Op

-- The file after the operation, whether it returns or raises.
unfoldable pub apply : Host → Op → Entry → Entry
apply host (acquire q available provided) entry =
    (reserve_if_available host q available provided entry).1
apply host (overwrite q) entry = (reserve host q entry).1
apply host (release c) entry = (release_if_owned host c entry).1
apply host (release_held c) entry = (release_if_owned_locked host c entry).1
apply host (renew c ttl) entry = (renew_if_owned host c ttl entry).1
apply host (transfer c target id ttl) entry = (transfer_if_owned host c target id ttl entry).1
apply host (reconciliation before seen) entry = (reconcile before seen host entry).1

unfoldable pub holds : Outcome Owner → Reservation → Bool
holds (ok o) r = is_owner o r
holds (err e) r = false

unfoldable pub is_accepted : Outcome (ProfileId × ℤ) → Bool
is_accepted (ok checked) = true
is_accepted (err e) = false

-- The operation is a `reserve` whose arguments pass its checks: it writes whatever is there.
unfoldable pub overwrites : Host → Op → Bool
overwrites host (overwrite q) = is_accepted (check_request host q)
overwrites host _ = false

-- The operation is one of an owner, and its claim fits the reservation.
unfoldable pub speaks_for : Host → Op → Reservation → Bool
speaks_for host (release c) r = holds (identify host c) r
speaks_for host (release_held c) r = holds (identify host c) r
speaks_for host (renew c ttl) r = holds (identify host c) r
speaks_for host (transfer c target id ttl) r =
    holds (identify host (record c { operation_kind = none })) r
speaks_for host _ r = false

admit-found :
    (unsafe : Bool) (o found : Option Reservation) (r : Reservation)
    → o ≡ some r
    → admit unsafe o ≡ ok found
    → found ≡ some r
unfolding admit
admit-found unsafe o found r e h = ground arith

-- What the admission finds is what any other reader finds.
admission-read :
    (entry : Entry) (r : Reservation) (found : Option Reservation)
    → read entry ≡ some r
    → read_for_admission entry ≡ ok found
    → found ≡ some r
unfolding read_for_admission
admission-read missing r found here h = unfold read read_json reservation_from_json in cc
admission-read unavailable r found here h = cc
admission-read dangling r found here h = cc
admission-read (file info document) r found here h =
    admit-found (is_unsafe info) (read (file info document)) found r here h

module _ (host : Host) (r : Reservation) (entry : Entry) (here : read entry ≡ some r) where
  release_locked-other :
      (o : Owner) → is_owner o r ≡ false → (release_locked host o entry).1 ≡ entry
  unfolding release_locked owns
  release_locked-other o h = ground arith

  release-other :
      (c : Claim) → holds (identify host c) r ≡ false → (release_if_owned host c entry).1 ≡ entry
  unfolding release_if_owned holds
  release-other c h = elim (Outcome-cases (identify host c)) [
    | inr (e, bad) ↦ ground arith
    | inl (o, good) ↦ ground (arith, release_locked-other o)
  ]

  release_held-other :
      (c : Claim)
      → holds (identify host c) r ≡ false
      → (release_if_owned_locked host c entry).1 ≡ entry
  unfolding release_if_owned_locked holds
  release_held-other c h = elim (Outcome-cases (identify host c)) [
    | inr (e, bad) ↦ ground arith
    | inl (o, good) ↦ ground (arith, release_locked-other o)
  ]

  renew-other :
      (c : Claim) (ttl : Float)
      → holds (identify host c) r ≡ false
      → (renew_if_owned host c ttl entry).1 ≡ entry
  unfolding renew_if_owned holds owned_live
  renew-other c ttl h = elim (Outcome-cases (identify host c)) [
    | inr (e, bad) ↦ ground arith
    | inl (o, good) ↦ ground arith
  ]

  transfer-other :
      (c : Claim) (target : ProfileRef) (id : String) (ttl : Float)
      → holds (identify host (record c { operation_kind = none })) r ≡ false
      → (transfer_if_owned host c target id ttl entry).1 ≡ entry
  unfolding transfer_if_owned holds owned
  transfer-other c target id ttl h =
      elim (Outcome-cases (identify host (record c { operation_kind = none }))) [
        | inr (e, bad) ↦ ground arith
        | inl (o, good) ↦ ground arith
      ]

  reconcile-live :
      (before : Host) (seen : Entry)
      → live host r ≡ true
      → (reconcile before seen host entry).1 ≡ entry
  unfolding reconcile remove_if_stale is_taken
  reconcile-live before seen l = ground arith

  acquire_locked-live :
      (q : Request) (checked : ProfileId × ℤ) (available : Option Bool) (provided : Option Value)
      → live host r ≡ true
      → (reserve_locked host q checked available provided entry).1 ≡ entry
  unfolding reserve_locked
  acquire_locked-live q checked available provided l =
      elim (Outcome-cases (read_for_admission entry)) [
        | inr (e, bad) ↦ ground arith
        | inl (found, good) ↦
            let taken : is_taken host found ≡ true =
              unfold is_taken in rw (admission-read entry r found here good) l in
            ground arith
      ]

  acquire-live :
      (q : Request) (available : Option Bool) (provided : Option Value)
      → live host r ≡ true
      → (reserve_if_available host q available provided entry).1 ≡ entry
  unfolding reserve_if_available
  acquire-live q available provided l = elim (Outcome-cases (check_request host q)) [
    | inr (e, bad) ↦ ground arith
    | inl (c, good) ↦ ground (arith, acquire_locked-live q c available provided l)
  ]

  overwrite-refused :
      (q : Request) → is_accepted (check_request host q) ≡ false → (reserve host q entry).1 ≡ entry
  unfolding reserve is_accepted
  overwrite-refused q h = elim (Outcome-cases (check_request host q)) [
    | inr (e, bad) ↦ ground arith
    | inl (c, good) ↦ ground arith
  ]

  -- An operation that does not come from the owner and does not overwrite leaves a live
  -- reservation's file as it is.
  pub apply-other :
      (op : Op)
      → live host r ≡ true
      → speaks_for host op r ≡ false
      → overwrites host op ≡ false
      → apply host op entry ≡ entry
  unfolding apply speaks_for overwrites
  apply-other (overwrite q) l s o = overwrite-refused q o
  apply-other (acquire q available provided) l s o = acquire-live q available provided l
  apply-other (release c) l s o = release-other c s
  apply-other (release_held c) l s o = release_held-other c s
  apply-other (renew c ttl) l s o = renew-other c ttl s
  apply-other (transfer c target id ttl) l s o = transfer-other c target id ttl s
  apply-other (reconciliation before seen) l s o = reconcile-live before seen l

-- A run of operations, each on the host as it is at that time.
unfoldable pub run : List (Host × Op) → Entry → Entry
run [] entry = entry
run ((host, op) ∷ rest) entry = run rest (apply host op entry)

-- No operation of the run is its owner's or a `reserve` that is let through, and each finds the
-- reservation live.
abbrev pub IsForeign : Reservation → List (Host × Op) → Type 0
IsForeign r =
    All (λ s. (live s.0 r ≡ true) × (speaks_for s.0 s.1 r ≡ false) × (overwrites s.0 s.1 ≡ false))

-- While a reservation is live, its file stays as it is through any operations, in any order and
-- number, that are not its owner's, but for a `reserve` whose arguments pass its checks.
pub run-foreign :
    (r : Reservation) (steps : List (Host × Op)) (entry : Entry)
    → read entry ≡ some r
    → IsForeign r steps
    → run steps entry ≡ entry
unfolding run
run-foreign r [] entry here foreign = refl
run-foreign r ((host, op) ∷ rest) entry here foreign =
    let same = apply-other host r entry here op foreign.0.0 foreign.0.1 foreign.0.2 in
    rw same (run-foreign r rest entry here foreign.1)

-- While a reservation is live, and through any operations that are not its owner's, but for a
-- `reserve` whose arguments pass its checks, a runner is let in for the reserved profile of a
-- lifecycle operation, and is refused for any other profile.
pub runner_exclusion :
    (r : Reservation) (steps : List (Host × Op)) (entry : Entry) (host : Host) (target : ProfileId)
    → read entry ≡ some r
    → IsForeign r steps
    → live host r ≡ true
    → (valid_for_runner host (ProfileRef.id target) (run steps entry)).0
      ≡ ok (some (same_profile r.profile_id target && str_eq r.operation_kind "lifecycle"))
unfolding valid_for_runner runner_view profile
runner_exclusion r steps entry host target here foreign l =
    rw (run-foreign r steps entry here foreign, here, l)
