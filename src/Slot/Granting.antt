-- ===== src/Slot/Granting.antt =====
-- `reserve_if_available` (src/game_control/slot.py): when a reservation is granted, and what of it.
use helios_horizon.Common.{◌≡◌, inl, inr, Bool, true, false, Option, some, arith, ℤ}
use helios_horizon.Slot.Values.{profile, plus, Value, is_empty, is_negative, ProfileId}
use helios_horizon.Slot.Record.{Reservation, is_kind, is_capability, reservation_payload}
use helios_horizon.Slot.Exec.{Failure, already_live, Outcome-cases, ok, err}
use helios_horizon.Slot.Disk.{Entry, Host, lock_open, new_file, atomic_json}
use helios_horizon.Slot.Store.{
  live, read_for_admission, Request, is_ttl, check_request, publish, is_taken, provided_generation,
  new_reservation, pid_or_own, ticks_or_read, reserve_locked, reserve_if_available,
}

reserve_locked-live :
    (host : Host) (q : Request) (checked : ProfileId × ℤ) (available : Option Bool)
    (provided : Option Value) (entry : Entry) (r : Reservation)
    → read_for_admission entry ≡ ok (some r)
    → live host r ≡ true
    → reserve_locked host q checked available provided entry ≡ (err already_live, entry)
unfolding reserve_locked is_taken
reserve_locked-live host q checked available provided entry r h l = ground arith

-- A live reservation is never taken over: the call raises and the file stays as it was.
pub reserve_if_available-live :
    (host : Host) (q : Request) (available : Option Bool) (provided : Option Value) (entry : Entry)
    (r : Reservation)
    → read_for_admission entry ≡ ok (some r)
    → live host r ≡ true
    → (e : Failure) × (reserve_if_available host q available provided entry ≡ (err e, entry))
unfolding reserve_if_available
reserve_if_available-live host q available provided entry r h l =
    elim (Outcome-cases (check_request host q)) [
      | inr (e, bad) ↦ (e, ground arith)
      | inl (c, good) ↦ elim (Outcome-cases (lock_open host)) [
        | inr (e, shut) ↦ (e, ground arith)
        | inl (t, open_) ↦ (
          already_live,
          ground (arith, reserve_locked-live host q c available provided entry r h l),
        )
      ]
    ]

-- What the checks establish of a request that passes them.
pub record IsChecked (host : Host) (q : Request) : Type 0 where
  pub root : host.euid ≡ 0
  pub named : is_empty q.operation_id ≡ false
  pub ttl_fits : is_ttl q.ttl ≡ true
  pub generation_nonneg : is_negative q.state_generation ≡ false
  pub kind_known : is_kind q.operation_kind ≡ true
  pub capability_fits : is_capability q.operation_kind q.capability_sha256 ≡ true

check_request-IsChecked :
    (host : Host) (q : Request) {c : ProfileId × ℤ} → check_request host q ≡ ok c → IsChecked host q
unfolding check_request
check_request-IsChecked host q h = ground arith

-- What a grant says of the file before and after, and of the reservation.
pub record IsGrant (host : Host) (q : Request) (entry after : Entry) (r : Reservation)
    : Type 0 where
  pub checked : IsChecked host q
  pub found : Option Reservation
  pub admitted : read_for_admission entry ≡ ok found
  pub free : is_taken host found ≡ false
  pub published : after ≡ new_file host (reservation_payload r)
  pub holder : profile q.requested ≡ some r.profile_id
  pub operation_id : r.operation_id ≡ q.operation_id
  pub operation_kind : r.operation_kind ≡ q.operation_kind
  pub capability : r.capability_sha256 ≡ q.capability_sha256
  pub generation_nonneg : is_negative r.state_generation ≡ false
  pub controller_pid : r.controller_pid ≡ pid_or_own host q.controller_pid
  pub start_ticks :
      ticks_or_read host r.controller_pid q.controller_start_ticks ≡ some r.controller_start_ticks
  pub expires_at : r.expires_at ≡ plus host.write_time q.ttl

pub publish-ok :
    (host : Host) (r r' : Reservation) (entry : Entry)
    → (publish host r entry).0 ≡ ok r'
    → (r' ≡ r) × ((publish host r entry).1 ≡ new_file host (reservation_payload r))
unfolding publish atomic_json
publish-ok host r r' entry h = ground arith

check_request-ok :
    (host : Host) (q : Request) (p : ProfileId) (ticks : ℤ)
    → check_request host q ≡ ok (p, ticks)
    → (profile q.requested ≡ some p)
      × (ticks_or_read host (pid_or_own host q.controller_pid) q.controller_start_ticks
          ≡ some ticks)
unfolding check_request
check_request-ok host q p ticks h = ground arith

provided_generation-nonneg :
    (v : Option Value) (n m : ℤ)
    → is_negative n ≡ false
    → provided_generation v n ≡ ok m
    → is_negative m ≡ false
unfolding provided_generation
provided_generation-nonneg v n m h e = ground arith

module _ (host : Host) (q : Request) (available : Option Bool) (provided : Option Value)
    (entry : Entry) (r : Reservation) where
  -- A locked attempt that succeeds has passed each test, and is the publication.
  reserve_locked-ok :
      (c : ProfileId × ℤ)
      → (reserve_locked host q c available provided entry).0 ≡ ok r
      → (found : Option Reservation) × (g : ℤ) × (read_for_admission entry ≡ ok found)
        × (is_taken host found ≡ false)
        × (provided_generation provided q.state_generation ≡ ok g)
        × (reserve_locked host q c available provided entry
            ≡ publish host (new_reservation host q c.0 c.1 g) entry)
  unfolding reserve_locked
  reserve_locked-ok c h = elim (Outcome-cases (read_for_admission entry)) [
    | inr (e, bad) ↦ ground arith
    | inl (found, admitted) ↦
        elim (Outcome-cases (provided_generation provided q.state_generation)) [
          | inr (e, bad) ↦ ground arith
          | inl (g, gen) ↦ (found, g, admitted, ground arith, gen, ground arith)
        ]
  ]

  granted_locked :
      (c : ProfileId × ℤ)
      → check_request host q ≡ ok c
      → (reserve_locked host q c available provided entry).0 ≡ ok r
      → IsGrant host q entry (reserve_locked host q c available provided entry).1 r
  granted_locked c good h =
      let (found, g, admitted, free, gen, eq) = reserve_locked-ok c h in
      let (r-eq, after) = publish-ok host (new_reservation host q c.0 c.1 g) r entry (rw eq at h) in
      let checked = check_request-IsChecked host q good in
      let (holder, ticks) = check_request-ok host q c.0 c.1 good in
      record {
        checked = checked;
        found = found;
        admitted = admitted;
        free = free;
        published = cc;
        holder = ground arith;
        operation_id = ground arith;
        operation_kind = ground arith;
        capability = ground arith;
        generation_nonneg = ground (
          arith,
          provided_generation-nonneg provided q.state_generation g checked.generation_nonneg gen,
        );
        controller_pid = ground arith;
        start_ticks = ground arith;
        expires_at = ground arith;
      }

  -- A successful call found the slot free and published the reservation that it returns, which
  -- names the requested profile and operation, the process, and the expiry `clock() + ttl`.
  pub reserve_if_available-IsGrant :
      (reserve_if_available host q available provided entry).0 ≡ ok r
      → IsGrant host q entry (reserve_if_available host q available provided entry).1 r
  unfolding reserve_if_available
  reserve_if_available-IsGrant h = elim (Outcome-cases (check_request host q)) [
    | inr (e, bad) ↦ ground arith
    | inl (c, good) ↦ elim (Outcome-cases (lock_open host)) [
      | inr (e, shut) ↦ ground arith
      | inl (t, unlocked) ↦ rw (good, unlocked) (granted_locked c good (rw (good, unlocked) at h))
    ]
  ]
