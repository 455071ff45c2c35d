-- ===== src/Slot/Renewal.antt =====
-- What a renewal and a transfer of a reservation establish (src/game_control/slot.py).
use helios_horizon.Common.{
  String, ◌≡◌, true, Option, none, some, arith, inl, inr, Option-cases, eqb_ℤ_iff,
}
use helios_horizon.Slot.Values.{ProfileRef, ProfileId, profile, Float, plus}
use helios_horizon.Slot.Record.{Reservation, reservation_payload}
use helios_horizon.Slot.Exec.{Outcome-cases, ok}
use helios_horizon.Slot.Disk.{Entry, Host, lock_open, new_file}
use helios_horizon.Slot.Store.{live, read, publish}
use helios_horizon.Slot.Granting.{publish-ok}
use helios_horizon.Slot.Lease.{
  Claim, Owner, identify, is_owner, owned, owned_live, transfer_if_owned, renew_if_owned,
}

-- The caller is the owner of the reservation in the file.
pub record IsOwned (host : Host) (c : Claim) (entry : Entry) (r : Reservation) : Type 0 where
  pub owner : Owner
  pub identified : identify host c ≡ ok owner
  pub found : read entry ≡ some r
  pub fits : is_owner owner r ≡ true

owned_live-some :
    (host : Host) (o : Owner) (found : Option Reservation) (r : Reservation)
    → owned_live host o found ≡ some r
    → (found ≡ some r) × (is_owner o r ≡ true) × (live host r ≡ true)
unfolding owned_live
owned_live-some host o found r h = ground arith

owned-some :
    (o : Owner) (found : Option Reservation) (r : Reservation)
    → owned o found ≡ some r
    → (found ≡ some r) × (is_owner o r ≡ true)
unfolding owned
owned-some o found r h = ground arith

-- A renewal that succeeds was of the caller's own reservation, which was live; it changes nothing
-- of it but the expiry, and the result is what the file holds.
pub renew_if_owned-ok :
    (host : Host) (c : Claim) (ttl : Float) (entry : Entry) (r' : Reservation)
    → (renew_if_owned host c ttl entry).0 ≡ ok r'
    → (r : Reservation) × IsOwned host c entry r
      × (live host r ≡ true)
      × (r' ≡ record r { expires_at = plus host.write_time ttl })
      × ((renew_if_owned host c ttl entry).1 ≡ new_file host (reservation_payload r'))
unfolding renew_if_owned
renew_if_owned-ok host c ttl entry r' h = elim (Outcome-cases (identify host c)) [
  | inr (e, bad) ↦ ground arith
  | inl (o, good) ↦ elim (Outcome-cases (lock_open host)) [
    | inr (e, shut) ↦ ground arith
    | inl (t, unlocked) ↦ elim (Option-cases (owned_live host o (read entry))) [
      | inl other ↦ ground arith
      | inr (r, mine) ↦
          let (found, fits, l) = owned_live-some host o (read entry) r mine in
          let same : renew_if_owned host c ttl entry
              ≡ publish host (record r { expires_at = plus host.write_time ttl }) entry =
            ground arith in
          let (r-eq, after) =
            publish-ok host (record r { expires_at = plus host.write_time ttl }) r' entry
              (rw same at h) in
          (r, record { owner = o; identified = good; found = found; fits = fits }, l, r-eq, cc)
    ]
  ]
]

is_owner-generation :
    (o : Owner) (r : Reservation) → is_owner o r ≡ true → r.state_generation ≡ o.state_generation
unfolding is_owner
is_owner-generation o r h = ground (arith, eqb_ℤ_iff r.state_generation o.state_generation)

-- The reservation that a transfer writes.
abbrev pub transferred : Host → ProfileId → String → Float → Reservation → Reservation
transferred host p id ttl r = record r {
  profile_id = p;
  operation_id = id;
  expires_at = plus host.write_time ttl;
}

-- A transfer that succeeds was of the caller's own reservation, live or not. The new one has the
-- target's profile and operation id and a new expiry, and keeps the process, the kind, the
-- capability and the generation; the result is what the file holds.
pub transfer_if_owned-ok :
    (host : Host) (c : Claim) (target : ProfileRef) (id : String) (ttl : Float) (entry : Entry)
    (r' : Reservation)
    → (transfer_if_owned host c target id ttl entry).0 ≡ ok r'
    → (r : Reservation) × IsOwned host (record c { operation_kind = none }) entry r
      × (profile target ≡ some r'.profile_id)
      × (r' ≡ transferred host r'.profile_id id ttl r)
      × ((transfer_if_owned host c target id ttl entry).1 ≡ new_file host (reservation_payload r'))
unfolding transfer_if_owned
transfer_if_owned-ok host c target id ttl entry r' h = elim (Option-cases (profile c.claimed)) [
  | inl bad ↦ ground arith
  | inr (p, fine) ↦ elim (Option-cases (profile target)) [
    | inl bad ↦ ground arith
    | inr (q, aim) ↦ elim (Outcome-cases (identify host (record c { operation_kind = none }))) [
      | inr (e, bad) ↦ ground arith
      | inl (o, good) ↦ elim (Outcome-cases (lock_open host)) [
        | inr (e, shut) ↦ ground arith
        | inl (t, unlocked) ↦ elim (Option-cases (owned o (read entry))) [
          | inl other ↦ ground arith
          | inr (r, mine) ↦
              let (found, fits) = owned-some o (read entry) r mine in
              let gen = is_owner-generation o r fits in
              let same : transfer_if_owned host c target id ttl entry
                  ≡ publish host (transferred host q id ttl r) entry =
                ground arith in
              let (r-eq, after) =
                publish-ok host (transferred host q id ttl r) r' entry (rw same at h) in
              (
                r,
                record { owner = o; identified = good; found = found; fits = fits },
                ground arith,
                ground arith,
                cc,
              )
        ]
      ]
    ]
  ]
]
