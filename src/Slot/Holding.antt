-- ===== src/Slot/Holding.antt =====
-- A granted reservation is in force until it expires (src/game_control/slot.py).
use helios_horizon.Common.{
  ◌≡◌, true, false, some, arith, ℤ, ◌+ℤ◌, +ℤ_parts, ◌≤ℤ◌, ◌<ℤ◌, eqb_ℤ_iff, ap, ◌∙◌,
}
use helios_horizon.Slot.Values.{
  Float, finite, not_finite, is_finite, plus, is_negative, is_positive,
}
use helios_horizon.Slot.Record.{Reservation, reservation_payload}
use helios_horizon.Slot.RoundTrip.{IsWellFormed, from_json-payload}
use helios_horizon.Slot.Disk.{Entry, read_json, Host, new_file}
use helios_horizon.Slot.Store.{
  max_reservation_ttl, in_window, same_ticks, live, read, Request, is_ttl,
}
use helios_horizon.Slot.Granting.{IsGrant}

in_window-plus :
    (start now ttl : ℤ)
    → ttl ≤ℤ max_reservation_ttl
    → start ≤ℤ now
    → now <ℤ start +ℤ ttl
    → in_window now (plus start (finite ttl)) ≡ true
unfolding in_window plus
in_window-plus start now ttl fits h k =
    ground (arith, +ℤ_parts start ttl, +ℤ_parts now max_reservation_ttl)

same_ticks_refl : (t : ℤ) → same_ticks (some t) t ≡ true
unfolding same_ticks
same_ticks_refl t = (eqb_ℤ_iff t t).1 (λ i. t)

is_ttl-le : (t : ℤ) → is_ttl (finite t) ≡ true → t ≤ℤ max_reservation_ttl
unfolding is_ttl
is_ttl-le t h = ground arith

-- What the file of a published reservation is read as.
pub read-new_file :
    (host : Host) (r : Reservation)
    → IsWellFormed r
    → read (new_file host (reservation_payload r)) ≡ some r
unfolding read read_json new_file
read-new_file host r w = from_json-payload r w

is_finite-plus : (now : ℤ) (f : Float) → is_ttl f ≡ true → is_finite (plus now f) ≡ true
unfolding plus is_ttl
is_finite-plus now (finite t) h = λ i. true
is_finite-plus now not_finite h = cc

module _ {host : Host} {q : Request} {entry after : Entry} {r : Reservation}
    (grant : IsGrant host q entry after r) where
  -- A granted reservation of a process whose identity is a process identity is well formed.
  pub IsGrant-IsWellFormed :
      is_positive r.controller_pid ≡ true
      → is_negative r.controller_start_ticks ≡ false
      → IsWellFormed r
  IsGrant-IsWellFormed p t = record {
    named = cc (grant.operation_id, grant.checked.named);
    generation_nonneg = grant.generation_nonneg;
    pid_pos = p;
    ticks_nonneg = t;
    kind_known = cc (grant.operation_kind, grant.checked.kind_known);
    capability_fits = cc (grant.operation_kind, grant.capability, grant.checked.capability_fits);
    expiry_finite =
        ap is_finite grant.expires_at ∙ is_finite-plus host.write_time q.ttl grant.checked.ttl_fits;
  }

  -- After a grant with a finite duration to a process identity (a positive process id, start ticks
  -- that are not negative), the file is read as the reservation, and it is live at every later
  -- reading of the clock up to its expiry, as long as the process is the same.
  pub granted_in_force :
      is_positive r.controller_pid ≡ true
      → is_negative r.controller_start_ticks ≡ false
      → (ttl : ℤ) → q.ttl ≡ finite ttl
      → (read after ≡ some r)
        × ((later : Host)
            → host.write_time ≤ℤ later.check_time
            → later.check_time <ℤ host.write_time +ℤ ttl
            → later.start_ticks r.controller_pid ≡ some r.controller_start_ticks
            → live later r ≡ true)
  unfolding live
  granted_in_force p t ttl e = (
    ap read grant.published ∙ read-new_file host r (IsGrant-IsWellFormed p t),
    λ later from until same.
        let fits = is_ttl-le ttl (rw e at grant.checked.ttl_fits) in
        let window = in_window-plus host.write_time later.check_time ttl fits from until in
        let open_ : in_window later.check_time r.expires_at ≡ true =
          cc (grant.expires_at, e, window) in
        let alive : same_ticks (later.start_ticks r.controller_pid) r.controller_start_ticks
            ≡ true =
          cc (same, same_ticks_refl r.controller_start_ticks) in
        rw (open_, alive),
  )
