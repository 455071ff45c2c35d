-- ===== src/Slot/RoundTrip.antt =====
-- Reading back what `_reservation_payload` writes (src/game_control/slot.py).
use helios_horizon.Common.{String, ◌≡◌, refl, true, false, Option, some, arith, ◌↔◌, ℤ, get, Dict}
use helios_horizon.Slot.Values.{
  profile_of_text-value, Float, float_of_int-finite, is_empty, is_negative, is_positive, is_finite,
  Value, int,
}
use helios_horizon.Slot.Record.{
  Reservation, is_kind, is_capability, read_profile, read_operation_id, read_count, read_pid,
  read_expiry, read_kind, read_capability, reservation_from_json, reservation_payload,
}

-- What the reader accepts, said of the reservation.
pub record IsWellFormed (r : Reservation) : Type 0 where
  pub named : is_empty r.operation_id ≡ false
  pub generation_nonneg : is_negative r.state_generation ≡ false
  pub pid_pos : is_positive r.controller_pid ≡ true
  pub ticks_nonneg : is_negative r.controller_start_ticks ≡ false
  pub kind_known : is_kind r.operation_kind ≡ true
  pub capability_fits : is_capability r.operation_kind r.capability_sha256 ≡ true
  pub expiry_finite : is_finite r.expires_at ≡ true

-- A well-formed reservation is read back from what is written of it.
pub from_json-payload :
    (r : Reservation)
    → IsWellFormed r
    → reservation_from_json (some (reservation_payload r)) ≡ some r
unfolding reservation_from_json reservation_payload get read_profile read_operation_id read_count
    read_pid read_expiry read_kind read_capability
from_json-payload r w = ground (arith, profile_of_text-value r.profile_id)

-- What each test of the reader guarantees of the value that it passes on.
read_operation_id-named :
    (v : Option Value) (t : String) → read_operation_id v ≡ some t → is_empty t ≡ false
unfolding read_operation_id
read_operation_id-named v t h = ground arith

read_count-nonneg : (v : Option Value) (n : ℤ) → read_count v ≡ some n → is_negative n ≡ false
unfolding read_count
read_count-nonneg v n h = ground arith

read_pid-pos : (v : Option Value) (n : ℤ) → read_pid v ≡ some n → is_positive n ≡ true
unfolding read_pid
read_pid-pos v n h = ground arith

is_kind-lifecycle : is_kind "lifecycle" ≡ true
unfolding is_kind
is_kind-lifecycle = refl

read_kind-known : (v : Option Value) (k : String) → read_kind v ≡ some k → is_kind k ≡ true
unfolding read_kind
read_kind-known v k h = ground (arith, is_kind-lifecycle)

read_capability-fits :
    (k : String) (v : Option Value) (c : Option String)
    → read_capability k v ≡ some c
    → is_capability k c ≡ true
unfolding read_capability is_capability
read_capability-fits k v c h = ground arith

read_expiry-finite : (v : Option Value) (f : Float) → read_expiry v ≡ some f → is_finite f ≡ true
unfolding read_expiry
read_expiry-finite (some (int n)) f h = ground (arith, float_of_int-finite n f)
read_expiry-finite v f h = ground arith

-- Whatever stands in the file, a reservation that is read from it is well formed.
pub from_json-IsWellFormed :
    (raw : Dict Value) (r : Reservation)
    → reservation_from_json (some raw) ≡ some r
    → IsWellFormed r
unfolding reservation_from_json
from_json-IsWellFormed raw r h = ground (
  arith,
  read_operation_id-named (get raw "operation_id") r.operation_id,
  read_count-nonneg (get raw "state_generation") r.state_generation,
  read_pid-pos (get raw "controller_pid") r.controller_pid,
  read_count-nonneg (get raw "controller_start_ticks") r.controller_start_ticks,
  read_kind-known (get raw "operation_kind") r.operation_kind,
  read_capability-fits r.operation_kind (get raw "capability_sha256") r.capability_sha256,
  read_expiry-finite (get raw "expires_at") r.expires_at,
)

-- What is written of a reservation is read back as that reservation exactly when it is well formed:
-- a non-empty operation id, a generation and start ticks that are not negative, a positive process
-- id, one of the two kinds, a finite expiry, and a capability only for an update.
pub from_json-payload_iff :
    (r : Reservation)
    → (reservation_from_json (some (reservation_payload r)) ≡ some r) ↔ IsWellFormed r
from_json-payload_iff r = (from_json-IsWellFormed (reservation_payload r) r, from_json-payload r)
