-- ===== src/Slot/Record.antt =====
-- src/game_control/slot.py: the reservation, and its reading from and writing to a JSON object.
use helios_horizon.Common.{
  String, Bool, true, ◌&&◌, ◌||◌, Option, none, some, [], ◌∷◌, str_eq, if◌then◌else◌, ℤ, Dict, get,
}
use helios_horizon.Slot.Values.{
  ProfileId, value, profile_of_text, Float, is_finite, float_of_int, Value, null, int, float, str,
  is_hex_64, is_empty, is_negative, is_positive,
}

pub record Reservation : Type 0 where
  pub profile_id : ProfileId
  pub operation_id : String
  pub state_generation : ℤ
  pub controller_pid : ℤ
  pub controller_start_ticks : ℤ
  pub expires_at : Float
  pub operation_kind : String
  pub capability_sha256 : Option String

infixl 5 ◌>>=◌
abbrev ◌>>=◌ {ℓ κ} : {A : Type ℓ} {B : Type κ} → Option A → (A → Option B) → Option B
some a >>= f = f a
none >>= f = none

-- operation_kind in {"lifecycle", "update"}
unfoldable pub is_kind : String → Bool
is_kind k = str_eq k "lifecycle" || str_eq k "update"

-- A capability is there only for an update, and is a SHA-256 digest in lower-case hexadecimal.
unfoldable pub is_capability : String → Option String → Bool
is_capability kind none = true
is_capability kind (some digest) = str_eq kind "update" && is_hex_64 digest

-- The tests of `_reservation_from_json`, one for each field. The argument is `raw.get(key)`; a
-- missing required key is the KeyError, and a `bool` is no number.
unfoldable pub read_profile : Option Value → Option ProfileId
read_profile (some (str t)) = profile_of_text t
read_profile _ = none

unfoldable pub read_operation_id : Option Value → Option String
read_operation_id (some (str t)) = if is_empty t then none else some t
read_operation_id _ = none

-- state_generation and controller_start_ticks
unfoldable pub read_count : Option Value → Option ℤ
read_count (some (int n)) = if is_negative n then none else some n
read_count _ = none

unfoldable pub read_pid : Option Value → Option ℤ
read_pid (some (int n)) = if is_positive n then some n else none
read_pid _ = none

unfoldable pub read_expiry : Option Value → Option Float
read_expiry (some (int n)) = float_of_int n
read_expiry (some (float t)) = if is_finite t then some t else none
read_expiry _ = none

unfoldable pub read_kind : Option Value → Option String
read_kind none = some "lifecycle"
read_kind (some (str k)) = if is_kind k then some k else none
read_kind _ = none

unfoldable pub read_capability : String → Option Value → Option (Option String)
read_capability kind none = some none
read_capability kind (some null) = some none
read_capability kind (some (str t)) = if is_capability kind (some t) then some (some t) else none
read_capability kind _ = none

-- `_reservation_from_json`
unfoldable pub reservation_from_json : Option (Dict Value) → Option Reservation
reservation_from_json none = none
reservation_from_json (some raw) = do
  profile ← read_profile (get raw "profile_id")
  operation_id ← read_operation_id (get raw "operation_id")
  generation ← read_count (get raw "state_generation")
  pid ← read_pid (get raw "controller_pid")
  ticks ← read_count (get raw "controller_start_ticks")
  operation_kind ← read_kind (get raw "operation_kind")
  capability ← read_capability operation_kind (get raw "capability_sha256")
  expiry ← read_expiry (get raw "expires_at")
  some (record {
    profile_id = profile;
    operation_id = operation_id;
    state_generation = generation;
    controller_pid = pid;
    controller_start_ticks = ticks;
    expires_at = expiry;
    operation_kind = operation_kind;
    capability_sha256 = capability;
  })

abbrev capability_field : Option String → Dict Value
capability_field none = []
capability_field (some digest) = ("capability_sha256", str digest) ∷ []

-- `_reservation_payload`
unfoldable pub reservation_payload : Reservation → Dict Value
reservation_payload r =
    ("profile_id", str (value r.profile_id))
    ∷ ("operation_id", str r.operation_id)
    ∷ ("state_generation", int r.state_generation)
    ∷ ("controller_pid", int r.controller_pid)
    ∷ ("controller_start_ticks", int r.controller_start_ticks)
    ∷ ("expires_at", float r.expires_at)
    ∷ ("operation_kind", str r.operation_kind)
    ∷ capability_field r.capability_sha256
