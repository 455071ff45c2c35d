-- ===== src/Slot/Store.antt =====
-- src/game_control/slot.py: `ReservationStore`, its reads and the two ways to make a reservation.
use Prim.Native.Nat.{bit_and}
use helios_horizon.Common.{
  ◌*◌, String, Bool, true, false, not, ◌&&◌, ◌||◌, Option, none, some, ltb, ◌==◌, if◌then◌else◌, ℤ,
  pos, ◌+ℤ◌, ltb_ℤ, leb_ℤ, eqb_ℤ,
}
use helios_horizon.Slot.Values.{
  ProfileId, ProfileRef, profile, Float, finite, not_finite, plus, ticks_per_second, Value, int,
  is_empty, is_negative,
}
use helios_horizon.Slot.Record.{
  Reservation, is_kind, is_capability, reservation_from_json, reservation_payload,
}
use helios_horizon.Slot.Exec.{
  not_root, invalid_profile, invalid_operation_id, invalid_ttl, invalid_generation, invalid_kind,
  invalid_capability, no_controller, unsafe_reservation, malformed_reservation, os_error,
  already_live, precondition_failed, Outcome, ok, err, Exec, pure, lift, need, outcome, reject,
  ◌>>=◌, ◌>>◌,
}
use helios_horizon.Slot.Disk.{
  Stat, Entry, missing, dangling, unavailable, file, read_json, Host, transaction, atomic_json,
}

-- MAX_RESERVATION_TTL, 30 seconds in ticks
abbrev pub max_reservation_ttl : ℤ
max_reservation_ttl = pos (30 * ticks_per_second)

-- `now < expires_at <= now + MAX_RESERVATION_TTL`; no infinity and no NaN passes.
unfoldable pub in_window : ℤ → Float → Bool
in_window now (finite t) = ltb_ℤ now t && leb_ℤ t (now +ℤ max_reservation_ttl)
in_window now not_finite = false

-- `pid_start_ticks(pid) == ticks`
unfoldable pub same_ticks : Option ℤ → ℤ → Bool
same_ticks none ticks = false
same_ticks (some t) ticks = eqb_ℤ t ticks

-- `_live`
unfoldable pub live : Host → Reservation → Bool
live host r =
    in_window host.check_time r.expires_at
    && same_ticks (host.start_ticks r.controller_pid) r.controller_start_ticks

-- `read`
unfoldable pub read : Entry → Option Reservation
read entry = reservation_from_json (read_json entry)

-- The test on the `lstat` result in `_read_for_admission`.
unfoldable pub is_unsafe : Stat → Bool
is_unsafe info =
    info.is_symlink
    || not info.is_regular
    || not (info.nlink == 1)
    || not (info.uid == 0)
    || not (bit_and info.mode 0o022 == 0)
    || bit_and info.mode 0o400 == 0
    || ltb (64 * 1024) info.size

-- What `_read_for_admission` makes of a file that is there: a corrupt one is an error, not absence.
unfoldable pub admit : Bool → Option Reservation → Outcome (Option Reservation)
admit true found = err unsafe_reservation
admit false none = err malformed_reservation
admit false (some r) = ok (some r)

-- `_read_for_admission`
unfoldable pub read_for_admission : Entry → Outcome (Option Reservation)
read_for_admission missing = ok none
read_for_admission unavailable = err os_error
read_for_admission dangling = err unsafe_reservation
read_for_admission (file info document) = admit (is_unsafe info) (read (file info document))

-- The arguments of `reserve` and `reserve_if_available`. `ttl` is an int or a float.
pub record Request : Type 0 where
  pub requested : ProfileRef
  pub operation_id : String
  pub ttl : Float
  pub state_generation : ℤ
  pub controller_pid : Option ℤ
  pub controller_start_ticks : Option ℤ
  pub operation_kind : String
  pub capability_sha256 : Option String

-- 0 < ttl <= MAX_RESERVATION_TTL, of a finite ttl
unfoldable pub is_ttl : Float → Bool
is_ttl (finite t) = ltb_ℤ (pos 0) t && leb_ℤ t max_reservation_ttl
is_ttl not_finite = false

-- `os.getpid() if controller_pid is None else controller_pid`
abbrev pub pid_or_own : Host → Option ℤ → ℤ
pid_or_own host none = host.pid
pid_or_own host (some pid) = pid

-- `self.pid_start_ticks(pid) if controller_start_ticks is None else controller_start_ticks`
abbrev pub ticks_or_read : Host → ℤ → Option ℤ → Option ℤ
ticks_or_read host pid none = host.start_ticks pid
ticks_or_read host pid (some ticks) = some ticks

-- The checks that both begin with; the result is the profile and the start ticks.
unfoldable pub check_request : Host → Request → Outcome (ProfileId × ℤ)
check_request host q = outcome do
  reject (not (host.euid == 0)) not_root
  target ← need invalid_profile (profile q.requested)
  reject (is_empty q.operation_id) invalid_operation_id
  reject (not (is_ttl q.ttl)) invalid_ttl
  reject (is_negative q.state_generation) invalid_generation
  reject (not (is_kind q.operation_kind)) invalid_kind
  reject (not (is_capability q.operation_kind q.capability_sha256)) invalid_capability
  ticks ←
      need no_controller
        (ticks_or_read host (pid_or_own host q.controller_pid) q.controller_start_ticks)
  pure (target, ticks)

-- The reservation that is written for a request.
abbrev pub new_reservation : Host → Request → ProfileId → ℤ → ℤ → Reservation
new_reservation host q target ticks generation = record {
  profile_id = target;
  operation_id = q.operation_id;
  state_generation = generation;
  controller_pid = pid_or_own host q.controller_pid;
  controller_start_ticks = ticks;
  expires_at = plus host.write_time q.ttl;
  operation_kind = q.operation_kind;
  capability_sha256 = q.capability_sha256;
}

-- `_atomic_json(self.reservation_path, _reservation_payload(r))`, and r as the result
unfoldable pub publish : Host → Reservation → Exec Entry Reservation
publish host r = do atomic_json host (reservation_payload r); pure r

-- `reserve`
unfoldable pub reserve : Host → Request → Exec Entry Reservation
reserve host q = do
  checked ← lift (check_request host q)
  transaction host (publish host (new_reservation host q checked.0 checked.1 q.state_generation))

-- `current is not None and self._live(current)`
unfoldable pub is_taken : Host → Option Reservation → Bool
is_taken host none = false
is_taken host (some r) = live host r

-- What `generation_provider` returned, if there is one; a bool is refused.
unfoldable pub provided_generation : Option Value → ℤ → Outcome ℤ
provided_generation none generation = ok generation
provided_generation (some (int n)) generation =
    if is_negative n then err invalid_generation else ok n
provided_generation (some _) generation = err invalid_generation

-- `availability_check is not None and not availability_check()`; the argument is what it returns.
unfoldable pub is_unavailable : Option Bool → Bool
is_unavailable none = false
is_unavailable (some available) = not available

-- What `reserve_if_available` does under the lock, for a request with its checks done.
unfoldable pub reserve_locked :
    Host → Request → ProfileId × ℤ → Option Bool → Option Value → Exec Entry Reservation
reserve_locked host q checked available provided = do
  current ← λ entry. (read_for_admission entry, entry)
  reject (is_taken host current) already_live
  reject (is_unavailable available) precondition_failed
  generation ← lift (provided_generation provided q.state_generation)
  publish host (new_reservation host q checked.0 checked.1 generation)

-- `reserve_if_available`. The two callbacks stand for what they return inside the transaction.
unfoldable pub reserve_if_available :
    Host → Request → Option Bool → Option Value → Exec Entry Reservation
reserve_if_available host q available provided = do
  checked ← lift (check_request host q)
  transaction host (reserve_locked host q checked available provided)
