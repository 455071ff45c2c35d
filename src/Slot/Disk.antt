-- ===== src/Slot/Disk.antt =====
-- src/game_control/slot.py: the reservation file, its lock, and what an operation reads of the
-- host.
use Prim.Native.Nat.{bit_and}
use helios_horizon.Common.{
  ℕ, String, Bool, true, false, ◌&&◌, ◌||◌, Option, none, some, ◌==◌, str_eq, if◌then◌else◌, ℤ,
  Dict,
}
use helios_horizon.Slot.Values.{Value}
use helios_horizon.Slot.Exec.{unsafe_lock, os_error, Outcome, ok, err, Exec, continue}

-- os.stat_result
pub record Stat : Type 0 where
  pub is_symlink : Bool
  pub is_regular : Bool
  pub nlink : ℕ
  pub uid : ℕ
  pub gid : ℕ
  pub mode : ℕ
  pub size : ℕ

-- What `json.loads` makes of a file's text: an object, or anything else, decoding errors included.
pub data Document : Type 0 where
  object : Dict Value → Document
  unreadable : Document

-- What stands at the path of a file: nothing, a symbolic link to nothing, a name that `lstat` and
-- the other calls may not look at, or a file (through a link, if `is_symlink`).
pub data Entry : Type 0 where
  missing dangling unavailable : Entry
  file : Stat → Document → Entry

-- `_read_json`
unfoldable pub read_json : Entry → Option (Dict Value)
read_json (file info (object fields)) = some fields
read_json _ = none

-- How the calls of `_atomic_json` end: all done, an OSError before `os.replace` has put the new
-- file in place, or one after it (the directory's `fsync`).
pub data WriteEnd : Type 0 where
  written failed_before failed_after : WriteEnd

-- What an operation reads of its process and its host. `check_time` is the clock as `_live` reads
-- it, `write_time` the later reading for a new expiry; `start_ticks` is `proc_start_ticks`.
pub record Host : Type 0 where
  pub euid : ℕ
  pub egid : ℕ
  pub pid : ℤ
  pub start_ticks : ℤ → Option ℤ
  pub check_time : ℤ
  pub write_time : ℤ
  pub operation_path : String
  pub lock_file : Option Stat
  pub gameslot_gid : Option ℕ
  pub write_end : WriteEnd
  pub unlink_fails : Bool
  pub encoded_size : Dict Value → ℕ

abbrev slot_lock : String
slot_lock = "/run/game-control/slot.lock"

abbrev operation_lock : String
operation_lock = "/run/game-control/operation.lock"

is_root_gameslot : ℕ → Stat → Bool
is_root_gameslot gid info =
    info.is_regular && info.uid == 0 && info.gid == gid && info.mode == 0o660 && info.nlink == 1

is_root_secure : Stat → Bool
is_root_secure info =
    info.is_regular
    && info.uid == 0
    && bit_and info.mode 0o002 == 0
    && bit_and info.mode 0o600 == 0o600

-- `_lock_open`: the checks on the opened lock file. `none` is a failing `os.open`.
unfoldable pub lock_open : Host → Outcome (Unit {0})
unfolding is_root_gameslot is_root_secure
lock_open host = elim host.lock_file [
  | none ↦ err os_error
  | some info ↦
      if str_eq host.operation_path slot_lock || str_eq host.operation_path operation_lock
      then elim host.gameslot_gid [
        | none ↦ err unsafe_lock
        | some gid ↦ if is_root_gameslot gid info then ok tt else err unsafe_lock
      ]
      else if is_root_secure info
      then ok tt
      else err unsafe_lock
]

-- `with operation_transaction(path)`: the body runs alone, under the exclusive lock, or not at all.
abbrev pub transaction : {A : Type 0} → Host → Exec Entry A → Exec Entry A
transaction host body entry = continue (lock_open host) (λ _. body) entry

-- The file that `_atomic_json` puts in place: mode 0644, owned by root if root writes it.
unfoldable pub new_file : Host → Dict Value → Entry
new_file host fields =
    file
      (record {
        is_symlink = false;
        is_regular = true;
        nlink = 1;
        uid = host.euid;
        gid = if host.euid == 0 then 0 else host.egid;
        mode = 0o644;
        size = host.encoded_size fields;
      })
      (object fields)

-- `_atomic_json`
unfoldable pub atomic_json : Host → Dict Value → Exec Entry (Unit {0})
atomic_json host fields entry = elim host.write_end [
  | written ↦ (ok tt, new_file host fields)
  | failed_before ↦ (err os_error, entry)
  | failed_after ↦ (err os_error, new_file host fields)
]

-- `self.reservation_path.unlink(missing_ok=True)`
unfoldable pub unlink : Host → Exec Entry (Unit {0})
unlink host entry = if host.unlink_fails then (err os_error, entry) else (ok tt, missing)
