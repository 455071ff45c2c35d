-- ===== src/Lib.antt =====
-- Helios Horizon runs several game servers on one machine, of which one at a time may hold the game
-- slot. This library is a model of the parts that decide who may run, and of the tables that make a
-- request, a confirmation and a job happen once.
--
-- The program. The controller, a root process (src/game_control/controller.py), receives requests
-- over a socket. A request that changes something is claimed by its id in a table, dispatched, and
-- its response is stored for repeats. A dangerous action is prepared first, which makes a
-- confirmation, and confirmed later. Each operation is a job with a row of its own. Before a server
-- starts, the controller takes the slot: it writes the reservation file, under a lock on another
-- file, through ReservationStore (src/game_control/slot.py). Updaters and backups take the same
-- file, runners of game servers read it to learn whether they may start, and the status page asks
-- SlotInspector. Servers that nobody plays on are stopped (src/game_control/idle_stop.py). Apart
-- from these, a tool proposes which archives on the laptop may go
-- (ops/laptop-backup/retention_plan.py).
--
-- Files, and what they model:
--   Common        shared names, tests on numbers, integers, lists and dictionaries
--   Program       programs over a state that may raise: try, finally, loops
--     Rules, Keeping, Loops, Branches: where they lead and what they keep
--   Slot          src/game_control/slot.py
--     Values      ProfileId of src/game_control/models.py, times, and the values of a JSON object
--     Record      Reservation, _reservation_from_json, _reservation_payload
--     Exec, Disk  failures, the file at the reservation's path, its lock, _read_json, _atomic_json
--     Store       _live, read, _read_for_admission, reserve, reserve_if_available
--     Lease       release_if_owned and its locked form, owns_live, transfer_if_owned, renew_if_owned
--     Views       authorize_handoff, valid_for_runner, live_update, reconcile
--     Inspector   SlotInspector
--     RoundTrip, Granting, Holding, Exclusion, Renewal, Handoff: the proofs
--   Controller    src/game_control/controller.py
--     Database    the tables, from src/game_control/state_db.py, _bump_generation, _audit
--     Replay      _claim_request, _store_replay, _wait_for_replay, _execute, and the part of
--                 reconcile_startup that answers interrupted requests;
--                 prune_completed_rpc_idempotency of src/game_control/state_db.py
--     Confirmations  _create_confirmation, _consume_confirmation
--     Jobs        _job_intent, _finish, mark_incomplete of reconcile_startup, _resume_profile_id
--     Replay/Once, Replay/Execute, Replay/Waiting, Confirmations/Single, Jobs/Restart,
--     Jobs/Resume: the proofs
--     Lifecycle   the handlers of start, stop, restart, forced stop and switch
--       Script    their exceptions, what they do to the world, their local variables
--       Leases    _reserve, _assert_lease, _await_lease, _release_lease, _wait_for_free_slot,
--                 _probe_start_health, _record_audit, _require_operation, the job's row
--       Start     _start, _cleanup_failed_start
--       Stop      _fresh_stop_preflight, _acquire_stop_fence, _stop_with_fence, _stop, _restart,
--                 _confirm_force_stop
--       Switch    _confirm_switch, _start_with_free_retry
--       Prepare   _prepare_switch, _prepare_force_stop
--       Guarded, Holding, Starts, Stops, Switching, Releasing, Targets, Rollbacks,
--                 Switches: the proofs
--   IdleStop      src/game_control/idle_stop.py: IdleStopTracker
--     Streaks     the proofs
--   Retention     ops/laptop-backup/retention_plan.py: the inventory and its refusals
--     Plan        the rest of build_plan
--     Eligible, Complete, Newest: the proofs
--   Schedule      src/game_control/schedule.py: ScheduleEntry.matches, _find_next_fire, ScheduleBook
--     Search, Days, First, Once: the proofs
--   Readiness     src/game_control/health.py: ReadinessCoordinator
--     Store, Notified, Final: the proofs
--   Rcon          src/game_control/rcon.py: the client of the console of Minecraft
--     Packets     _packet, _read_packet
--     Client      RconClient: _next_id, execute
--     RoundTrip, Conversations, Answers: the proofs
--   Retirement    src/game_control/retirement.py
--     Payloads    PayloadState, _TRANSITIONS, _PHASE_RESUMABLE, the identity of a payload, paths
--     Ledger      ledger_rows, blocking_backup_ids, ledger_write
--     World       the manifest, the plan, the state, and the answers of the rest of the world
--     Steps       _assert_catalog_eligible, _verify_payload, _absent, rename_noreplace, _row and the
--                 other steps of RetirementService
--     Loading     the checks of parse_manifest on a decoded manifest, receipt_digest
--     Assertions  _assert_operation_binding, _assert_phase_admissible, _assert_receipt,
--                 _assert_preflight, _assert_purge_ready
--     Phases      quarantine, purge, rollback
--     Reports     availability_map, payload_state, _classify, reconcile, status
--     Rows, Places, Quiet, Moves, Writes, Others, Rounds, Entries, Quarantines, Moving, Purges,
--     Intents, Removals, Rollbacks, Restoring, Locked, Runs, Outcomes, Recovery, Classified,
--     Available: the proofs
-- In each part Examples has a concrete run for every theorem below that has a hypothesis.
--
-- How state and operations are modelled. A method of ReservationStore is a function from the entry
-- at the path to its result or failure and the entry afterwards (Exec). What it asks of the machine
-- is an argument (Host): the clock, the process table, the effective user, the lock file's status,
-- and how a write ends. A method of the controller is a function on the tables (Db), which are
-- written in one transaction at a time. Interleavings are lists of such steps. A JSON text is the
-- value it decodes to; the texts that a table keeps are opaque and read through a Protocol, a
-- parameter with the laws that its encoding is not empty and reads back. The rows of requests have
-- no time of creation: which ones a pruning finds too old is an argument. The id of a new
-- confirmation is one that no row has. A lifecycle handler is a function from the tables, the calls
-- made so far and its local variables (Frame) to its result or exception and these afterwards
-- (Script); `except` and `finally` clauses are functions of the exception and of whether there is
-- one. What it does outside the tables is noted as a Call, and what the world answers to it is a
-- function of the number of the call (Env). The reservation store and the slot inspector are there,
-- and the database does not fail. The store may raise in a release, and after it has published a
-- lease; the lease may then stay in the store until it expires. The store reserves, transfers and
-- releases or fails, as Slot.Store and Slot.Lease do; the renewal of the lease is seen where a
-- handler looks at it. The entries of ReadinessCoordinator are cells of a store, since a waiter
-- keeps the one that it has looked up; its profile keys are those of ProfileId. A call of the RCON
-- client is a function of what the server says, as a list of bytes, of which waits fail, and of the
-- session so far; the codec of UTF-8 is a parameter, and a str with a lone surrogate is no text
-- here. An inventory of archives is a record of what the readers of retention_plan.py make of a
-- JSON document.
--
-- A phase of a retirement is a function from the ledger, the disk and a count of what was asked and
-- done so far to its result or exception and these afterwards. Every effect on the ledger or the
-- disk may end the phase, without the effect or after it, by a Mishap of Env; so the theorems hold
-- for a process that is killed anywhere. A file is what lstat tells of it with its digest, a path
-- is the archive path or the quarantine path of a backup, and profiles have different backup roots.
-- The manifest of a phase is what load_manifest returns, a parameter. Nothing else changes the two
-- paths of an entry, and one operation at a time has the payload. The lists of a report are in the
-- order of the ledger.
--
-- A schedule's times are whole minutes, and the calendar that gives the month, the day and the
-- weekday of a day is a parameter.
--
-- Bounds. Integers of Python are unbounded here too; the generation, which SQLite keeps in 32 bits,
-- is taken to stay below 2^31. Times of the slot are whole ticks of 2^-22 seconds, the step of a
-- double at today's Unix times, or no number at all; sums of ticks are exact. Times of the
-- controller are microseconds. The loop of _wait_for_replay runs at most the 1000 rounds that the
-- source gives it. The search of a schedule goes through the days whose midnight is not after its
-- endpoint. There is no other fuel.
--
-- Not modelled: the text of SQL and JSON, the hash functions (a parameter where the code uses
-- them), the readers of the inventory and the digests of the plan, sockets, the game servers, the
-- texts of failures and of audit details, and the other modules of src/game_control: backups,
-- updates, sessions, telemetry, benchmarks, alerts and the web server; the parsing of a schedule,
-- the probes of health.py, the renewal of a lease as a task of its own, and of retirement.py the
-- manifest's text and formats, `prepare`, and the trust in directories.
pub mod Common
pub mod Program
pub mod Slot
pub mod Controller
pub mod IdleStop
pub mod Retention
pub mod Rcon
pub mod Readiness
pub mod Schedule
pub mod Retirement
