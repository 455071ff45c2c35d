-- ===== src/Controller/Examples.antt =====
-- A request to start Minecraft that is repeated across a restart, and its confirmation.
use helios_horizon.Common.{
  ℕ, ◌+◌, ◌≤◌, String, ◌≡◌, ◌≢◌, refl, true, false, Option, none, some, List, [], ◌∷◌, arith,
  str_eq, if◌then◌else◌, get,
}
use helios_horizon.Slot.Values.{profile_of_text}
use helios_horizon.Controller.Database.{Confirmation, Job, running, Db}
use helios_horizon.Controller.Jobs.{
  is_start, is_lifecycle, is_succeeded, has_unnumbered, finish, resume_profile_id, count_open,
  mark_incomplete,
}
use helios_horizon.Controller.Jobs.Resume.{none_left, here, resume-finish}
use helios_horizon.Controller.Jobs.Restart.{
  AllRestarted, running_benchmarks, count_pending, mark_incomplete-closes,
}
use helios_horizon.Controller.Replay.{Protocol, Serialises, claim_request, execute}
use helios_horizon.Controller.Replay.Once.{
  Event, claim, store, restart, prune, removals, grants, at_most_one_grant,
}
use helios_horizon.Controller.Replay.Execute.{execute_once}
use helios_horizon.Controller.Confirmations.{create_confirmation, payload_of, consume_confirmation}
use helios_horizon.Controller.Confirmations.Single.{confirm_once}

data Answer : Type 0 where
  accepted conflict unavailable busy interrupted_by_restart : Answer

abbrev answer_text : Answer → String
answer_text accepted = "accepted"
answer_text conflict = "conflict"
answer_text unavailable = "unavailable"
answer_text busy = "busy"
answer_text interrupted_by_restart = "interrupted"

abbrev answer_of : String → Option Answer
answer_of t =
    if str_eq t "accepted"
    then some accepted
    else if str_eq t "conflict"
    then some conflict
    else if str_eq t "unavailable"
    then some unavailable
    else if str_eq t "busy"
    then some busy
    else if str_eq t "interrupted"
    then some interrupted_by_restart
    else none

abbrev answers : Protocol
answers = record {
  Response = Answer;
  id_conflict = λ _. conflict;
  stored_unavailable = λ _. unavailable;
  in_progress = λ _. busy;
  interrupted = λ _. interrupted_by_restart;
  encode = answer_text;
  decode = answer_of;
}

answer_text-ne_empty : (a : Answer) → str_eq (answer_text a) "" ≡ false
answer_text-ne_empty accepted = refl
answer_text-ne_empty conflict = refl
answer_text-ne_empty unavailable = refl
answer_text-ne_empty busy = refl
answer_text-ne_empty interrupted_by_restart = refl

answer_of-answer_text : (a : Answer) → answer_of (answer_text a) ≡ some a
answer_of-answer_text accepted = refl
answer_of-answer_text conflict = refl
answer_of-answer_text unavailable = refl
answer_of-answer_text busy = refl
answer_of-answer_text interrupted_by_restart = refl

abbrev answers_Serialises : Serialises answers
answers_Serialises = record {
  encode-ne_empty = answer_text-ne_empty;
  decode-encode = answer_of-answer_text;
}

abbrev empty_db : Db
empty_db = record {
  requests = [];
  confirmations = [];
  jobs = [];
  benchmark_runs = none;
  audit_rows = [];
  generation = 7;
}

-- Two processes claim the request, the first one stores, the controller restarts, and the row is
-- pruned once it is too old.
abbrev events : List (Event Answer)
events =
    claim "r1" "start"
    ∷ claim "r1" "start"
    ∷ store "r1" "start" accepted
    ∷ restart
    ∷ claim "r1" "stop"
    ∷ prune (λ id. true)
    ∷ claim "r1" "start"
    ∷ []

at_most_one_grant_example :
    grants answers "r1" events empty_db ≤ 1 + removals answers "r1" events empty_db
at_most_one_grant_example = at_most_one_grant answers "r1" events empty_db

abbrev completed_db : Db
completed_db = record empty_db {
  requests = ("r1", record { canonical = "start"; response = "accepted"; pending = false }) ∷ [];
}

-- A handler that counts its calls.
abbrev counting : Db × ℕ → Answer × Db × ℕ
counting (db, n) = (accepted, db, n + 1)

abbrev no_change : ℕ → Db → Db
no_change n db = db

execute_once_example :
    let (r, db', w') = execute answers counting no_change "r2" "start" completed_db 0 in
    (w' ≡ (counting ((claim_request answers "r2" "start" completed_db).1, 0)).2)
    × (execute answers counting no_change "r2" "stop" db' w'
        ≡ ((if str_eq "start" "stop" then r else conflict), db', w'))
unfolding get
execute_once_example =
    execute_once answers answers_Serialises counting (λ s id. refl) no_change "r2" "start" "stop"
      completed_db 0 refl

-- The request is pending, and the first claimant completes it during the first sleep.
abbrev pending_db : Db
pending_db = record empty_db {
  requests = ("r1", record { canonical = "start"; response = ""; pending = true }) ∷ [];
}

abbrev completing : ℕ → Db → Db
completing n db = completed_db

abbrev stop_row : Confirmation
stop_row = record {
  actor = "admin";
  action = "force_stop";
  profile_id = "minecraft";
  payload = "{}";
  expires_at = 300000100;
  consumed_at = none;
  state_generation = 7;
}

abbrev stop_db : Db
stop_db = record empty_db { confirmations = ("c1", stop_row) ∷ [] }

confirm_once_example :
    let created =
      create_confirmation 100 "c2" "admin" "force_stop" "minecraft" "{}" stop_db.generation
        stop_db in
    let (first, after) = consume_confirmation 200 "admin" "force_stop" "c2" created in
    (first ≡ payload_of "{}")
    × ((text : String)
        → (consume_confirmation 300 "admin" "force_stop" "c2" after).0 ≢ payload_of text)
confirm_once_example =
    confirm_once 100 200 300 "c2" "admin" "force_stop" "minecraft" "{}" "admin" "force_stop" stop_db
      (omega arith)

abbrev start_job : Job
start_job = record {
  id = "j1";
  profile_id = some "minecraft";
  operation = "start";
  state = running;
  finished_at = none;
  completion_seq = none;
}

-- A start and a benchmark that are running.
abbrev busy_db : Db
busy_db = record stop_db {
  jobs = start_job ∷ [];
  benchmark_runs = some (record { is_running = true; finished_at = none; error_code = none } ∷ []);
}

resume-finish_example :
    resume_profile_id "resume"
      (finish 400 "j1" "admin" "start" (some "minecraft") true none none busy_db)
    ≡ (if is_start "start" then profile_of_text "minecraft" else none)
unfolding is_lifecycle is_start has_unnumbered is_succeeded
resume-finish_example =
    resume-finish 400 "resume" "j1" "admin" "minecraft" start_job busy_db refl
      (here [] refl none_left) refl refl refl

mark_incomplete-closes_example :
    let (changed, db') = mark_incomplete answers 500 busy_db in
    (changed ≡ count_open busy_db.jobs + running_benchmarks busy_db.benchmark_runs)
    × AllRestarted 500 busy_db.jobs db'.jobs
    × (count_open db'.jobs ≡ 0)
    × (running_benchmarks db'.benchmark_runs ≡ 0)
    × (count_pending db'.requests ≡ 0)
    × (changed ≡ 0 → (db'.jobs ≡ busy_db.jobs) × (db'.generation ≡ busy_db.generation))
mark_incomplete-closes_example = mark_incomplete-closes answers 500 busy_db
