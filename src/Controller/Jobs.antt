-- ===== src/Controller/Jobs.antt =====
-- src/game_control/controller.py: the rows of jobs. An operation opens its job, closes it with the
-- next completion number, and a restart of the controller fails what it left open and looks up what
-- to resume.
pub mod Restart
pub mod Resume
use helios_horizon.Common.{
  ℕ, zero, suc, ◌+◌, ◌<◌, String, Bool, true, false, not, ◌&&◌, ◌||◌, Option, none, some, List, [],
  ◌∷◌, ◌++◌, map, leb, ltb, str_eq, if◌then◌else◌, length,
}
use helios_horizon.Slot.Values.{ProfileId, profile_of_text}
use helios_horizon.Controller.Database.{
  Job, JobState, accepted, running, succeeded, failed, BenchmarkRun, ErrorCode, Db, audit,
  bump_generation,
}
use helios_horizon.Controller.Replay.{Protocol, fail_pending}

-- `_job_intent`, with the new id from `uuid4`
unfoldable pub job_intent : ℕ → String → String → String → Option String → Db → Db
job_intent now id actor action profile_id db =
    let job : Job = record {
      id = id;
      profile_id = profile_id;
      operation = action;
      state = accepted;
      finished_at = none;
      completion_seq = none;
    } in
    audit now actor action profile_id "accepted" none (record db { jobs = db.jobs ++ job ∷ [] })

-- NULL counts as 0, which no job is given.
abbrev pub seq : Job → ℕ
seq job = elim job.completion_seq [ none ↦ 0 | some n ↦ n ]

-- `COALESCE(MAX(completion_seq), 0)`
unfoldable pub max_seq : List Job → ℕ
max_seq [] = 0
max_seq (job ∷ jobs) = let rest = max_seq jobs in if leb rest (seq job) then seq job else rest

unfoldable pub finish_row : ℕ → String → JobState → ℕ → Job → Job
finish_row now id state n job =
    if str_eq job.id id
    then record job { state = state; finished_at = some now; completion_seq = some n }
    else job

unfoldable pub finish_rows : ℕ → String → JobState → ℕ → List Job → List Job
finish_rows now id state n [] = []
finish_rows now id state n (job ∷ jobs) =
    finish_row now id state n job ∷ finish_rows now id state n jobs

abbrev pub final_state : Option JobState → Bool → JobState
final_state (some state) ok = state
final_state none true = succeeded
final_state none false = failed

abbrev pub audit_result : Bool → String
audit_result true = "succeeded"
audit_result false = "failed"

-- `_finish`
unfoldable pub finish :
    ℕ
    → String
    → String
    → String
    → Option String
    → Bool
    → Option ErrorCode
    → Option JobState
    → Db
    → Db
finish now id actor action profile_id ok code state db = bump_generation (
    audit now actor action profile_id (audit_result ok) code (record db {
      jobs = finish_rows now id (final_state state ok) (max_seq db.jobs + 1) db.jobs;
    }))

unfoldable pub is_open : JobState → Bool
is_open accepted = true
is_open running = true
is_open _ = false

unfoldable pub fail_job : ℕ → Job → Job
fail_job now job =
    if is_open job.state then record job { state = failed; finished_at = some now } else job

unfoldable pub fail_jobs : ℕ → List Job → List Job
fail_jobs now [] = []
fail_jobs now (job ∷ jobs) = fail_job now job ∷ fail_jobs now jobs

unfoldable pub count_open : List Job → ℕ
count_open [] = 0
count_open (job ∷ jobs) = let rest = count_open jobs in if is_open job.state then suc rest else rest

abbrev pub fail_run : ℕ → BenchmarkRun → BenchmarkRun
fail_run now run =
    if run.is_running
    then record {
      is_running = false;
      finished_at = some now;
      error_code = some "controller_restarted";
    }
    else run

unfoldable pub fail_runs : ℕ → List BenchmarkRun → List BenchmarkRun
fail_runs now [] = []
fail_runs now (run ∷ runs) = fail_run now run ∷ fail_runs now runs

unfoldable pub count_running : List BenchmarkRun → ℕ
count_running [] = 0
count_running (run ∷ runs) =
    let rest = count_running runs in if run.is_running then suc rest else rest

unfoldable pub fail_benchmarks : ℕ → Option (List BenchmarkRun) → Option (List BenchmarkRun) × ℕ
fail_benchmarks now none = (none, 0)
fail_benchmarks now (some runs) = (some (fail_runs now runs), count_running runs)

unfoldable pub bump_if_changed : ℕ → Db → Db
bump_if_changed zero db = db
bump_if_changed (suc n) db = bump_generation db

-- `mark_incomplete` of `reconcile_startup`
unfoldable pub mark_incomplete : Protocol → ℕ → Db → ℕ × Db
mark_incomplete p now db =
    let (runs, changed_runs) = fail_benchmarks now db.benchmark_runs in
    let changed = count_open db.jobs + changed_runs in
    let db' = fail_pending p (record db { jobs = fail_jobs now db.jobs; benchmark_runs = runs }) in
    (changed, bump_if_changed changed db')

-- The operations that start or stop a server, and those of them that leave it running.
unfoldable pub is_start : String → Bool
is_start operation = str_eq operation "start" || str_eq operation "switch"

unfoldable pub is_lifecycle : String → Bool
is_lifecycle operation =
    is_start operation || str_eq operation "stop" || str_eq operation "force_stop"

unfoldable pub is_succeeded : JobState → Bool
is_succeeded succeeded = true
is_succeeded _ = false

abbrev pub is_none {ℓ} : {A : Type ℓ} → Option A → Bool
is_none none = true
is_none (some x) = false

-- A row that the second query of `_resume_profile_id` selects.
unfoldable pub is_outcome : Job → Bool
is_outcome job =
    is_lifecycle job.operation && is_succeeded job.state && not (is_none job.profile_id)

-- `SELECT 1 ... completion_seq IS NULL LIMIT 1`
unfoldable pub has_unnumbered : List Job → Bool
has_unnumbered [] = false
has_unnumbered (job ∷ jobs) =
    (is_lifecycle job.operation && is_succeeded job.state && is_none job.completion_seq)
    || has_unnumbered jobs

-- `ORDER BY completion_seq DESC LIMIT 1`
unfoldable pub latest : List Job → Option Job
latest [] = none
latest (job ∷ jobs) =
    let rest = latest jobs in
    if is_outcome job
    then elim rest [
      | none ↦ some job
      | some other ↦ if leb (seq other) (seq job) then some job else some other
    ]
    else rest

abbrev pub profile_to_resume : Option Job → Option ProfileId
profile_to_resume none = none
profile_to_resume (some job) =
    if is_start job.operation
    then elim job.profile_id [ none ↦ none | some text ↦ profile_of_text text ]
    else none

abbrev pub is_configured : String → Bool
is_configured boot_profile = not (
    str_eq boot_profile ""
    || str_eq boot_profile "resume"
    || str_eq boot_profile "resume-last-active")

-- `_resume_profile_id`
unfoldable pub resume_profile_id : String → Db → Option ProfileId
resume_profile_id boot_profile db =
    if is_configured boot_profile
    then profile_of_text boot_profile
    else if has_unnumbered db.jobs
    then none
    else profile_to_resume (latest db.jobs)

-- The tables after `reconcile_startup`: `mark_incomplete` and the last transaction. What is between
-- them writes no table, unless a profile is started at boot.
unfoldable pub restart_tables : Protocol → ℕ → Db → Db
restart_tables p now db = bump_generation (mark_incomplete p now db).1
