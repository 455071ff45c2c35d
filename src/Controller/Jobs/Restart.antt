-- ===== src/Controller/Jobs/Restart.antt =====
-- src/game_control/controller.py: what a restart of the controller leaves in its tables.
use helios_horizon.Common.{
  ℕ, zero, suc, ◌+◌, ◌≤◌, ◌<◌, String, ◌≡◌, ◌≢◌, ◌⊎◌, inl, inr, refl, Option, none, some, List, [],
  ◌∷◌, arith, if◌then◌else◌, Dict, get,
}
use helios_horizon.Controller.Database.{
  RequestRow, Confirmation, Job, JobState, accepted, running, succeeded, failed, other_state,
  BenchmarkRun, Db, bump_generation,
}
use helios_horizon.Controller.Replay.{Protocol, interrupt, interrupt_all, fail_pending}
use helios_horizon.Controller.Confirmations.{payload_of, consume_confirmation}
use helios_horizon.Controller.Confirmations.Single.{consume_confirmation-ok}
use helios_horizon.Controller.Jobs.{
  is_open, fail_job, fail_jobs, count_open, fail_runs, count_running, fail_benchmarks,
  bump_if_changed, mark_incomplete, restart_tables,
}

-- A job before and after a restart: what was accepted or running has failed now, and all else is
-- as it was.
abbrev pub Restarted : ℕ → Job → Job → Type 0
Restarted now j k =
    (((j.state ≡ accepted) ⊎ (j.state ≡ running))
      × (k ≡ record j { state = failed; finished_at = some now }))
    ⊎ ((j.state ≢ accepted) × (j.state ≢ running) × (k ≡ j))

-- Row by row.
abbrev pub AllRestarted : ℕ → List Job → List Job → Type 0
AllRestarted now [] [] = Unit
AllRestarted now (j ∷ js) (k ∷ ks) = Restarted now j k × AllRestarted now js ks
AllRestarted now _ _ = ⊥

fail_job-Restarted :
    (now : ℕ) (state : JobState) (j : Job) → j.state ≡ state → Restarted now j (fail_job now j)
unfolding fail_job is_open
fail_job-Restarted now accepted j e = inl (inl e, rw e refl)
fail_job-Restarted now running j e = inl (inr e, rw e refl)
fail_job-Restarted now succeeded j e = inr (λ h. cc, λ h. cc, rw e refl)
fail_job-Restarted now failed j e = inr (λ h. cc, λ h. cc, rw e refl)
fail_job-Restarted now (other_state text) j e = inr (λ h. cc, λ h. cc, rw e refl)

fail_jobs-AllRestarted : (now : ℕ) (jobs : List Job) → AllRestarted now jobs (fail_jobs now jobs)
unfolding fail_jobs
fail_jobs-AllRestarted now [] = tt
fail_jobs-AllRestarted now (job ∷ jobs) =
    (fail_job-Restarted now job.state job refl, fail_jobs-AllRestarted now jobs)

count_open-fail_jobs : (now : ℕ) (jobs : List Job) → count_open (fail_jobs now jobs) ≡ 0
unfolding count_open fail_jobs fail_job is_open
count_open-fail_jobs now [] = refl
count_open-fail_jobs now (job ∷ jobs) = ground (arith, count_open-fail_jobs now jobs)

fail_jobs-closed : (now : ℕ) (jobs : List Job) → count_open jobs ≡ 0 → fail_jobs now jobs ≡ jobs
unfolding count_open fail_jobs fail_job
fail_jobs-closed now [] h = refl
fail_jobs-closed now (job ∷ jobs) h = ground (arith, fail_jobs-closed now jobs)

count_running-fail_runs :
    (now : ℕ) (runs : List BenchmarkRun) → count_running (fail_runs now runs) ≡ 0
unfolding count_running fail_runs
count_running-fail_runs now [] = refl
count_running-fail_runs now (run ∷ runs) = ground (arith, count_running-fail_runs now runs)

fail_runs-closed :
    (now : ℕ) (runs : List BenchmarkRun) → count_running runs ≡ 0 → fail_runs now runs ≡ runs
unfolding count_running fail_runs
fail_runs-closed now [] h = refl
fail_runs-closed now (run ∷ runs) h = ground (arith, fail_runs-closed now runs)

-- How many benchmark runs are running.
abbrev pub running_benchmarks : Option (List BenchmarkRun) → ℕ
running_benchmarks runs = elim runs [ none ↦ 0 | some rows ↦ count_running rows ]

-- No request is pending.
unfoldable pub count_pending : Dict RequestRow → ℕ
count_pending [] = 0
count_pending ((id, row) ∷ rows) =
    let rest = count_pending rows in if row.pending then suc rest else rest

count_pending-interrupt_all :
    (p : Protocol) (rows : Dict RequestRow) → count_pending (interrupt_all p rows) ≡ 0
unfolding count_pending interrupt_all interrupt
count_pending-interrupt_all p [] = refl
count_pending-interrupt_all p ((id, row) ∷ rows) =
    ground (arith, count_pending-interrupt_all p rows)

-- The generation is all that a bump changes.
bump_if_changed-keeps :
    (n : ℕ) (db : Db)
    → ((bump_if_changed n db).jobs ≡ db.jobs)
      × ((bump_if_changed n db).benchmark_runs ≡ db.benchmark_runs)
      × ((bump_if_changed n db).requests ≡ db.requests)
      × ((bump_if_changed n db).confirmations ≡ db.confirmations)
      × (db.generation ≤ (bump_if_changed n db).generation)
unfolding bump_if_changed bump_generation
bump_if_changed-keeps zero db = ground arith
bump_if_changed-keeps (suc n) db = ground arith

fail_benchmarks-closes :
    (now : ℕ) (runs : Option (List BenchmarkRun))
    → let (runs', changed) = fail_benchmarks now runs in
      (changed ≡ running_benchmarks runs) × (running_benchmarks runs' ≡ 0)
unfolding fail_benchmarks
fail_benchmarks-closes now none = (refl, refl)
fail_benchmarks-closes now (some runs) = (refl, count_running-fail_runs now runs)

-- `mark_incomplete` fails every job that is accepted or running, with the time of the restart, and
-- leaves every other job as it is; after it no benchmark runs and no request is pending. The count
-- that it returns is that of the jobs and runs that it fails, and if there are none, it leaves the
-- jobs and the generation as they are.
pub mark_incomplete-closes :
    (p : Protocol) (now : ℕ) (db : Db)
    → let (changed, db') = mark_incomplete p now db in
      (changed ≡ count_open db.jobs + running_benchmarks db.benchmark_runs)
      × AllRestarted now db.jobs db'.jobs
      × (count_open db'.jobs ≡ 0)
      × (running_benchmarks db'.benchmark_runs ≡ 0)
      × (count_pending db'.requests ≡ 0)
      × (changed ≡ 0 → (db'.jobs ≡ db.jobs) × (db'.generation ≡ db.generation))
unfolding mark_incomplete fail_pending bump_if_changed
mark_incomplete-closes p now db =
    let (runs, changed_runs) = fail_benchmarks now db.benchmark_runs in
    let changed = count_open db.jobs + changed_runs in
    let failed =
      fail_pending p (record db { jobs = fail_jobs now db.jobs; benchmark_runs = runs }) in
    ground (
      arith,
      bump_if_changed-keeps changed failed,
      fail_benchmarks-closes now db.benchmark_runs,
      count_open-fail_jobs now db.jobs,
      fail_jobs-closed now db.jobs,
      fail_jobs-AllRestarted now db.jobs,
      count_pending-interrupt_all p db.requests,
    )

restart_tables-keeps :
    (p : Protocol) (now : ℕ) (db : Db)
    → ((restart_tables p now db).confirmations ≡ db.confirmations)
      × (db.generation < (restart_tables p now db).generation)
unfolding restart_tables mark_incomplete fail_pending bump_generation
restart_tables-keeps p now db =
    let (runs, changed_runs) = fail_benchmarks now db.benchmark_runs in
    let changed = count_open db.jobs + changed_runs in
    let failed =
      fail_pending p (record db { jobs = fail_jobs now db.jobs; benchmark_runs = runs }) in
    ground (arith, bump_if_changed-keeps changed failed)

-- A confirmation made before a restart, so of no later generation, is refused after it, at whatever
-- time and from whomever.
pub restart-refuses :
    (p : Protocol) (now later : ℕ) (actor action id text : String) (row : Confirmation) (db : Db)
    → get db.confirmations id ≡ some row
    → row.state_generation ≤ db.generation
    → (consume_confirmation later actor action id (restart_tables p now db)).0 ≢ payload_of text
restart-refuses p now later actor action id text row db here old h =
    let after = restart_tables p now db in
    let (kept, later_generation) = restart_tables-keeps p now db in
    let (row', here', good, marked) = consume_confirmation-ok later actor action id text after h in
    ground (arith, kept, later_generation, here, here', good.current, old)
