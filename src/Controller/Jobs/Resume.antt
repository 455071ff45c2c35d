-- ===== src/Controller/Jobs/Resume.antt =====
-- src/game_control/controller.py: what the job that is finished last leaves to be resumed.
use helios_horizon.Common.{
  ℕ, ◌+◌, ◌<◌, String, ◌≡◌, refl, ◌⊎◌, inl, inr, true, false, Bool-cases, none, some, List, [], ◌∷◌,
  arith, str_eq, if◌then◌else◌,
}
use helios_horizon.Slot.Values.{profile_of_text}
use helios_horizon.Controller.Database.{Job, JobState, succeeded, Db, audit, bump_generation}
use helios_horizon.Controller.Jobs.{
  seq, max_seq, finish_row, finish_rows, finish, is_start, is_lifecycle, is_succeeded, is_outcome,
  has_unnumbered, latest, resume_profile_id, is_configured,
}

-- No job has the id.
pub data IsFresh (id : String) : List Job → Type 0 where
  none_left : IsFresh id []
  skip :
      (job : Job) (jobs : List Job)
      → str_eq job.id id ≡ false
      → IsFresh id jobs
      → IsFresh id (job ∷ jobs)

-- One job has the id, which is the key of the table, and it is the given one.
pub data IsJob (id : String) (given : Job) : List Job → Type 0 where
  here :
      (jobs : List Job)
      → str_eq given.id id ≡ true
      → IsFresh id jobs
      → IsJob id given (given ∷ jobs)
  there :
      (job : Job) (jobs : List Job)
      → str_eq job.id id ≡ false
      → IsJob id given jobs
      → IsJob id given (job ∷ jobs)

finish_rows-IsFresh :
    (now m : ℕ) (id : String) (state : JobState) (jobs : List Job)
    → IsFresh id jobs
    → finish_rows now id state m jobs ≡ jobs
unfolding finish_rows finish_row
finish_rows-IsFresh now m id state _ none_left = refl
finish_rows-IsFresh now m id state _ (skip job jobs other fresh) =
    ground (arith, finish_rows-IsFresh now m id state jobs fresh)

-- The jobs before a completion number have smaller ones.
latest-below :
    (m : ℕ) (jobs : List Job)
    → max_seq jobs < m
    → (latest jobs ≡ none) ⊎ ((k : Job) × (latest jobs ≡ some k) × (seq k < m))
unfolding latest max_seq
latest-below m [] h = inl refl
latest-below m (job ∷ jobs) h = elim (Bool-cases (is_outcome job)) [
  | inl outcome ↦ ground (arith, latest-below m jobs)
  | inr other ↦ ground (arith, latest-below m jobs)
]

-- The row of a job that is closed as succeeded.
abbrev pub closed : ℕ → ℕ → Job → Job
closed now m job = record job { state = succeeded; finished_at = some now; completion_seq = some m }

latest-finish_rows :
    (now m : ℕ) (id : String) (given : Job) (jobs : List Job)
    → IsJob id given jobs
    → is_outcome (closed now m given) ≡ true
    → max_seq jobs < m
    → latest (finish_rows now id succeeded m jobs) ≡ some (closed now m given)
unfolding latest max_seq finish_rows finish_row
latest-finish_rows now m id given _ (here jobs same fresh) outcome h =
    ground (arith, finish_rows-IsFresh now m id succeeded jobs fresh, latest-below m jobs)
latest-finish_rows now m id given _ (there job jobs other rest) outcome h =
    ground (arith, latest-finish_rows now m id given jobs rest outcome)

-- Closing a job numbers it.
has_unnumbered-finish_rows :
    (now m : ℕ) (id : String) (state : JobState) (jobs : List Job)
    → has_unnumbered jobs ≡ false
    → has_unnumbered (finish_rows now id state m jobs) ≡ false
unfolding has_unnumbered finish_rows finish_row
has_unnumbered-finish_rows now m id state [] h = refl
has_unnumbered-finish_rows now m id state (job ∷ jobs) h = elim (Bool-cases (str_eq job.id id)) [
  | inl same ↦ ground (arith, has_unnumbered-finish_rows now m id state jobs)
  | inr other ↦ ground (arith, has_unnumbered-finish_rows now m id state jobs)
]

outcome-closed :
    (now m : ℕ) (text : String) (given : Job)
    → is_lifecycle given.operation ≡ true
    → given.profile_id ≡ some text
    → is_outcome (closed now m given) ≡ true
unfolding is_outcome is_succeeded
outcome-closed now m text given lifecycle profile = ground arith

-- If no boot profile is configured and every lifecycle operation that succeeded before has its
-- completion number, then after a lifecycle operation on a profile is closed as succeeded, the
-- controller resumes that profile if the operation was a start or a switch, and none if it was a
-- stop.
pub resume-finish :
    (now : ℕ) (boot id actor text : String) (given : Job) (db : Db)
    → is_configured boot ≡ false
    → IsJob id given db.jobs
    → is_lifecycle given.operation ≡ true
    → given.profile_id ≡ some text
    → has_unnumbered db.jobs ≡ false
    → resume_profile_id boot
        (finish now id actor given.operation given.profile_id true none none db)
      ≡ (if is_start given.operation then profile_of_text text else none)
unfolding finish bump_generation audit resume_profile_id
resume-finish now boot id actor text given db automatic job lifecycle profile numbered =
    let m = max_seq db.jobs + 1 in
    ground (
      arith,
      has_unnumbered-finish_rows now m id succeeded db.jobs numbered,
      latest-finish_rows now m id given db.jobs job
          (outcome-closed now m text given lifecycle profile),
    )
