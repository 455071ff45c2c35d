-- ===== src/Controller/Lifecycle/Guarded.antt =====
-- Servers are started and stopped under a lease of the game slot only: what that says of the calls
-- of a handler, and that the parts of the handlers of src/game_control/controller.py keep it.
use helios_horizon.Common.{
  ◌+◌, String, ◌≡◌, ◌∙◌, ◌⊎◌, inl, inr, Bool-cases, refl, Bool, true, false, not, ◌&&◌, Option,
  none, some, List, [], ◌∷◌, str_eq, if◌then◌else◌, ◌==◌,
}
use helios_horizon.Slot.Values.{ProfileId, same_profile}
use helios_horizon.Controller.Database.{Db, ErrorCode}
use helios_horizon.Controller.Lifecycle.Script.{
  Fault, Lease, ServerAction, start, Call, reserved, released, not_released, left_behind,
  transferred, served, backed_up, waited_free, probed, hinted, event_recorded, asserted, Profile,
  Env, Frame, log, Awaited, work_done, work_raised, renewal_first,
}
use helios_horizon.Controller.Lifecycle.Leases.{
  cleared, write_audit, record_event, found, finish_job, get_profile, require_operation, open_job,
  close_job, assert_lease, settle, await_lease, serve, wait_for_free_slot, probe_start_health,
  installed_version_hint,
}
use helios_horizon.Program.Rules.{Leads, Keeps, Leads-read, Leads-modify}
use helios_horizon.Program.Keeping.{
  Keeps-then, Keeps-raise_if, Keeps-pure, Keeps-raise, Keeps-if, keeps_rules,
}

abbrev pub same_lease : Lease → Option Lease → Bool
same_lease l none = false
same_lease l (some m) =
    same_profile l.profile m.profile && str_eq l.id m.id && l.generation == m.generation

-- The lease that the calls leave the handler with: reserved or transferred, and its release not
-- asked for since.
unfoldable pub open_lease : List Call → Option Lease
open_lease [] = none
open_lease (reserved l ∷ calls) = some l
open_lease (transferred l given ∷ calls) = some given
open_lease (released l ∷ calls) =
    let rest = open_lease calls in if same_lease l rest then none else rest
open_lease (not_released l ∷ calls) =
    let rest = open_lease calls in if same_lease l rest then none else rest
open_lease (call ∷ calls) = open_lease calls

-- The lease that the store has after the calls, as far as they tell.
unfoldable pub stored_lease : List Call → Option Lease
stored_lease [] = none
stored_lease (reserved l ∷ calls) = some l
stored_lease (left_behind l ∷ calls) = some l
stored_lease (transferred l given ∷ calls) = some given
stored_lease (released l ∷ calls) =
    let rest = stored_lease calls in if same_lease l rest then none else rest
stored_lease (call ∷ calls) = stored_lease calls

-- In some call the store raised in a release, or after it had published a lease.
unfoldable pub has_fault : List Call → Bool
has_fault [] = false
has_fault (not_released l ∷ calls) = true
has_fault (left_behind l ∷ calls) = true
has_fault (call ∷ calls) = has_fault calls

stored_lease-open :
    (calls : List Call) → has_fault calls ≡ false → stored_lease calls ≡ open_lease calls
unfolding stored_lease open_lease has_fault
stored_lease-open [] h = refl
stored_lease-open (reserved l ∷ calls) h = refl
stored_lease-open (left_behind l ∷ calls) h = cc
stored_lease-open (not_released l ∷ calls) h = cc
stored_lease-open (transferred l given ∷ calls) h = refl
stored_lease-open (released l ∷ calls) h = rw (stored_lease-open calls h) refl
stored_lease-open (call ∷ calls) h = stored_lease-open calls h

-- Where no lease is open, the store has none, unless it raised.
pub open_lease-stored :
    (calls : List Call)
    → open_lease calls ≡ none
    → (stored_lease calls ≡ none) ⊎ (has_fault calls ≡ true)
open_lease-stored calls h = elim (Bool-cases (has_fault calls)) [
  | inl t ↦ inr t
  | inr t ↦ inl (stored_lease-open calls t ∙ h)
]

abbrev pub is_held : Option Lease → Bool
is_held none = false
is_held (some l) = true

abbrev pub is_held_for : ProfileId → Option Lease → Bool
is_held_for p none = false
is_held_for p (some l) = same_profile l.profile p

-- A server is started under the lease of its own profile, and stopped or backed up under some
-- lease; and no lease is taken while one is held.
unfoldable pub is_allowed : Call → Option Lease → Bool
is_allowed (served start p) held = is_held_for p held
is_allowed (served action p) held = is_held held
is_allowed (backed_up p) held = is_held held
is_allowed (reserved l) held = not (is_held held)
is_allowed (transferred l given) held = same_lease l held
is_allowed call held = true

-- Each call was allowed when it was made.
unfoldable pub is_guarded : List Call → Bool
is_guarded [] = true
is_guarded (call ∷ calls) = is_allowed call (open_lease calls) && is_guarded calls

-- The calls that need no lease and change none.
unfoldable pub is_quiet : Call → Bool
is_quiet (reserved l) = false
is_quiet (released l) = false
is_quiet (not_released l) = false
is_quiet (transferred l given) = false
is_quiet (served action p) = false
is_quiet (backed_up p) = false
is_quiet call = true

pub quiet-open_lease :
    (call : Call) (calls : List Call)
    → is_quiet call ≡ true
    → open_lease (call ∷ calls) ≡ open_lease calls
unfolding is_quiet open_lease
quiet-open_lease (reserved l) calls h = cc
quiet-open_lease (released l) calls h = cc
quiet-open_lease (not_released l) calls h = cc
quiet-open_lease (transferred l given) calls h = cc
quiet-open_lease call calls h = refl

pub quiet-is_guarded :
    (call : Call) (calls : List Call)
    → is_quiet call ≡ true
    → is_guarded (call ∷ calls) ≡ is_guarded calls
unfolding is_quiet is_guarded is_allowed
quiet-is_guarded (reserved l) calls h = cc
quiet-is_guarded (transferred l given) calls h = cc
quiet-is_guarded (served action p) calls h = cc
quiet-is_guarded (backed_up p) calls h = cc
quiet-is_guarded call calls h = refl

-- To the handler, a release that raises is a release.
pub cleared-open_lease :
    (l : Lease) (e : Option Fault) (calls : List Call)
    → open_lease (cleared l e ∷ calls) ≡ open_lease (released l ∷ calls)
unfolding open_lease
cleared-open_lease l none calls = refl
cleared-open_lease l (some e) calls = refl

pub cleared-is_guarded :
    (l : Lease) (e : Option Fault) (calls : List Call)
    → is_guarded (cleared l e ∷ calls) ≡ is_guarded calls
unfolding is_guarded is_allowed
cleared-is_guarded l none calls = refl
cleared-is_guarded l (some e) calls = refl

-- What a quiet call, a write of the tables and the notes on the job and the attempt keep.
pub record IsStable (P : Frame → Type 0) : Type 0 where
  pub logged :
      (call : Call) (f : Frame)
      → is_quiet call ≡ true
      → P f
      → P (record f { calls = call ∷ f.calls; tick = f.tick + 1 })
  pub wrote : (db : Db) (f : Frame) → P f → P (record f { db = db })
  pub opened :
      (db : Db) (id : Option String) (f : Frame) → P f → P (record f { db = db; job_id = id })
  pub tried : (b : Bool) (f : Frame) → P f → P (record f { attempt = b })
  pub ended : (b : Bool) (f : Frame) → P f → P (record f { succeeded = b })

-- What is said of the open lease, the calls' guard and the leases of the handler is stable.
pub leases-IsStable :
    (B : Option Lease → Bool → Option Lease → Bool → Bool → Option Lease → Type 0)
    → IsStable (λ f.
      B (open_lease f.calls) (is_guarded f.calls) f.lease f.begun f.target_started f.rollback_lease)
leases-IsStable B = record {
  logged = λ call f quiet h.
      rw (quiet-open_lease call f.calls quiet, quiet-is_guarded call f.calls quiet) h;
  wrote = λ db f h. h;
  opened = λ db id f h. h;
  tried = λ b f h. h;
  ended = λ b f h. h;
}

-- The parts of the handlers that make quiet calls keep what is stable.
module _ {P : Frame → Type 0} (stable : IsStable P) (env : Env) where
  pub Leads-log : {R : Frame → Type 0} (call : Call) → is_quiet call ≡ true → Leads P (log call) P R
  unfolding log
  Leads-log call quiet = record { at = λ f h. stable.logged call f quiet h }

  pub Keeps-log : (call : Call) → is_quiet call ≡ true → Keeps P (log call)
  Keeps-log call quiet = Leads-log call quiet

  pub Keeps-write_audit :
      (actor action : String) (p : ProfileId) (result : String) (code : Option ErrorCode)
      → Keeps P (write_audit env actor action p result code)
  unfolding write_audit
  Keeps-write_audit actor action p result code = record { at = λ f h. stable.wrote _ f h }

  pub Keeps-record_event : (p : ProfileId) (code : String) → Keeps P (record_event p code)
  unfolding record_event is_quiet
  Keeps-record_event p code = Keeps-log (event_recorded p code) refl

  pub Keeps-require_operation :
      (profile : Profile) (operation actor : String)
      → Keeps P (require_operation env profile operation actor)
  unfolding require_operation
  Keeps-require_operation profile operation actor = search (keeps_rules, Keeps-write_audit)

  Keeps-found : (profile : Option Profile) → Keeps P (found profile)
  unfolding found
  Keeps-found none = Keeps-raise _
  Keeps-found (some profile) = Keeps-pure profile

  pub Keeps-get_profile : (p : ProfileId) → Keeps P (get_profile env p)
  unfolding get_profile
  Keeps-get_profile p = Keeps-found (env.profiles p)

  pub Keeps-open_job :
      (operation : String) (p : ProfileId) (actor : String)
      → Keeps P (open_job env operation p actor)
  unfolding open_job
  Keeps-open_job operation p actor = record { at = λ f h. stable.opened _ _ f h }

  Keeps-finish_job :
      (operation : String) (p : ProfileId) (actor : String) (ok : Bool) (code : Option ErrorCode)
      (job_id : Option String)
      → Keeps P (finish_job env operation p actor ok code job_id)
  unfolding finish_job
  Keeps-finish_job operation p actor ok code none = Keeps-pure tt
  Keeps-finish_job operation p actor ok code (some id) = Leads-modify _ (λ f h. stable.wrote _ f h)

  pub Keeps-close_job :
      (operation : String) (p : ProfileId) (actor : String) (ok : Bool) (code : Option ErrorCode)
      → Keeps P (close_job env operation p actor ok code)
  unfolding close_job
  Keeps-close_job operation p actor ok code =
      Leads-read _ _ (Keeps-finish_job operation p actor ok code)

  pub Keeps-settle : (reply : Awaited) → Keeps P (settle reply)
  unfolding settle
  Keeps-settle (work_done result lost) = search keeps_rules
  Keeps-settle (work_raised e) = Keeps-raise e
  Keeps-settle renewal_first = search keeps_rules

  -- A call that is logged so that `P` holds again.
  pub Keeps-await_lease : (call : Call) → Keeps P (log call) → Keeps P (await_lease env call)
  unfolding await_lease
  Keeps-await_lease call h =
      Leads-read _ _ (λ tick. Keeps-then _ _ h (Keeps-settle (env.awaited tick)))

  pub Keeps-assert_lease : Keeps P (assert_lease env)
  unfolding assert_lease is_quiet
  Keeps-assert_lease =
      Leads-read _ _ (λ tick. Keeps-then _ _ (Keeps-log asserted refl) (Keeps-raise_if _ _))

  pub Keeps-wait_for_free_slot : (p : ProfileId) → Keeps P (wait_for_free_slot env p)
  unfolding wait_for_free_slot is_quiet
  Keeps-wait_for_free_slot p = Keeps-await_lease (waited_free p) (Keeps-log (waited_free p) refl)

  pub Keeps-probe_start_health : (p : ProfileId) → Keeps P (probe_start_health env p)
  unfolding probe_start_health is_quiet
  Keeps-probe_start_health p = Keeps-await_lease (probed p) (Keeps-log (probed p) refl)

  pub Keeps-installed_version_hint : (p : ProfileId) → Keeps P (installed_version_hint env p)
  unfolding installed_version_hint is_quiet
  Keeps-installed_version_hint p =
      Leads-read _ _ (λ tick. Keeps-then _ _ (Keeps-log (hinted p) refl) (Keeps-raise_if _ _))

  pub Keeps-serve :
      (action : ServerAction) (p : ProfileId)
      → Keeps P (log (served action p))
      → Keeps P (serve env action p)
  unfolding serve
  Keeps-serve action p h = Keeps-if _ _ _ (Keeps-await_lease (served action p) h) (Keeps-raise _)
