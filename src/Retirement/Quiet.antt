-- ===== src/Retirement/Quiet.antt =====
-- The assertions of src/game_control/retirement.py as programs that read.
use helios_horizon.Common.{
  ℕ, String, ◌≡◌, Bool, true, false, Option, List, if◌then◌else◌, if◌then◌else◌,
}
use helios_horizon.Program.{raise, raise_if, modify, for_each, ◌>>=◌, ◌>>◌}
use helios_horizon.Program.Rules.{Leads, Keeps, Leads-then, Leads-bind, Leads-modify}
use helios_horizon.Program.Keeping.{keeps_rules}
use helios_horizon.Program.Loops.{Keeps-for_each}
use helios_horizon.Retirement.Payloads.{Phase, ManifestEntry, FilePath, Disk}
use helios_horizon.Retirement.Ledger.{Ledger}
use helios_horizon.Retirement.World.{
  Fault, Manifest, Env, Vault, Script, ask, Mishap, fine, before, after, effected, effect,
  PlanEntry,
}
use helios_horizon.Retirement.Steps.{
  assert_registered, check_lease, assert_catalog_eligible, assert_boundaries, acquire_sender_lock,
  absent, verify_payload, state_by_id, ensure_private_dir, fsync_dir,
}
use helios_horizon.Retirement.Assertions.{
  assert_operation_binding, assert_phase_admissible, assert_receipt, assert_no_purge_intent,
  check_item, check_purge_item,
}

abbrev pub Same : Ledger → Disk → Vault → Type 0
Same rows disk v = (v.ledger ≡ rows) × (v.disk ≡ disk)

-- Neither the ledger nor the disk is changed, however the program ends.
pub record Quiet {A : Type 0} (m : Script A) : Type 0 where
  pub keeps : (rows : Ledger) (disk : Disk) → Keeps (Same rows disk) m

module _ {rows : Ledger} {disk : Disk} where
  Keeps-ask : {A : Type 0} (g : ℕ → A) → Keeps (Same rows disk) (ask g)
  unfolding ask
  Keeps-ask g = record { at = λ v h. h }

  -- A local variable or the lock.
  Keeps-locked :
      (b : Bool) → Keeps (Same rows disk) (modify {E = Fault} (λ v. record v { locked = b }))
  Keeps-locked b = Leads-modify {Q = Same rows disk} _ (λ v h. h)

  Keeps-effected :
      (o : Mishap) → Leads (Same rows disk) (effected o (λ v. v)) (Same rows disk) (Same rows disk)
  Keeps-effected fine = record { at = λ v h. h }
  Keeps-effected before = record { at = λ v h. h }
  Keeps-effected after = record { at = λ v h. h }

  Keeps-effect : (env : Env) → Keeps (Same rows disk) (effect env (λ v. v))
  unfolding effect
  Keeps-effect env = record { at = λ v h. (Keeps-effected (env.mishap v.tick)).at v h }

ruleset quiet_rules = (keeps_rules, Keeps-ask, Keeps-locked, Keeps-effect, Keeps-for_each)

pub ask-Quiet : {A : Type 0} (g : ℕ → A) → Quiet (ask g)
ask-Quiet g = record { keeps = λ rows disk. Keeps-ask g }

pub ask_test-Quiet : (g : ℕ → Bool) (e : Fault) → Quiet (ask g >>= λ b. raise_if b e)
ask_test-Quiet g e = record { keeps = λ rows disk. search quiet_rules }

module _ (env : Env) where
  pub check_lease-Quiet : Quiet (check_lease env)
  unfolding check_lease
  check_lease-Quiet = record { keeps = λ rows disk. search (quiet_rules) }

  pub assert_catalog_eligible-Quiet : (x : ManifestEntry) → Quiet (assert_catalog_eligible env x)
  unfolding assert_catalog_eligible
  assert_catalog_eligible-Quiet x = record { keeps = λ rows disk. search (quiet_rules) }

  pub assert_boundaries-Quiet : (own : Option String) → Quiet (assert_boundaries env own)
  unfolding assert_boundaries
  assert_boundaries-Quiet own = record { keeps = λ rows disk. search (quiet_rules) }

  pub acquire_sender_lock-Quiet : Quiet (acquire_sender_lock env)
  unfolding acquire_sender_lock
  acquire_sender_lock-Quiet = record { keeps = λ rows disk. search (quiet_rules) }

  pub assert_registered-Quiet : (m : Manifest) → Quiet (assert_registered env m)
  unfolding assert_registered
  assert_registered-Quiet m = record { keeps = λ rows disk. search (quiet_rules) }

  pub absent-Quiet : (p : FilePath) → Quiet (absent env p)
  unfolding absent
  absent-Quiet p = record { keeps = λ rows disk. search (quiet_rules) }

  pub verify_payload-Quiet :
      (x : ManifestEntry) (p : FilePath) (c : Bool) → Quiet (verify_payload env x p c)
  unfolding verify_payload
  verify_payload-Quiet x p c = record { keeps = λ rows disk. search (quiet_rules) }

  pub ensure_private_dir-Quiet : Quiet (ensure_private_dir env)
  unfolding ensure_private_dir
  ensure_private_dir-Quiet = record { keeps = λ rows disk. search (quiet_rules) }

  pub fsync_dir-Quiet : Quiet (fsync_dir env)
  unfolding fsync_dir
  fsync_dir-Quiet = record { keeps = λ rows disk. search (quiet_rules) }

  pub state_by_id-Quiet : (m : Manifest) (item : PlanEntry) → Quiet (state_by_id m item)
  unfolding state_by_id
  state_by_id-Quiet m item = record { keeps = λ rows disk. search quiet_rules }

pub ruleset quiet_steps = (
  check_lease-Quiet, assert_catalog_eligible-Quiet, assert_boundaries-Quiet,
  assert_registered-Quiet, absent-Quiet, verify_payload-Quiet, ensure_private_dir-Quiet,
  fsync_dir-Quiet, state_by_id-Quiet,
)

-- Programs that are put together from quiet ones.
module _ {A : Type 0} where
  pub Quiet-raise : (e : Fault) → Quiet (raise {A = A} e)
  Quiet-raise e = record { keeps = λ rows disk. search keeps_rules }

  pub Quiet-bind :
      {B : Type 0} (n : Script A) (k : A → Script B)
      → Quiet n
      → ((a : A) → Quiet (k a))
      → Quiet (n >>= k)
  Quiet-bind n k h l = record {
    keeps = λ rows disk. Leads-bind n k (h.keeps rows disk) (λ a. (l a).keeps rows disk);
  }

  pub Quiet-then : {B : Type 0} (n : Script A) (k : Script B) → Quiet n → Quiet k → Quiet (n >> k)
  Quiet-then n k h l = record {
    keeps = λ rows disk. Leads-then n k (h.keeps rows disk) (l.keeps rows disk);
  }

  pub Quiet-for_each :
      (body : A → Script (Unit {0})) (xs : List A)
      → ((x : A) → Quiet (body x))
      → Quiet (for_each body xs)
  Quiet-for_each body xs h = record {
    keeps = λ rows disk. Keeps-for_each body xs (λ x. (h x).keeps rows disk);
  }

  pub Quiet-if : (b : Bool) (n k : Script A) → Quiet n → Quiet k → Quiet (if b then n else k)
  Quiet-if true n k h l = h
  Quiet-if false n k h l = l

pub Quiet-raise_if : (b : Bool) (e : Fault) → Quiet (raise_if b e)
Quiet-raise_if b e = record { keeps = λ rows disk. search keeps_rules }

pub ruleset quiet_parts =
    (quiet_steps, Quiet-raise, Quiet-raise_if, Quiet-bind, Quiet-then, Quiet-for_each, Quiet-if)

module _ (env : Env) (m : Manifest) where
  pub check_item-Quiet : (prior : Ledger) (item : PlanEntry) → Quiet (check_item env m prior item)
  unfolding check_item
  check_item-Quiet prior item = search quiet_parts depth 12

  pub check_purge_item-Quiet : (item : PlanEntry) → Quiet (check_purge_item env m item)
  unfolding check_purge_item
  check_purge_item-Quiet item = search quiet_parts depth 12

module _ (m : Manifest) where
  pub assert_operation_binding-Quiet : (exact : Bool) → Quiet (assert_operation_binding m exact)
  unfolding assert_operation_binding
  assert_operation_binding-Quiet exact = record { keeps = λ rows disk. search quiet_rules }

  pub assert_phase_admissible-Quiet : (phase : Phase) → Quiet (assert_phase_admissible m phase)
  unfolding assert_phase_admissible
  assert_phase_admissible-Quiet phase = record { keeps = λ rows disk. search quiet_rules }

  pub assert_receipt-Quiet : Quiet (assert_receipt m)
  unfolding assert_receipt
  assert_receipt-Quiet = record { keeps = λ rows disk. search quiet_rules }

  pub assert_no_purge_intent-Quiet : Quiet (assert_no_purge_intent m)
  unfolding assert_no_purge_intent
  assert_no_purge_intent-Quiet = record { keeps = λ rows disk. search quiet_rules }
