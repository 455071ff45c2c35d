-- ===== src/Retirement/Moves.antt =====
-- The readings and the effects in the phases of src/game_control/retirement.py, and the places of
-- an entry.
use helios_horizon.Common.{
  ℕ, String, ◌≡◌, refl, Bool, true, false, not, ◌&&◌, ◌||◌, Option, none, inl, inr, arith,
  Bool-cases,
}
use helios_horizon.Program.{Result, returned, raised, pure, gets, ◌>>=◌}
use helios_horizon.Program.Rules.{Ends, Leads, Leads-gets, Leads-read, Leads-then}
use helios_horizon.Program.Keeping.{Leads-raise_if}
use helios_horizon.Program.Branches.{Leads-test}
use helios_horizon.Retirement.Payloads.{
  PayloadState, Identity, ManifestEntry, FilePath, Node, is_gone, is_payload,
}
use helios_horizon.Retirement.Ledger.{LedgerRow}
use helios_horizon.Retirement.World.{
  Fault, refused, interrupted, Manifest, Mishap, fine, before, after, Env, Vault, Script,
  after_tick, ask, effected, effect, PlanEntry,
}
use helios_horizon.Retirement.Steps.{
  put_node, moved, absent, verify_payload, rename_noreplace, unlink_file, has_ctime, state_in,
  state_by_id,
}
use helios_horizon.Retirement.Rows.{and_iff}
use helios_horizon.Retirement.Places.{Facts, Over}
use helios_horizon.Retirement.Quiet.{Same, Quiet, ask_test-Quiet}

-- One predicate entails another.
abbrev pub Entails : Facts → Facts → Type 0
Entails P Q = (r : Option LedgerRow) (a q : Option Node) → P r a q → Q r a q

module _ {P Q R : Vault → Type 0} where
  Leads-effected :
      (o : Mishap) (g : Vault → Vault)
      → ((v : Vault) → P v → R (after_tick v))
      → ((v : Vault) → P v → Q (after_tick (g v)))
      → ((v : Vault) → P v → R (after_tick (g v)))
      → Leads P (effected o g) Q R
  Leads-effected fine g h k l = record { at = k }
  Leads-effected before g h k l = record { at = h }
  Leads-effected after g h k l = record { at = l }

  pub Leads-effect :
      (env : Env) (g : Vault → Vault)
      → ((v : Vault) → P v → R (after_tick v))
      → ((v : Vault) → P v → Q (after_tick (g v)))
      → ((v : Vault) → P v → R (after_tick (g v)))
      → Leads P (effect env g) Q R
  unfolding effect
  Leads-effect env g h k l = record {
    at = λ v p. (Leads-effected (env.mishap v.tick) g h k l).at v p;
  }

module _ {P Q R : Vault → Type 0} where
  pub Leads-rename :
      (env : Env) (source target : FilePath)
      → ((v : Vault) → P v → R v)
      → ((v : Vault)
          → P v
          → is_gone (v.disk target) ≡ true
          → Q (after_tick (moved env source target v)))
      → ((v : Vault)
          → P v
          → is_gone (v.disk target) ≡ true
          → R (after_tick (moved env source target v)))
      → ((v : Vault) → P v → R (after_tick v))
      → Leads P (rename_noreplace env source target) Q R
  unfolding rename_noreplace
  Leads-rename env source target w step stop idle =
      Leads-then {M = λ v. P v × (is_gone (v.disk target) ≡ true)} _ _
        (Leads-test (λ v. not (is_gone (v.disk target)) || is_gone (v.disk source)) refused
          (λ v h t. (h, ground arith)) w)
        (Leads-effect env _ (λ v h. idle v h.0) (λ v h. step v h.0 h.1) (λ v h. stop v h.0 h.1))

  pub Leads-unlink_file :
      (env : Env) (path : FilePath)
      → ((v : Vault) → P v → R v)
      → ((v : Vault) → P v → Q (after_tick (record v { disk = put_node path none v.disk })))
      → ((v : Vault) → P v → R (after_tick (record v { disk = put_node path none v.disk })))
      → ((v : Vault) → P v → R (after_tick v))
      → Leads P (unlink_file env path) Q R
  unfolding unlink_file
  Leads-unlink_file env path w step stop idle =
      Leads-then {M = P} _ _ (Leads-test (λ v. is_gone (v.disk path)) interrupted (λ v h t. h) w)
        (Leads-effect env _ idle step stop)

  -- The state that is read is that of the ledger.
  pub Leads-state :
      {B : Type 0} (m : Manifest) (item : PlanEntry) (k : Option PayloadState → Script B)
      → ((s : Option PayloadState) → Leads (λ v. P v × (state_in m item v ≡ s)) (k s) Q R)
      → Leads P (state_by_id m item >>= k) Q R
  unfolding state_by_id
  Leads-state m item k h = Leads-gets (state_in m item) k h

  pub Leads-any_state :
      {B : Type 0} (m : Manifest) (item : PlanEntry) (k : Option PayloadState → Script B)
      → ((s : Option PayloadState) → Leads P (k s) Q R)
      → Leads P (state_by_id m item >>= k) Q R
  unfolding state_by_id
  Leads-any_state m item k h = Leads-read (state_in m item) k h

module _ (op : String) (e : ManifestEntry) where
  Ends-Same :
      {A : Type 0} (P R : Facts) (x : Result Fault A) (f v : Vault)
      → Entails P R
      → Ends (Same v.ledger v.disk) (Same v.ledger v.disk) x f
      → Over op e P v
      → Ends (Over op e P) (Over op e R) x f
  Ends-Same P R (returned a) f v w s p = rw (s.0, s.1) p
  Ends-Same P R (raised x) f v w s p = w _ _ _ (rw (s.0, s.1) p)

  pub Leads-Quiet :
      {A : Type 0} (P R : Facts) (n : Script A)
      → Quiet n
      → Entails P R
      → Leads (Over op e P) n (Over op e P) (Over op e R)
  Leads-Quiet P R n h w = record {
    at = λ v p. Ends-Same P R (n v).0 (n v).1 v w ((h.keeps v.ledger v.disk).at v (refl, refl)) p;
  }

  -- `absent` is believed only if it is true.
  pub Leads-absent :
      {B : Type 0} (P : Facts) {Q R : Vault → Type 0} (env : Env) (p : FilePath)
      (k : Bool → Script B)
      → Leads (λ v. Over op e P v × (is_gone (v.disk p) ≡ true)) (k true) Q R
      → Leads (Over op e P) (k false) Q R
      → Leads (Over op e P) (absent env p >>= k) Q R
  unfolding absent ◌>>=◌ gets ask pure
  Leads-absent P env p k h l = record {
    at = λ v x. elim (Bool-cases (is_gone (v.disk p) && env.is_certain v.tick p)) [
      | inl t ↦ rw t (h.at (after_tick v) (x, (and_iff _ _ t).0))
      | inr t ↦ rw t (l.at (after_tick v) x)
    ];
  }

  verified :
      (i : Identity) (n : Option Node) (c : Bool) (t : ℕ)
      → not (is_payload i n && (not c || has_ctime t n)) ≡ false
      → (o : Option Node) → o ≡ n
      → is_payload i o ≡ true
  verified i n c t h o k = rw k (and_iff _ (not c || has_ctime t n) (ground arith)).0

  -- What verifies is the payload.
  pub Leads-verify :
      (P R : Facts) (env : Env) (x : ManifestEntry) (p : FilePath) (c : Bool)
      → Entails P R
      → Leads
          (Over op e P)
          (verify_payload env x p c)
          (λ v. Over op e P v × (is_payload x.identity (v.disk p) ≡ true))
          (Over op e R)
  unfolding verify_payload
  Leads-verify P R env x p c w =
      Leads-then _ _ (Leads-Quiet P R _ (ask_test-Quiet (λ n. env.is_changing n p) refused) w) (
        Leads-gets _ _ (λ n.
          Leads-raise_if _ refused
            (λ v h t. (h.0, verified x.identity n c x.identity.ctime_ns t (v.disk p) h.1))
            (λ v h. w _ _ _ h.0)))
