-- ===== src/Retirement/Entries.antt =====
-- An entry of the manifest of src/game_control/retirement.py, and the loops over the plan.
use helios_horizon.Common.{◌≡◌, String, false, List, [], ◌∷◌, map, ◌⊎◌, inl, inr, str_eq, All}
use helios_horizon.Program.{for_each}
use helios_horizon.Program.Rules.{Leads, Keeps, Leads-weaken}
use helios_horizon.Program.Loops.{Any, Leads-for_some}
use helios_horizon.Retirement.Payloads.{ManifestEntry}
use helios_horizon.Retirement.World.{Manifest, PlanEntry, plan, plan_entry, Script}
use helios_horizon.Retirement.Places.{Facts, Over}
use helios_horizon.Retirement.Moves.{Entails}

-- The entry is in the list, and no other entry there has its backup.
abbrev pub IsEntry : List ManifestEntry → ManifestEntry → Type 0
IsEntry es e =
    Any (λ x. x ≡ e) es × All (λ x. (x ≡ e) ⊎ (str_eq x.backup_id e.backup_id ≡ false)) es

module _ (op : String) (e : ManifestEntry) (P Q R : Facts) (body : PlanEntry → Script (Unit {0}))
    (round : Leads (Over op e P) (body (plan_entry op e)) (Over op e Q) (Over op e R))
    (others : (x : ManifestEntry) (F : Facts)
      → str_eq x.backup_id e.backup_id ≡ false
      → Keeps (Over op e F) (body (plan_entry op x)))
    (back : Entails Q P) (ends : Entails P R) where
  rounds :
      (es : List ManifestEntry)
      → All (λ x. (x ≡ e) ⊎ (str_eq x.backup_id e.backup_id ≡ false)) es
      → All
          (λ i.
            Leads (Over op e P) (body i) (Over op e P) (Over op e R)
            × Leads (Over op e Q) (body i) (Over op e Q) (Over op e R))
          (map (plan_entry op) es)
  rounds [] h = tt
  rounds (x ∷ es) h = (round_of h.0, rounds es h.1)
    where
      round_of :
          (x ≡ e) ⊎ (str_eq x.backup_id e.backup_id ≡ false)
          → Leads (Over op e P) (body (plan_entry op x)) (Over op e P) (Over op e R)
            × Leads (Over op e Q) (body (plan_entry op x)) (Over op e Q) (Over op e R)
      round_of (inl k) = rw k (
        Leads-weaken _ (λ v p. p) (λ v q. back _ _ _ q) (λ v r. r) round,
        Leads-weaken _ (λ v q. back _ _ _ q) (λ v q. q) (λ v r. r) round,
      )
      round_of (inr k) = (
        Leads-weaken _ (λ v p. p) (λ v p. p) (λ v p. ends _ _ _ p) (others x P k),
        Leads-weaken _ (λ v q. q) (λ v q. q) (λ v q. ends _ _ _ (back _ _ _ q)) (others x Q k),
      )

  found :
      (es : List ManifestEntry)
      → Any (λ x. x ≡ e) es
      → Any (λ i. Leads (Over op e P) (body i) (Over op e Q) (Over op e R)) (map (plan_entry op) es)
  found [] h = elim h [ ]
  found (x ∷ es) h = elim h [ inl k ↦ inl (rw k round) | inr k ↦ inr (found es k) ]

  pub Leads-plan :
      (m : Manifest)
      → m.operation_id ≡ op
      → IsEntry m.entries e
      → Leads (Over op e P) (for_each body (plan m)) (Over op e Q) (Over op e R)
  Leads-plan m k h = rw k (
      Leads-for_some body (map (plan_entry op) m.entries) (λ v q. ends _ _ _ (back _ _ _ q))
        (rounds m.entries h.1) (found m.entries h.0))
