-- ===== src/Retirement/Others.antt =====
-- The steps of src/game_control/retirement.py that are for one backup, seen from another one.
use helios_horizon.Common.{ℕ, String, ◌≡◌, true, false, Option, none, some, arith, str_eq}
use helios_horizon.Program.{modify}
use helios_horizon.Program.Rules.{Leads, Keeps, Leads-gets, Leads-bind, Leads-raise, Leads-modify}
use helios_horizon.Retirement.Payloads.{PayloadState, ManifestEntry}
use helios_horizon.Retirement.Ledger.{LedgerRow, Ledger, ledger_write}
use helios_horizon.Retirement.World.{
  Fault, refused, Manifest, Env, Vault, Script, plan_entry, archive_path, quarantine_path,
}
use helios_horizon.Retirement.Steps.{
  put_node, moved, rename_noreplace, unlink_file, make_row, store, write,
}
use helios_horizon.Retirement.Rows.{recorded-upsert_other, ledger_write-some}
use helios_horizon.Retirement.Places.{Facts, Over, paths_apart}
use helios_horizon.Retirement.Quiet.{Quiet, ask-Quiet}
use helios_horizon.Retirement.Moves.{Leads-Quiet, Leads-effect, Leads-rename, Leads-unlink_file}

module _ (op : String) (e : ManifestEntry) (P : Facts) where
  pub Keeps-Quiet : {A : Type 0} (n : Script A) → Quiet n → Keeps (Over op e P) n
  Keeps-Quiet n h = Leads-Quiet op e P P n h (λ r a q x. x)

  pub Keeps-partial : Keeps (Over op e P) (modify {E = Fault} (λ v. record v { partial = true }))
  Keeps-partial = Leads-modify {Q = Over op e P} _ (λ v h. h)

module _ (env : Env) (m : Manifest) (e x : ManifestEntry) (P : Facts)
    (apart : str_eq x.backup_id e.backup_id ≡ false) where
  abbrev op : String
  op = m.operation_id

  module _ (s : PayloadState) (error : Option String) where
    abbrev row : ℕ → LedgerRow
    row stamp = make_row m (plan_entry op x) s error stamp

    written :
        (stamp : ℕ) (rows : Ledger) (v : Vault)
        → Over op e P v
        → ledger_write (row stamp) v.ledger ≡ some rows
        → Over op e P (record v { ledger = rows })
    written stamp rows v p h =
        rw
          (
            (ledger_write-some (row stamp) v.ledger rows h).0,
            recorded-upsert_other (row stamp) v.ledger op e.backup_id (ground (arith, apart)),
          )
          p

    Keeps-store :
        (stamp : ℕ) (o : Option Ledger)
        → Leads
            (λ v. Over op e P v × (ledger_write (row stamp) v.ledger ≡ o))
            (store env o)
            (Over op e P)
            (Over op e P)
    Keeps-store stamp none = Leads-raise refused (λ v h. h.0)
    Keeps-store stamp (some rows) =
        Leads-effect env _ (λ v h. h.0) (λ v h. written stamp rows v h.0 h.1)
          (λ v h. written stamp rows v h.0 h.1)

    pub Keeps-write : Keeps (Over op e P) (write env m (plan_entry op x) s error)
    unfolding write
    Keeps-write =
        Leads-bind _ _ (Keeps-Quiet op e P _ (ask-Quiet env.now))
          (λ stamp. Leads-gets _ _ (λ o. Keeps-store stamp o))

  pub Keeps-to_quarantine :
      Keeps (Over op e P) (rename_noreplace env (archive_path x) (quarantine_path op x))
  Keeps-to_quarantine =
      Leads-rename env _ _ (λ v h. h) (λ v h k. there v h) (λ v h k. there v h) (λ v h. h)
    where
      there :
          (v : Vault)
          → Over op e P v
          → Over op e P (moved env (archive_path x) (quarantine_path op x) v)
      there v h = let d = paths_apart op x e apart in rw (d.0, d.1, d.3) h

  pub Keeps-to_archive :
      Keeps (Over op e P) (rename_noreplace env (quarantine_path op x) (archive_path x))
  Keeps-to_archive =
      Leads-rename env _ _ (λ v h. h) (λ v h k. there v h) (λ v h k. there v h) (λ v h. h)
    where
      there :
          (v : Vault)
          → Over op e P v
          → Over op e P (moved env (quarantine_path op x) (archive_path x) v)
      there v h = let d = paths_apart op x e apart in rw (d.0, d.1, d.3) h

  pub Keeps-remove : Keeps (Over op e P) (unlink_file env (quarantine_path op x))
  Keeps-remove = Leads-unlink_file env _ (λ v h. h) there there (λ v h. h)
    where
      there :
          (v : Vault)
          → Over op e P v
          → Over op e P (record v { disk = put_node (quarantine_path op x) none v.disk })
      there v h = let d = paths_apart op x e apart in rw (d.2, d.3) h
