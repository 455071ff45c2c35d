-- ===== src/Retirement/Writes.antt =====
-- What a write of the ledger and a move of a file make of the places of the entry that they are
-- for, in the phases of src/game_control/retirement.py.
use helios_horizon.Common.{ℕ, String, ◌≡◌, refl, Bool, true, Option, none, some}
use helios_horizon.Program.Rules.{Leads, Leads-gets, Leads-bind, Leads-raise}
use helios_horizon.Retirement.Payloads.{
  PayloadState, one_of, transitions, ManifestEntry, Node, is_gone,
}
use helios_horizon.Retirement.Ledger.{LedgerRow, Ledger, ledger_write, may_write}
use helios_horizon.Retirement.World.{
  refused, Manifest, Env, Vault, plan_entry, archive_path, quarantine_path,
}
use helios_horizon.Retirement.Steps.{
  put_node, renamed, moved, rename_noreplace, unlink_file, make_row, store, write,
}
use helios_horizon.Retirement.Rows.{merged, recorded-upsert, ledger_write-some, and_iff}
use helios_horizon.Retirement.Places.{
  Facts, Describes, Over, put_node-same, put_node-other, archive_apart,
}
use helios_horizon.Retirement.Quiet.{ask-Quiet}
use helios_horizon.Retirement.Moves.{
  Entails, Leads-effect, Leads-rename, Leads-unlink_file, Leads-Quiet,
}

-- The row that is written for an entry, and where the change is permitted.
abbrev pub IsPermitted : Option LedgerRow → PayloadState → Type 0
IsPermitted none s = Unit
IsPermitted (some old) s = one_of s (transitions old.state) ≡ true

may_write-IsPermitted :
    (o : Option LedgerRow) (c : Bool) (r : LedgerRow)
    → may_write o c r ≡ true
    → IsPermitted o r.state
may_write-IsPermitted none c r h = tt
may_write-IsPermitted (some old) c r h = (and_iff _ _ h).1

-- A row that `_row` makes for the entry, but for the times and the error.
abbrev pub IsRowOf : String → ManifestEntry → PayloadState → LedgerRow → Type 0
IsRowOf op e s r = Describes op e r × (r.state ≡ s)

merged-IsRowOf :
    (op : String) (e : ManifestEntry) (s : PayloadState) (r : LedgerRow) (o : Option LedgerRow)
    → IsRowOf op e s r
    → IsRowOf op e s (merged o r)
merged-IsRowOf op e s r none h = h
merged-IsRowOf op e s r (some old) h = h

-- Rules for the steps on the entry itself: `P` before, `Q` after, `R` wherever it ends early.
module _ (env : Env) (m : Manifest) (e : ManifestEntry) (P Q R : Facts) where
  abbrev op : String
  op = m.operation_id

  module _ (s : PayloadState) (error : Option String) where
    abbrev row : ℕ → LedgerRow
    row stamp = make_row m (plan_entry op e) s error stamp

    written :
        (stamp : ℕ) (rows : Ledger) (v : Vault)
        → ((r : Option LedgerRow) (r' : LedgerRow) (a q : Option Node)
            → P r a q
            → IsPermitted r s
            → IsRowOf op e s r'
            → Q (some r') a q)
        → Over op e P v
        → ledger_write (row stamp) v.ledger ≡ some rows
        → Over op e Q (record v { ledger = rows })
    written stamp rows v step p h =
        let f = ledger_write-some (row stamp) v.ledger rows h in
        rw (f.0, recorded-upsert (row stamp) v.ledger)
          (step _ _ _ _ p (may_write-IsPermitted _ _ (row stamp) f.1)
            (merged-IsRowOf op e s (row stamp) _ ((refl, refl, refl, refl), refl)))

    Leads-store :
        (stamp : ℕ) (o : Option Ledger)
        → Entails P R
        → Entails Q R
        → ((r : Option LedgerRow) (r' : LedgerRow) (a q : Option Node)
            → P r a q
            → IsPermitted r s
            → IsRowOf op e s r'
            → Q (some r') a q)
        → Leads
            (λ v. Over op e P v × (ledger_write (row stamp) v.ledger ≡ o))
            (store env o)
            (Over op e Q)
            (Over op e R)
    Leads-store stamp none w x step = Leads-raise refused (λ v h. w _ _ _ h.0)
    Leads-store stamp (some rows) w x step =
        Leads-effect env _ (λ v h. w _ _ _ h.0) (λ v h. written stamp rows v step h.0 h.1)
          (λ v h. x _ _ _ (written stamp rows v step h.0 h.1))

    pub Leads-write :
        Entails P R
        → Entails Q R
        → ((r : Option LedgerRow) (r' : LedgerRow) (a q : Option Node)
            → P r a q
            → IsPermitted r s
            → IsRowOf op e s r'
            → Q (some r') a q)
        → Leads (Over op e P) (write env m (plan_entry op e) s error) (Over op e Q) (Over op e R)
    unfolding write
    Leads-write w x step =
        Leads-bind _ _ (Leads-Quiet op e P R _ (ask-Quiet env.now) w)
          (λ stamp. Leads-gets _ _ (λ o. Leads-store stamp o w x step))

  -- The file moves to the place where there is nothing.
  pub Leads-to_quarantine :
      Entails P R
      → Entails Q R
      → ((r : Option LedgerRow) (a q : Option Node) (t : ℕ)
          → P r a q
          → is_gone q ≡ true
          → Q r none (renamed t a))
      → Leads
          (Over op e P)
          (rename_noreplace env (archive_path e) (quarantine_path op e))
          (Over op e Q)
          (Over op e R)
  Leads-to_quarantine w x step =
      Leads-rename env _ _ (λ v h. w _ _ _ h) there (λ v h k. x _ _ _ (there v h k))
        (λ v h. w _ _ _ h)
    where
      there :
          (v : Vault)
          → Over op e P v
          → is_gone (v.disk (quarantine_path op e)) ≡ true
          → Over op e Q (moved env (archive_path e) (quarantine_path op e) v)
      there v h k =
          rw
            (
              put_node-other (quarantine_path op e) (archive_path e)
                  (renamed (env.ctime_ns v.tick) (v.disk (archive_path e)))
                  (put_node (archive_path e) none v.disk) (archive_apart op e).1,
              put_node-same (archive_path e) none v.disk,
              put_node-same (quarantine_path op e)
                  (renamed (env.ctime_ns v.tick) (v.disk (archive_path e)))
                  (put_node (archive_path e) none v.disk),
            )
            (step _ _ _ _ h k)

  -- And back.
  pub Leads-to_archive :
      Entails P R
      → Entails Q R
      → ((r : Option LedgerRow) (a q : Option Node) (t : ℕ)
          → P r a q
          → is_gone a ≡ true
          → Q r (renamed t q) none)
      → Leads
          (Over op e P)
          (rename_noreplace env (quarantine_path op e) (archive_path e))
          (Over op e Q)
          (Over op e R)
  Leads-to_archive w x step =
      Leads-rename env _ _ (λ v h. w _ _ _ h) there (λ v h k. x _ _ _ (there v h k))
        (λ v h. w _ _ _ h)
    where
      there :
          (v : Vault)
          → Over op e P v
          → is_gone (v.disk (archive_path e)) ≡ true
          → Over op e Q (moved env (quarantine_path op e) (archive_path e) v)
      there v h k =
          rw
            (
              put_node-other (archive_path e) (quarantine_path op e)
                  (renamed (env.ctime_ns v.tick) (v.disk (quarantine_path op e)))
                  (put_node (quarantine_path op e) none v.disk) (archive_apart op e).0,
              put_node-same (quarantine_path op e) none v.disk,
              put_node-same (archive_path e)
                  (renamed (env.ctime_ns v.tick) (v.disk (quarantine_path op e)))
                  (put_node (quarantine_path op e) none v.disk),
            )
            (step _ _ _ _ h k)

  pub Leads-remove :
      Entails P R
      → Entails Q R
      → ((r : Option LedgerRow) (a q : Option Node) → P r a q → Q r a none)
      → Leads (Over op e P) (unlink_file env (quarantine_path op e)) (Over op e Q) (Over op e R)
  Leads-remove w x step =
      Leads-unlink_file env _ (λ v h. w _ _ _ h) there (λ v h. x _ _ _ (there v h))
        (λ v h. w _ _ _ h)
    where
      there :
          (v : Vault)
          → Over op e P v
          → Over op e Q (record v { disk = put_node (quarantine_path op e) none v.disk })
      there v h =
          rw
            (
              put_node-other (quarantine_path op e) (archive_path e) none v.disk
                  (archive_apart op e).1,
              put_node-same (quarantine_path op e) none v.disk,
            )
            (step _ _ _ h)
