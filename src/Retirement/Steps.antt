-- ===== src/Retirement/Steps.antt =====
-- What the phases of src/game_control/retirement.py read, refuse and do, each effect on the disk or
-- the ledger with the ways in which it may end early.
use helios_horizon.Common.{
  ℕ, String, Bool, true, false, not, ◌&&◌, ◌||◌, Option, none, some, all, str_eq, ◌==◌,
  if◌then◌else◌,
}
use helios_horizon.Program.{pure, raise, gets, raise_if, modify, try_finally, ◌>>=◌, ◌>>◌}
use helios_horizon.Retirement.Payloads.{
  PayloadState, ManifestEntry, FilePath, same_path, Node, Disk, is_gone, is_payload,
}
use helios_horizon.Retirement.Ledger.{LedgerRow, Ledger, recorded, ledger_write}
use helios_horizon.Retirement.World.{
  safe_error, interrupted, refused, Manifest, CatalogRow, Env, Vault, Script, ask, effect,
  PlanEntry,
}

abbrev pub loaded : Option Manifest → Script Manifest
loaded none = raise refused
loaded (some m) = pure m

abbrev pub fits_catalog : ManifestEntry → Option CatalogRow → Bool
fits_catalog e none = false
fits_catalog e (some row) =
    str_eq row.profile_id e.profile_id
    && row.size_bytes == e.identity.size_bytes
    && row.verified == 1
    && row.is_protected == 0

abbrev pub is_own : Option String → String → Bool
is_own none id = false
is_own (some own) id = str_eq id own

abbrev pub has_ctime : ℕ → Option Node → Bool
has_ctime t none = false
has_ctime t (some n) = n.identity.ctime_ns == t

abbrev pub put_node : FilePath → Option Node → Disk → Disk
put_node path n disk p = if same_path path p then n else disk p

abbrev pub renamed : ℕ → Option Node → Option Node
renamed t none = none
renamed t (some n) = some (record n { identity = record n.identity { ctime_ns = t } })

-- `_row`
abbrev pub make_row : Manifest → PlanEntry → PayloadState → Option String → ℕ → LedgerRow
make_row m item s error stamp = record {
  operation_id = m.operation_id;
  backup_id = item.entry.backup_id;
  profile_id = item.entry.profile_id;
  state = s;
  path = item.archive.relative;
  quarantine_path = some item.quarantine.relative;
  expected = item.entry.identity;
  manifest_sha256 = m.operation_id;
  created_at = stamp;
  updated_at = stamp;
  error_code = error;
}

abbrev pub state_of : Option LedgerRow → Option PayloadState
state_of none = none
state_of (some r) = some r.state

abbrev pub state_in : Manifest → PlanEntry → Vault → Option PayloadState
state_in m item v = state_of (recorded m.operation_id item.entry.backup_id v.ledger)

-- `_states_by_id(...).get(...)`
unfoldable pub state_by_id : Manifest → PlanEntry → Script (Option PayloadState)
unfolding gets
state_by_id m item = gets (state_in m item)

-- `release`
abbrev pub unlocked : Vault → Vault
unlocked v = record v { locked = false }

module _ (env : Env) where
  -- `load`
  unfoldable pub load : String → Script Manifest
  load op = loaded (env.manifests op)

  unfoldable pub assert_registered : Manifest → Script (Unit {0})
  unfolding raise_if
  assert_registered m = raise_if (not (all (λ e. env.is_registered e.profile_id) m.entries)) refused

  unfoldable pub check_lease : Script (Unit {0})
  unfolding raise_if ask ◌>>=◌
  check_lease = ask env.lease_held >>= λ held. raise_if (not held) (safe_error "slot_conflict" true)

  unfoldable pub assert_catalog_eligible : ManifestEntry → Script (Unit {0})
  unfolding raise_if ask ◌>>=◌ ◌>>◌
  assert_catalog_eligible e =
      (ask (λ n. env.catalog n e.backup_id) >>= λ row. raise_if (not (fits_catalog e row)) refused)
      >> (ask (λ n. env.has_protection n e.backup_id) >>= λ active. raise_if active refused)
      >> (ask (λ n. env.has_confirmation n e.backup_id) >>= λ live. raise_if live refused)

  -- `_assert_boundaries`: no other job runs, and no restore waits for its confirmation.
  unfoldable pub assert_boundaries : Option String → Script (Unit {0})
  unfolding raise_if ask ◌>>=◌ ◌>>◌
  assert_boundaries own =
      (ask env.running_jobs >>= λ jobs.
      raise_if (not (all (is_own own) jobs)) (safe_error "retirement_failed" true))
      >> (ask env.restore_pending >>= λ pending. raise_if pending refused)

  unfoldable pub acquire_sender_lock : Script (Unit {0})
  unfolding raise_if ask modify ◌>>=◌ ◌>>◌
  acquire_sender_lock =
      (ask env.lock_free >>= λ free. raise_if (not free) (safe_error "retirement_failed" true))
      >> modify (λ v. record v { locked = true })

  -- `with SenderInterlock(...)`
  unfoldable pub with_interlock : Script (Unit {0}) → Script (Unit {0})
  unfolding modify try_finally ◌>>◌
  with_interlock m = acquire_sender_lock >> try_finally m (λ _. modify unlocked)

  -- `_absent`: true only if the path is certain to be absent.
  unfoldable pub absent : FilePath → Script Bool
  unfolding ask gets pure ◌>>=◌
  absent path = gets (λ v. is_gone (v.disk path)) >>= λ gone.
      ask (λ n. env.is_certain n path) >>= λ certain. pure (gone && certain)

  unfoldable pub verify_payload : ManifestEntry → FilePath → Bool → Script (Unit {0})
  unfolding ask gets raise_if ◌>>=◌ ◌>>◌
  verify_payload e path check_ctime =
      (ask (λ n. env.is_changing n path) >>= λ changing. raise_if changing refused)
      >> (gets (λ v. v.disk path) >>= λ n.
          raise_if
            (not (is_payload e.identity n && (not check_ctime || has_ctime e.identity.ctime_ns n)))
            refused)

  -- A directory is made, or its entries are made durable: no payload changes.
  unfoldable pub ensure_private_dir : Script (Unit {0})
  unfolding effect
  ensure_private_dir = effect env (λ v. v)

  unfoldable pub fsync_dir : Script (Unit {0})
  unfolding effect
  fsync_dir = effect env (λ v. v)

  abbrev pub moved : FilePath → FilePath → Vault → Vault
  moved source target v = record v {
    disk =
        put_node target (renamed (env.ctime_ns v.tick) (v.disk source))
          (put_node source none v.disk);
  }

  unfoldable pub rename_noreplace : FilePath → FilePath → Script (Unit {0})
  unfolding effect gets raise_if ◌>>=◌ ◌>>◌
  rename_noreplace source target =
      (gets (λ v. not (is_gone (v.disk target)) || is_gone (v.disk source)) >>= λ refuses.
      raise_if refuses refused)
      >> effect env (moved source target)

  unfoldable pub unlink_file : FilePath → Script (Unit {0})
  unfolding effect gets raise_if ◌>>=◌ ◌>>◌
  unlink_file path =
      (gets (λ v. is_gone (v.disk path)) >>= λ gone. raise_if gone interrupted)
      >> effect env (λ v. record v { disk = put_node path none v.disk })

  abbrev pub store : Option Ledger → Script (Unit {0})
  store none = raise refused
  store (some rows) = effect env (λ v. record v { ledger = rows })

  unfoldable pub write : Manifest → PlanEntry → PayloadState → Option String → Script (Unit {0})
  unfolding effect ask gets raise ◌>>=◌
  write m item s error = ask env.now >>= λ stamp.
      gets (λ v. ledger_write (make_row m item s error stamp) v.ledger) >>= store
