-- ===== src/Manager/Locking.antt =====
-- app/core/vault_manager.py: locking, by the operator and by the idle timer, and recovery.
use pgsentinel_mcp.Base.{◌-◌, ◌/◌, Text, true, false, Option, none, some, [], ◌++◌, ◌≡◌, arith, lit}
use pgsentinel_mcp.Base.Int.{pos, leb_ℤ}
use pgsentinel_mcp.Base.Result.{ok, err}
use pgsentinel_mcp.Base.Dict.{lookup-insert_self}
use pgsentinel_mcp.Vault.Data.{VaultData}
use pgsentinel_mcp.Vault.Crypto.{Crypto, IsCrypto}
use pgsentinel_mcp.Vault.Store
use pgsentinel_mcp.Vault.Store.{Vault, File, recovery, RecoveryBundle, locked, wrong_recovery_key}
use pgsentinel_mcp.Manager.Names.{Env}
use pgsentinel_mcp.Manager.State.{World, get_vault, clear_all_sessions, stop_auto_lock_timer}
use pgsentinel_mcp.Manager.{
  lock_vault, auto_lock_round, write_recovery_bundle, recover_master_password, get_vault_data,
  save_vault,
}

-- The vault is locked, nobody is logged in, the master password is forgotten and the timer does not
-- run. (A recovery key that was made and not shown yet stays.)
pub record IsShut (w : World) : Type 0 where
  pub shut : (v : Vault) → w.vault ≡ some v → (v.contents ≡ none) × (v.derived_key ≡ none)
  pub nobody : w.sessions ≡ []
  pub forgotten : w.runtime_master_password ≡ none
  pub stopped : w.auto_lock ≡ false

get_vault-master :
    (env : Env) (w : World)
    → (get_vault env w).1.runtime_master_password ≡ w.runtime_master_password
unfolding get_vault
get_vault-master env w = ground arith

module _ (c : Crypto) (env : Env) (w : World) where
  -- Where the vault can be reached, locking succeeds; afterwards its contents and its key are
  -- gone, there is no session, no master password is kept, and the timer is stopped.
  pub lock_vault-IsShut :
      {v : Vault}
      → (get_vault env w).0 ≡ ok v
      → ((lock_vault c env w).0 ≡ ok tt) × IsShut (lock_vault c env w).1
  unfolding lock_vault Store.lock clear_all_sessions stop_auto_lock_timer
  lock_vault-IsShut found = (
    ground arith,
    record {
      shut = λ v e. ground arith;
      nobody = ground arith;
      forgotten = ground arith;
      stopped = ground arith;
    },
  )

  -- Where a round of the running timer returns and leaves an open vault, that vault was held
  -- before, it has not been idle for the minutes of its settings, and the round changed nothing
  -- at all.
  pub auto_lock_round-kept_open :
      {v : Vault} {contents : VaultData}
      → w.auto_lock ≡ true
      → (auto_lock_round c env w).0 ≡ ok tt
      → (auto_lock_round c env w).1.vault ≡ some v
      → v.contents ≡ some contents
      → (w.vault ≡ some v)
        × (leb_ℤ contents.settings.auto_lock_minutes (pos ((w.host.clock - v.last_activity) / 60))
            ≡ false)
        × ((auto_lock_round c env w).1 ≡ w)
  unfolding auto_lock_round get_vault Store.lock Store.load_encrypted clear_all_sessions
  auto_lock_round-kept_open on done left open_now = (ground arith, ground arith, ground arith)

  -- A round of the timer leaves the kept master password as it was.
  pub auto_lock_round-master :
      (auto_lock_round c env w).1.runtime_master_password ≡ w.runtime_master_password
  unfolding auto_lock_round Store.lock clear_all_sessions
  auto_lock_round-master = ground (arith, get_vault-master env w)

  -- A vault that is reached and is locked gives no contents and is not saved, and trying to save
  -- it changes no file.
  pub locked_refuses :
      (master : Option Text) {v : Vault}
      → (get_vault env w).0 ≡ ok v
      → v.contents ≡ none
      → ((get_vault_data c env w).0 ≡ err locked)
        × ((save_vault c env master w).0 ≡ err Store.cannot_save)
        × ((save_vault c env master w).1.host ≡ (get_vault env w).1.host)
  unfolding get_vault_data save_vault
  locked_refuses master found shut = ground arith

bundle_opens :
    (c : Crypto) (env : Env)
    → IsCrypto c
    → (path password : Text) (w : World)
    → recover_master_password c env path
        (lit "pgs_rec_" ++ c.random 36 w.host.draws)
        (write_recovery_bundle c env path password w).1
      ≡ (ok password, (write_recovery_bundle c env path password w).1)
unfolding write_recovery_bundle recover_master_password
bundle_opens c env k path password w = rw (lookup-insert_self, k.decrypt-encrypt)

-- For a cipher that opens what it closed: the recovery key that writing a recovery bundle
-- returns opens that bundle, and yields the master password.
pub recover_master_password-write :
    (c : Crypto) (env : Env)
    → IsCrypto c
    → (path password : Text) (w : World) {key : Text}
    → (write_recovery_bundle c env path password w).0 ≡ ok key
    → recover_master_password c env path key (write_recovery_bundle c env path password w).1
      ≡ (ok password, (write_recovery_bundle c env path password w).1)
unfolding write_recovery_bundle recover_master_password
recover_master_password-write c env k path password w h =
    ground (arith, bundle_opens c env k path password w)
