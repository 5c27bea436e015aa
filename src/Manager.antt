-- ===== src/Manager.antt =====
-- app/core/vault_manager.py: the operations on vaults.
pub mod Names
pub mod State
pub mod Sessions
pub mod Codes
pub mod Locking
pub mod Opening
pub mod Contents
pub mod Shared
mod Tests
use pgsentinel_mcp.Base.{
  ◌-◌, ◌/◌, ℕ, ◌+◌, leb, Text, Bool, true, false, not, ◌&&◌, Option, none, some, List, [], ◌∷◌,
  ◌++◌, lit, is_some, is_empty, if◌then◌else◌, ◌==◌, keep, map, ◌-◌, ◌/◌,
}
use pgsentinel_mcp.Base.Int.{ℤ, pos, leb_ℤ}
use pgsentinel_mcp.Base.Json.{Json, str}
use pgsentinel_mcp.Base.Result.{Result, ok, err}
use pgsentinel_mcp.Base.Exec.{
  Exec, pure, raise, lift, gets, modify, raise_when, continue, ◌>>=◌, ◌>>◌,
}
use pgsentinel_mcp.Base.Dict.{Dict, lookup, insert, erase}
use pgsentinel_mcp.Vault.Data.{VaultData, AgentConfig}
use pgsentinel_mcp.Vault.Crypto.{Crypto}
use pgsentinel_mcp.Vault.Store.{
  File, text, recovery, envelope, RecoveryBundle, Fault, Host, Vault, Desk, is_locked, is_unlocked,
  on_disk, touch, lock, unlock, save, create, draw, already_exists, not_found, locked, cannot_save,
  password_required, definitions_password, no_recovery, wrong_recovery_key, named_exists,
  named_missing, bad_file,
}
use pgsentinel_mcp.Manager.Names.{
  Env, VaultItem, get_vault_dir, vault_path_for_name, normalize_vault_name, get_active_vault_name,
  list_vaults, master_password_from_env_or_file, dirname, slash, non_empty,
  discover_existing_vault_dir, resolve_current_vault_path,
}
use pgsentinel_mcp.Manager.State.{
  on_cached, World, Act, catch, get_vault, with_vault, run_on, vault_is_unlocked,
  clear_all_sessions, start_auto_lock_timer, stop_auto_lock_timer, reset_vault,
  reset_active_vault_only, write_file, ensure_multi_vault_enabled, set_active_vault_name,
}

abbrev set_master : Text → Act Unit
set_master password = modify (λ w. record w { runtime_master_password = some password })

-- `_runtime_master_password or _master_password_from_env_or_file()`, if it is not empty
abbrev first_of_both : Option Text → Text → Option Text
first_of_both none t = non_empty t
first_of_both (some []) t = non_empty t
first_of_both (some (c ∷ s)) t = some (c ∷ s)

unfoldable pub known_master : Env → World → Option Text
known_master env w =
    first_of_both w.runtime_master_password (master_password_from_env_or_file env w.host.disk)

abbrev marker_path : Env → Text → Text
marker_path env path = elim (non_empty env.vault_marker) [
  | some marker ↦ marker
  | none ↦ slash (dirname path) (lit ".vault_initialized")
]

module _ (c : Crypto) (env : Env) where
  unfoldable pub unlock_vault : Text → Act Unit
  unlock_vault master_password = do
    with_vault env (unlock c master_password)
    on_cached touch
    set_master master_password
    start_auto_lock_timer

  unfoldable pub lock_vault : Act Unit
  lock_vault = do
    with_vault env lock
    clear_all_sessions
    stop_auto_lock_timer
    modify (λ w. record w { runtime_master_password = none })

  abbrev unlock_if_known : Option Text → Act Bool
  unlock_if_known none = pure false
  unlock_if_known (some master) = catch (do unlock_vault master; pure true) (pure false)

  unfoldable pub try_auto_unlock : Act Bool
  try_auto_unlock = do
    open_now ← vault_is_unlocked env
    if open_now then pure true else do master ← gets (known_master env); unlock_if_known master

  -- The recovery bundle of a vault: the master password, closed under a key that is shown once.
  unfoldable pub write_recovery_bundle : Text → Text → Act Text
  write_recovery_bundle path master_password w =
      let recovery_key : Text = lit "pgs_rec_" ++ c.random 36 w.host.draws in
      let salt : Text = c.random 16 (w.host.draws + 1) in
      let nonce : Text = c.random 12 (w.host.draws + 2) in
      let bundle : RecoveryBundle = record {
        salt = salt;
        nonce = nonce;
        ciphertext = c.encrypt (c.scrypt recovery_key salt) nonce (str master_password);
      } in
      (
        ok recovery_key,
        record w {
          host = record w.host {
            disk = insert (path ++ lit ".recovery") (recovery bundle) w.host.disk;
            draws = w.host.draws + 3;
          };
        },
      )

  abbrev password_in : Option Json → Act Text
  password_in (some (str password)) = pure password
  password_in (some _) = raise bad_file
  password_in none = raise wrong_recovery_key

  abbrev open_bundle : Text → Option File → Act Text
  open_bundle recovery_key (some (recovery b)) =
      password_in (c.decrypt (c.scrypt recovery_key b.salt) b.nonce b.ciphertext)
  open_bundle recovery_key (some _) = raise bad_file
  open_bundle recovery_key none = raise no_recovery

  -- `_recover_master_password`
  unfoldable pub recover_master_password : Text → Text → Act Text
  recover_master_password path recovery_key w =
      open_bundle recovery_key (lookup (path ++ lit ".recovery") w.host.disk) w

  -- The marker's text, the time, is left out.
  unfoldable pub write_vault_marker : Text → Act Unit
  write_vault_marker path = write_file (marker_path env path) (text [])

  abbrev adopt : Text × Text → AgentConfig → AgentConfig
  adopt (key_hash, expires_at) agent = record agent {
    key_hash = key_hash;
    enabled = true;
    expires_at = expires_at;
  }

  abbrev pub edit_agent : (AgentConfig → AgentConfig) → Exec Fault Desk Unit
  edit_agent mutate d = elim d.vault.contents [
    | none ↦ raise locked d
    | some contents ↦
        modify
          (λ e. record e {
            vault = record e.vault {
              contents = some (record contents { agent = mutate contents.agent });
            };
          })
          d
  ]

  abbrev adopt_shared : Option (Text × Text) → Text → Act Text
  adopt_shared none agent_key = pure agent_key
  adopt_shared (some shared) agent_key = do
    on_cached (edit_agent (adopt shared))
    on_cached (save c none)
    pure []

  unfoldable pub create_vault : Text → Bool → Option (Text × Text) → Act Text
  create_vault master_password agent_enabled shared_agent = do
    v ← get_vault env
    exists ← gets (λ w. on_disk v w.host)
    raise_when exists already_exists
    minted ← on_cached (create c master_password agent_enabled)
    agent_key ← adopt_shared shared_agent minted
    write_vault_marker v.path
    on_cached (unlock c master_password)
    set_master master_password
    recovery_key ← write_recovery_bundle v.path master_password
    modify (λ w. record w { pending_recovery_key = some recovery_key })
    start_auto_lock_timer
    pure agent_key

  unfoldable pub get_vault_data : Act VaultData
  get_vault_data = do
    v ← get_vault env
    raise_when (is_locked v) locked
    on_cached touch
    elim v.contents [ none ↦ raise locked | some contents ↦ pure contents ]

  unfoldable pub save_vault : Option Text → Act Unit
  save_vault master_password = do
    v ← get_vault env
    raise_when (is_locked v) cannot_save
    on_cached (save c master_password)

  unfoldable pub switch_active_vault : Text → Act Text
  switch_active_vault name = do
    ensure_multi_vault_enabled env
    normalized ← lift (normalize_vault_name name)
    exists ← gets (λ w. is_some (lookup (vault_path_for_name env normalized) w.host.disk))
    raise_when (not exists) (named_missing normalized)
    set_active_vault_name env normalized
    reset_active_vault_only
    pure normalized

  abbrev unlock_active : Option Text → Act Unit
  unlock_active none = raise locked
  unlock_active (some master) = do
    on_cached (unlock c master)
    set_master master
    on_cached touch
    start_auto_lock_timer

  unfoldable pub ensure_profile_active_and_unlocked : Text → Act Text
  ensure_profile_active_and_unlocked name = do
    normalized ← lift (normalize_vault_name name)
    current ← gets (λ w. get_active_vault_name env w.host.disk)
    (if current == normalized then pure normalized else switch_active_vault normalized)
    v ← get_vault env
    (if is_locked v then (do master ← gets (known_master env); unlock_active master) else pure tt)
    pure normalized

  abbrev shared_of : Option VaultData → Option (Text × Text)
  shared_of none = none
  shared_of (some contents) =
      if is_empty contents.agent.key_hash
      then none
      else some (contents.agent.key_hash, contents.agent.expires_at)

  -- `_current_shared_agent`
  unfoldable pub current_shared_agent : Act (Option (Text × Text))
  current_shared_agent = catch (do v ← get_vault env; pure (shared_of v.contents)) (pure none)

  abbrev given_or_runtime : Option Text → World → Option Text
  given_or_runtime none w = elim w.runtime_master_password [ none ↦ none | some t ↦ non_empty t ]
  given_or_runtime (some []) w = elim w.runtime_master_password [
    | none ↦ none
    | some t ↦ non_empty t
  ]
  given_or_runtime (some (x ∷ s)) w = some (x ∷ s)

  abbrev required : Option Text → Act Text
  required none = raise password_required
  required (some t) = pure t

  unfoldable pub create_named_vault : Text → Option Text → Bool → Act Text
  create_named_vault name given agent_enabled = do
    known ← gets (given_or_runtime given)
    master_password ← required known
    ensure_multi_vault_enabled env
    normalized ← lift (normalize_vault_name name)
    exists ← gets (λ w. is_some (lookup (vault_path_for_name env normalized) w.host.disk))
    raise_when exists (named_exists normalized)
    shared_agent ← current_shared_agent
    set_active_vault_name env normalized
    reset_active_vault_only
    create_vault master_password agent_enabled shared_agent

  unfoldable pub consume_pending_recovery_key : Act Text
  consume_pending_recovery_key w = (
    elim w.pending_recovery_key [ none ↦ ok [] | some key ↦ ok key ],
    record w { pending_recovery_key = none },
  )

  unfoldable pub reset_master_password_with_recovery : Text → Text → Act Text
  reset_master_password_with_recovery recovery_key new_master_password = do
    v ← get_vault env
    exists ← gets (λ w. on_disk v w.host)
    raise_when (not exists) not_found
    recovered_master ← recover_master_password v.path recovery_key
    (if is_locked v then on_cached (unlock c recovered_master) else pure tt)
    on_cached (save c (some new_master_password))
    set_master new_master_password
    new_key ← write_recovery_bundle v.path new_master_password
    modify (λ w. record w { pending_recovery_key = some new_key })
    start_auto_lock_timer
    pure new_key

  unfoldable pub import_vault_bytes : Text → File → Bool → Bool → Act Text
  import_vault_bytes name content activate overwrite = do
    ensure_multi_vault_enabled env
    normalized ← lift (normalize_vault_name name)
    exists ← gets (λ w. is_some (lookup (vault_path_for_name env normalized) w.host.disk))
    raise_when (exists && not overwrite) (named_exists normalized)
    write_file (vault_path_for_name env normalized) content
    (if activate then (do set_active_vault_name env normalized; reset_vault) else pure tt)
    pure normalized

  abbrev minutes_of : Option VaultData → ℤ → Bool
  minutes_of none elapsed = false
  minutes_of (some contents) elapsed = leb_ℤ contents.settings.auto_lock_minutes elapsed

  abbrev lock_idle : Bool → Act Unit
  lock_idle true = do on_cached lock; clear_all_sessions
  lock_idle false = pure tt

  -- One round of `_auto_lock_loop` behind its wait of 30 seconds: the thread ends if it was
  -- stopped. `elapsed >= minutes` over floats says the same of whole minutes.
  unfoldable pub auto_lock_round : Act Unit
  auto_lock_round w =
      if not w.auto_lock
      then pure tt w
      else (do
        v ← get_vault env
        now ← gets (λ x. x.host.clock)
        lock_idle (minutes_of v.contents (pos ((now - v.last_activity) / 60))))
          w
