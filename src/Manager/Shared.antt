-- ===== src/Manager/Shared.antt =====
-- app/core/vault_manager.py: the agent key that all definitions share, and the export.
use pgsentinel_mcp.Manager.{switch_active_vault, edit_agent, known_master}
use pgsentinel_mcp.Base.Dict.{lookup}
use pgsentinel_mcp.Base.Result.{Result, ok}
use pgsentinel_mcp.Base.Exec.{raise, continue, pure, ◌>>◌, ◌>>=◌, raise_when, gets, modify}
use pgsentinel_mcp.Vault.Data.{AgentConfig}
use pgsentinel_mcp.Manager.State.{
  Act, World, on_cached, catch, get_vault, with_vault, start_auto_lock_timer,
}
use pgsentinel_mcp.Vault.Store.{
  File, definitions_password, named_missing, Fault, unlock, is_locked, save, cannot_save,
}
use pgsentinel_mcp.Base.{
  Text, Option, Bool, ℕ, List, true, ◌+◌, ◌∷◌, [], false, some, none, map, keep,
}
use pgsentinel_mcp.Manager.Names.{
  Env, get_vault_dir, get_active_vault_name, normalize_vault_name, resolve_current_vault_path,
  vault_path_for_name, list_vaults,
}
use pgsentinel_mcp.Vault.Crypto.{Crypto}

abbrev exported : Option File → Text → Act (Text × File)
exported none name = raise (named_missing name)
exported (some content) name = pure (name, content)

abbrev name_or_active : Env → Option Text → World → Result Fault Text
name_or_active env none w = ok (get_active_vault_name env w.host.disk)
name_or_active env (some []) w = ok (get_active_vault_name env w.host.disk)
name_or_active env (some (x ∷ s)) w = normalize_vault_name (x ∷ s)

abbrev export_path : Env → Text → World → Text
export_path env name w = elim (get_vault_dir env) [
  | none ↦ resolve_current_vault_path env w.host.disk
  | some dir ↦ vault_path_for_name env name
]

unfoldable export_vault_bytes : Env → Option Text → Act (Text × File)
export_vault_bytes env name w =
    continue (name_or_active env name w)
      (λ normalized x. exported (lookup (export_path env normalized x) x.host.disk) normalized x) w

module _ (c : Crypto) (env : Env) (mutate : AgentConfig → AgentConfig) where
  -- The vault that `get_vault` has returned is changed and saved.
  abbrev update_cached : Act Unit
  update_cached = do on_cached (edit_agent c env mutate); on_cached (save c none)

  abbrev unlock_if : Bool → Text → Act Bool
  unlock_if false master = pure true
  unlock_if true master = catch (do on_cached (unlock c master); pure true) (pure false)

  abbrev update_if : Bool → ℕ → Act ℕ
  update_if false count = pure count
  update_if true count = do update_cached; pure (count + 1)

  -- A definition that the master password does not open is passed over.
  unfoldable pub update_one : Text → Text → ℕ → Act ℕ
  update_one master name count = do
    switch_active_vault c env name
    v ← get_vault env
    opened ← unlock_if (is_locked v) master
    update_if opened count

  unfoldable pub update_each : Text → List Text → ℕ → Act ℕ
  update_each master [] count = pure count
  update_each master (name ∷ names) count =
      update_one master name count >>= update_each master names

  abbrev return_to : Text → Text → Act Unit
  return_to master [] = pure tt
  return_to master (x ∷ original) = do
    switch_active_vault c env (x ∷ original)
    catch (with_vault env (unlock c master)) (pure tt)
    modify (λ w. record w { runtime_master_password = some master })
    start_auto_lock_timer

  abbrev update_all : Option Text → Act ℕ
  update_all none = raise definitions_password
  update_all (some master) = do
    original ← gets (λ w. get_active_vault_name env w.host.disk)
    names ←
        gets
          (λ w. map (λ item. item.name) (keep (λ item. item.exists) (list_vaults env w.host.disk)))
    count ← update_each master names 0
    return_to master original
    pure count

  abbrev update_single : Act ℕ
  update_single = do v ← get_vault env; raise_when (is_locked v) cannot_save; update_cached; pure 1

  -- `_apply_to_all_definitions`
  unfoldable pub apply_to_all_definitions : Act ℕ
  apply_to_all_definitions = elim (get_vault_dir env) [
    | none ↦ update_single
    | some dir ↦ (do master ← gets (known_master env); update_all master)
  ]

abbrev shared_key : Text → Text → Text → AgentConfig → AgentConfig
shared_key key_hash last_rotated expires_at agent = record {
  enabled = true;
  key_hash = key_hash;
  last_rotated = last_rotated;
  expires_at = expires_at;
}

unfoldable pub set_shared_agent_key : Crypto → Env → Text → Text → Text → Act ℕ
set_shared_agent_key c env key_hash last_rotated expires_at =
    apply_to_all_definitions c env (shared_key key_hash last_rotated expires_at)

unfoldable pub set_shared_agent_enabled : Crypto → Env → Bool → Act ℕ
set_shared_agent_enabled c env enabled =
    apply_to_all_definitions c env (λ agent. record agent { enabled = enabled })
