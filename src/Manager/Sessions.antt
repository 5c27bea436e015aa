-- ===== src/Manager/Sessions.antt =====
-- app/core/vault_manager.py: sessions, and the switching and importing of vaults.
use pgsentinel_mcp.Base.{
  inl, inr, Text, Bool, true, false, none, some, ◌≡◌, arith, is_some, if◌then◌else◌, ◌==◌,
}
use pgsentinel_mcp.Base.Result.{Result-cases, ok, err}
use pgsentinel_mcp.Base.Dict.{lookup, lookup-insert, lookup-erase}
use pgsentinel_mcp.Vault.Crypto.{Crypto}
use pgsentinel_mcp.Vault.Store.{File, Fault, named_exists}
use pgsentinel_mcp.Manager.Names.{
  Env, get_vault_dir, normalize_vault_name, vault_path_for_name, get_active_vault_name,
}
use pgsentinel_mcp.Manager.State.{
  World, create_session, get_session, destroy_session, set_active_vault_name,
  ensure_multi_vault_enabled, reset_active_vault_only, stop_auto_lock_timer,
}
use pgsentinel_mcp.Manager.Codes.{
  normalize_vault_name-IsCode, normalize_vault_name_idem, get_active_vault_name-written,
}
use pgsentinel_mcp.Manager.{switch_active_vault, import_vault_bytes}

-- A new session is found under its own name, with nothing to show, and every other name finds
-- what it found before.
get_session-create_session :
    (c : Crypto) (w : World) (j : Text)
    → get_session j (create_session c w).1 ≡ (
        if c.random 48 w.host.draws == j
        then some
            (record { created_at = w.host.clock; show_agent_key = none; show_recovery_key = none })
        else get_session j w)
unfolding create_session get_session
get_session-create_session c w j = rw lookup-insert

-- A destroyed session is not found, and every other one is kept.
get_session-destroy_session :
    (w : World) (i j : Text)
    → get_session j (destroy_session i w).1 ≡ (if i == j then none else get_session j w)
unfolding destroy_session get_session
get_session-destroy_session w i j = rw lookup-erase

-- In a directory of vaults, switching to a name whose file is there returns its code and makes
-- it the active one; the cached vault is dropped, and the sessions and the master password are
-- kept.
pub switch_active_vault-active :
    (c : Crypto) (env : Env) (w : World) (name : Text) {dir code : Text}
    → get_vault_dir env ≡ some dir
    → normalize_vault_name name ≡ ok code
    → is_some (lookup (vault_path_for_name env code) w.host.disk) ≡ true
    → ((switch_active_vault c env name w).0 ≡ ok code)
      × (get_active_vault_name env (switch_active_vault c env name w).1.host.disk ≡ code)
      × ((switch_active_vault c env name w).1.vault ≡ none)
      × ((switch_active_vault c env name w).1.sessions ≡ w.sessions)
      × ((switch_active_vault c env name w).1.runtime_master_password ≡ w.runtime_master_password)
unfolding switch_active_vault set_active_vault_name ensure_multi_vault_enabled
    reset_active_vault_only stop_auto_lock_timer
switch_active_vault-active c env w name {dir} {code} e n there = ground (
  arith,
  normalize_vault_name_idem name n,
  get_active_vault_name-written env w.host.disk code e (normalize_vault_name-IsCode name n),
)

-- A switch that raises changes nothing.
pub switch_active_vault-fails :
    (c : Crypto) (env : Env) (w : World) (name : Text) {f : Fault}
    → (switch_active_vault c env name w).0 ≡ err f
    → (switch_active_vault c env name w).1 ≡ w
unfolding switch_active_vault set_active_vault_name ensure_multi_vault_enabled
    reset_active_vault_only stop_auto_lock_timer
switch_active_vault-fails c env w name h = elim (Result-cases (normalize_vault_name name)) [
  | inl (code, e) ↦ ground (arith, e, normalize_vault_name_idem name e)
  | inr (fault, e) ↦ ground (arith, e)
]

-- In a directory of vaults, an import without overwriting to a name whose file is there raises and
-- changes nothing.
pub import_vault_bytes-existing :
    (c : Crypto) (env : Env) (w : World) (name : Text) (content : File) (activate : Bool)
    {dir code : Text}
    → get_vault_dir env ≡ some dir
    → normalize_vault_name name ≡ ok code
    → is_some (lookup (vault_path_for_name env code) w.host.disk) ≡ true
    → import_vault_bytes c env name content activate false w ≡ (err (named_exists code), w)
unfolding import_vault_bytes ensure_multi_vault_enabled
import_vault_bytes-existing c env w name content activate e n there = ground arith
