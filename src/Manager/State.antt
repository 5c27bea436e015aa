-- ===== src/Manager/State.antt =====
-- app/core/vault_manager.py: the module's global state, and how it reaches its vault.
use pgsentinel_mcp.Base.{
  ℕ, Text, Bool, true, false, Option, none, some, [], ◌++◌, lit, is_some, if◌then◌else◌, ◌==◌, ◌+◌,
  ◌≡◌, arith,
}
use pgsentinel_mcp.Base.Result.{ok, err}
use pgsentinel_mcp.Base.Exec.{Exec, pure, raise, lift, gets, modify, ◌>>=◌, ◌>>◌}
use pgsentinel_mcp.Base.Dict.{Dict, lookup, insert, erase}
use pgsentinel_mcp.Vault.Crypto.{Crypto}
use pgsentinel_mcp.Vault.Store.{
  File, text, Fault, Host, Vault, Desk, new_vault, is_locked, is_unlocked, on_disk, load_encrypted,
  bad_file, bad_payload, multi_vault_off,
}
use pgsentinel_mcp.Manager.Names.{
  Env, get_vault_dir, resolve_current_vault_path, normalize_vault_name, active_file_in,
}

-- What the panel keeps for a session.
pub record Session : Type 0 where
  pub created_at : ℕ
  pub show_agent_key : Option Text
  pub show_recovery_key : Option Text

-- `auto_lock` tells whether the thread runs that locks an idle vault. The lock `_lock` is not
-- modelled: each operation is one step.
pub record World : Type 0 where
  pub vault : Option Vault
  pub host : Host
  pub sessions : Dict Session
  pub auto_lock : Bool
  pub runtime_master_password : Option Text
  pub pending_recovery_key : Option Text

abbrev pub Act : Type 0 → Type 0
Act = Exec Fault World

abbrev put_desk : World → Desk → World
put_desk w d = record w { vault = some d.vault; host = d.host }

module _ {A : Type 0} where
  -- An operation of the vault that the world holds.
  abbrev pub run_on : Vault → Exec Fault Desk A → Act A
  run_on v m w = let d : Desk = record { vault = v; host = w.host } in ((m d).0, put_desk w (m d).1)

  -- A method of the vault that `get_vault` has returned: it is the cached one.
  abbrev pub on_cached : Exec Fault Desk A → Act A
  on_cached m w = elim w.vault [ none ↦ raise bad_file w | some v ↦ run_on v m w ]

  -- except VaultError: other exceptions go on.
  abbrev recover : Fault → Act A → Act A
  recover bad_file handler = raise bad_file
  recover bad_payload handler = raise bad_payload
  recover _ handler = handler

  abbrev pub catch : Act A → Act A → Act A
  catch m handler w = elim (m w).0 [ ok a ↦ (ok a, (m w).1) | err e ↦ recover e handler (m w).1 ]

abbrev fresh_vault : Text → Act Vault
fresh_vault path w =
    (do
      (if is_some (lookup path w.host.disk)
          then run_on (new_vault path) load_encrypted
          else modify (λ x. record x { vault = some (new_vault path) }))
      gets (λ x. elim x.vault [ none ↦ new_vault path | some v ↦ v ]))
      w

-- A cached vault of another path is dropped.
abbrev cached : Text → Option Vault → Act Vault
cached path none = fresh_vault path
cached path (some v) = if v.path == path then pure v else fresh_vault path

unfoldable pub get_vault : Env → Act Vault
unfolding resolve_current_vault_path load_encrypted
get_vault env w = cached (resolve_current_vault_path env w.host.disk) w.vault w

module _ {A : Type 0} where
  -- v = get_vault(); v.m()
  abbrev pub with_vault : Env → Exec Fault Desk A → Act A
  with_vault env m = do v ← get_vault env; run_on v m

unfoldable pub vault_is_unlocked : Env → Act Bool
vault_is_unlocked env = do v ← get_vault env; pure (is_unlocked v)

unfoldable pub vault_is_locked : Env → Act Bool
vault_is_locked env = do v ← get_vault env; pure (is_locked v)

unfoldable pub vault_exists : Env → Act Bool
vault_exists env = do v ← get_vault env; gets (λ w. on_disk v w.host)

unfoldable pub clear_all_sessions : Act Unit
clear_all_sessions = modify (λ w. record w { sessions = [] })

unfoldable pub start_auto_lock_timer : Act Unit
start_auto_lock_timer = modify (λ w. record w { auto_lock = true })

unfoldable pub stop_auto_lock_timer : Act Unit
stop_auto_lock_timer = modify (λ w. record w { auto_lock = false })

unfoldable pub reset_vault : Act Unit
unfolding stop_auto_lock_timer
reset_vault = do
  stop_auto_lock_timer
  modify (λ w. record w {
    vault = none;
    sessions = [];
    runtime_master_password = none;
    pending_recovery_key = none;
  })

unfoldable pub reset_active_vault_only : Act Unit
unfolding stop_auto_lock_timer
reset_active_vault_only = do stop_auto_lock_timer; modify (λ w. record w { vault = none })

abbrev pub write_file : Text → File → Act Unit
write_file path f =
    modify (λ w. record w { host = record w.host { disk = insert path f w.host.disk } })

-- `_ensure_multi_vault_enabled`, with the directory that it finds
unfoldable pub ensure_multi_vault_enabled : Env → Act Text
ensure_multi_vault_enabled env = elim (get_vault_dir env) [
  | none ↦ raise multi_vault_off
  | some dir ↦ pure dir
]

unfoldable pub set_active_vault_name : Env → Text → Act Unit
unfolding ensure_multi_vault_enabled
set_active_vault_name env name = do
  normalized ← lift (normalize_vault_name name)
  dir ← ensure_multi_vault_enabled env
  write_file (active_file_in env dir) (text (normalized ++ lit "\n"))

-- secrets.token_urlsafe(48) names a session.
unfoldable pub create_session : Crypto → Act Text
create_session c w =
    let session_id : Text = c.random 48 w.host.draws in
    (
      ok session_id,
      record w {
        sessions =
            insert session_id
              (record {
                created_at = w.host.clock;
                show_agent_key = none;
                show_recovery_key = none;
              })
              w.sessions;
        host = record w.host { draws = w.host.draws + 1 };
      },
    )

unfoldable pub get_session : Text → World → Option Session
get_session session_id w = lookup session_id w.sessions

unfoldable pub destroy_session : Text → Act Unit
destroy_session session_id = modify (λ w. record w { sessions = erase session_id w.sessions })

-- What `get_vault` returns is the vault that it leaves cached.
pub get_vault-cached :
    (env : Env) (w : World) {v : Vault}
    → (get_vault env w).0 ≡ ok v
    → (get_vault env w).1.vault ≡ some v
unfolding get_vault
get_vault-cached env w h = ground arith
