-- ===== src/Admin/Routes.antt =====
-- app/admin/routes.py: the routes that change vaults. A form's text fields come as they were sent.
use pgsentinel_mcp.Admin.Access.{not_found}
use pgsentinel_mcp.Base.{zero}
use pgsentinel_mcp.Manager.Shared.{set_shared_agent_enabled, set_shared_agent_key}
use pgsentinel_mcp.Manager.{
  switch_active_vault, ensure_profile_active_and_unlocked, import_vault_bytes, get_vault_data,
  consume_pending_recovery_key, reset_master_password_with_recovery, create_named_vault, save_vault,
  unlock_vault,
}
use pgsentinel_mcp.Admin.Definitions.{DefinitionForm, apply_definition_form}
use pgsentinel_mcp.Admin.Settings.{SettingsForm, apply_settings_form}
use pgsentinel_mcp.Base.Int.{ℤ, pos, max_ℤ, min_ℤ}
use pgsentinel_mcp.Base.Dict.{lookup, insert, erase}
use pgsentinel_mcp.Manager.Names.{Env, VaultItem, list_vaults, get_active_vault_name}
use pgsentinel_mcp.Admin.Access.{
  Refusal, Response, redirect, form, plain, crashed, require_unlocked, if_given, redirect_login,
  show_keys, welcome,
}
use pgsentinel_mcp.Vault.Data.{VaultData, new_vault_data}
use pgsentinel_mcp.Base.Exec.{Exec, modify, raise, pure, ◌>>◌, ◌>>=◌, gets}
use pgsentinel_mcp.Base.{
  ℕ, Text, Bool, List, ◌++◌, Option, lit, none, true, if◌then◌else◌, map, not, some, false, [],
  keep, ◌==◌, ◌∷◌, strip, lower, ◌||◌, ◌&&◌, ltb, length,
}
use pgsentinel_mcp.Manager.State.{Act, get_session, World, catch, create_session, destroy_session}
use pgsentinel_mcp.Base.Result.{Result, ok, err}
use pgsentinel_mcp.Vault.Crypto.{Crypto}
use pgsentinel_mcp.Vault.Store.{
  File, Vault, Fault, text, Desk, new_vault, generate_agent_token, hash_agent_token,
}
pub mod Gate

abbrev Route : Type 0
Route = Exec Refusal World Response

abbrev crash : {A : Type 0} → Result Fault A → Result Refusal A
crash (ok a) = ok a
crash (err f) = err (crashed f)

-- An operation of the manager whose exceptions are let through.
abbrev act : {A : Type 0} → Act A → Exec Refusal World A
act m w = (crash (m w).0, (m w).1)

module _ {A : Type 0} where
  -- except VaultError: other exceptions go on.
  abbrev attempt : Act A → Exec Refusal World (Option A)
  attempt m = act (catch (do a ← m; pure (some a)) (pure none))

  -- An operation that draws from `secrets` and touches no vault.
  abbrev on_host : Exec Fault Desk A → Act A
  on_host m w =
      let d : Desk = record { vault = new_vault []; host = w.host } in
      ((m d).0, record w { host = (m d).1.host })

abbrev goes_to : Text → Text → Response
goes_to where_to event = record { page = redirect where_to; cookie = none; event = some event }

abbrev edit_contents : (VaultData → VaultData) → Vault → Vault
edit_contents f v = record v { contents = elim v.contents [ none ↦ none | some d ↦ some (f d) ] }

-- The contents that `get_vault_data` has returned are changed in place.
abbrev edit_cached : (VaultData → VaultData) → Act Unit
edit_cached f =
    modify
      λ w. record w { vault = elim w.vault [ none ↦ none | some v ↦ some (edit_contents f v) ] }

-- session["show_agent_key"] = token, in a session that is there
abbrev show_token : Text → Text → Act Unit
show_token token id w = elim (get_session id w) [
  | none ↦ (ok tt, w)
  | some s ↦ (
    ok tt,
    record w { sessions = insert id (record s { show_agent_key = some token }) w.sessions },
  )
]

abbrev no_bytes : File → Bool
no_bytes (text []) = true
no_bytes _ = false

-- A file that is there is renamed.
unfoldable pub move_file : Text → Text → Act Unit
move_file path target w = elim (lookup path w.host.disk) [
  | none ↦ (ok tt, w)
  | some f ↦
      (ok tt, record w { host = record w.host { disk = insert target f (erase path w.host.disk) } })
]

abbrev archived : Text → Text → Text
archived stamp path = path ++ (lit ".archived-" ++ stamp)

abbrev paths_of : Text → List VaultItem → List Text
paths_of name items = map (λ i. i.path) (keep (λ i. i.name == name && i.exists) items)

abbrev definitions_form : ℕ → Response
definitions_form code = record {
  page = form (lit "definitions.html.j2") code;
  cookie = none;
  event = none;
}

module _ (c : Crypto) (env : Env) (cookie : Option Text) where
  abbrev archive_first : Text → List Text → Route
  archive_first stamp [] = raise not_found
  archive_first stamp (path ∷ paths) = do
    act (move_file path (archived stamp path))
    act (move_file (path ++ lit ".bak") (archived stamp (path ++ lit ".bak")))
    act (move_file (path ++ lit ".recovery") (archived stamp (path ++ lit ".recovery")))
    pure (goes_to (lit "/admin/definitions") (lit "definition_archived"))

  abbrev archive_other : Text → Text → Bool → Route
  archive_other stamp name true = pure (definitions_form 400)
  archive_other stamp name false = do
    paths ← gets (λ w. paths_of name (list_vaults env w.host.disk))
    archive_first stamp paths

  -- `stamp` is the time as a text.
  unfoldable pub definitions_archive : Text → Text → Route
  definitions_archive stamp code = do
    require_unlocked env cookie
    active ← gets (λ w. lower (strip code) == get_active_vault_name env w.host.disk)
    archive_other stamp (lower (strip code)) active

  unfoldable pub settings_update : SettingsForm → Route
  settings_update f = do
    require_unlocked env cookie
    act (get_vault_data c env)
    act (edit_cached (apply_settings_form f))
    act (save_vault c env none)
    pure (goes_to (lit "/admin/settings") (lit "settings_updated"))

  abbrev save_definition : Text → Text → Text → DefinitionForm → Act Unit
  save_definition uuid pg_id code f = do
    get_vault_data c env
    edit_cached (apply_definition_form f uuid pg_id code)
    save_vault c env none

  abbrev update_found : Text → Text → Text → DefinitionForm → Option Text → Route
  update_found uuid pg_id code f none = raise not_found
  update_found uuid pg_id code f (some _) = do
    act (save_definition uuid pg_id code f)
    pure (
        goes_to (lit "/admin/definitions/" ++ (code ++ lit "/edit?saved=updated"))
          (lit "definition_updated"))

  unfoldable pub definitions_update : Text → Text → Text → DefinitionForm → Route
  definitions_update uuid pg_id code f = do
    require_unlocked env cookie
    found ← attempt (ensure_profile_active_and_unlocked c env code)
    update_found uuid pg_id (lower code) f found

  abbrev fill_created : Text → Text → Text → DefinitionForm → Option Text → Route
  fill_created uuid pg_id code f none = pure (plain (form (lit "definition_form.html.j2") 400))
  fill_created uuid pg_id code f (some agent_key) = do
    recovery_key ← act (consume_pending_recovery_key c env)
    act (save_definition uuid pg_id code f)
    session_id ← act (create_session c)
    act (show_keys session_id (some agent_key) (some recovery_key))
    pure (welcome c env (lit "/admin/agent") session_id (lit "definition_created"))

  unfoldable pub definitions_create : Text → Text → Text → DefinitionForm → Route
  definitions_create uuid pg_id code f = do
    require_unlocked env cookie
    made ← attempt (create_named_vault c env (lower code) none true)
    fill_created uuid pg_id (lower code) f made

  -- `key_ttl_days or 30`, within its bounds
  abbrev days_of : ℤ → ℤ
  days_of (pos zero) = pos 30
  days_of days = max_ℤ (pos 1) (min_ℤ days (pos 3650))

  -- `now` is the time as a text, `in_days` the time so many days on.
  unfoldable pub agent_rotate : Text → (ℤ → Text) → ℤ → Bool → Route
  agent_rotate now in_days key_ttl_days key_never_expires = do
    require_unlocked env cookie
    token ← act (on_host (generate_agent_token c))
    key_hash ← act (on_host (hash_agent_token c token))
    act (
        set_shared_agent_key c env key_hash now
          (if key_never_expires then [] else in_days (days_of key_ttl_days)))
    act (if_given cookie (show_token token))
    pure (goes_to (lit "/admin/agent") (lit "agent_key_rotated"))

  unfoldable pub agent_toggle : Bool → Route
  agent_toggle enabled = do
    require_unlocked env cookie
    act (set_shared_agent_enabled c env enabled)
    pure (
        goes_to (lit "/admin/agent")
          (if enabled then lit "agent_access_enabled" else lit "agent_access_disabled"))

  abbrev imported_to : Bool → Option Text → Route
  imported_to activate none = pure (definitions_form 400)
  imported_to true (some name) = do
    act (if_given cookie destroy_session)
    pure (record redirect_login { event = some (lit "vault_imported") })
  imported_to false (some name) = pure (goes_to (lit "/admin/definitions") (lit "vault_imported"))

  abbrev import_body : Text → Bool → Bool → File → Bool → Route
  import_body name activate overwrite body true = pure (definitions_form 400)
  import_body name activate overwrite body false = do
    made ← attempt (import_vault_bytes c env name body activate overwrite)
    imported_to activate made

  unfoldable pub vaults_import : Text → Bool → Bool → File → Route
  vaults_import name activate overwrite body = do
    require_unlocked env cookie
    import_body name activate overwrite body (no_bytes body)

  -- The two routes below ask for no session.
  unfoldable login_select_vault : Text → Act Response
  login_select_vault name =
      catch
        (do
          switch_active_vault c env name
          pure (record redirect_login { event = some (lit "vault_selected_for_login") }))
        (pure (plain (form (lit "login.html.j2") 400)))

  abbrev reset_and_open : Text → Text → Act (Option Text)
  reset_and_open recovery_key password =
      catch
        (do
          new_recovery ← reset_master_password_with_recovery c env (strip recovery_key) password
          unlock_vault c env password
          pure (some new_recovery))
        (pure none)

  abbrev show_recovery : Option Text → Act Response
  show_recovery none = pure (record {
    page = form (lit "login.html.j2") 401;
    cookie = none;
    event = some (lit "vault_recovery_failed");
  })
  show_recovery (some new_recovery) = do
    session_id ← create_session c
    show_keys session_id none (some new_recovery)
    pure (welcome c env (lit "/admin/dashboard") session_id (lit "vault_recovery_success"))

  unfoldable login_recovery_reset : Text → Text → Text → Act Response
  login_recovery_reset recovery_key new_master_password confirm_master_password =
      if not (new_master_password == confirm_master_password) || ltb (length new_master_password) 8
      then pure (plain (form (lit "login.html.j2") 400))
      else do
        new_recovery ← reset_and_open recovery_key new_master_password
        show_recovery new_recovery
