-- ===== src/Admin/Tests.antt =====
-- Runs of app/admin/routes.py with the toy cipher, and the theorems at them.
use pgsentinel_mcp.Admin.Routes.Gate.{IsLetIn, IsTurnedAway, guarded_routes-IsTurnedAway}
use pgsentinel_mcp.Admin.Routes.{
  settings_update, definitions_create, definitions_update, definitions_archive, agent_rotate,
  agent_toggle, vaults_import,
}
use pgsentinel_mcp.Vault.Store
use pgsentinel_mcp.Manager.{lock_vault, unlock_vault}
use pgsentinel_mcp.Base.Dict.{lookup}
use pgsentinel_mcp.Admin.Definitions.Laws.{form_server, resolve_server-apply_definition_form}
use pgsentinel_mcp.Admin.Access.Laws.{login_submit-lets_in}
use pgsentinel_mcp.Base.Result.{ok}
use pgsentinel_mcp.Vault.Data.{new_vault_data}
use pgsentinel_mcp.Base.Int.{negsuc, pos}
use pgsentinel_mcp.Vault.Store.{new_vault, text, unlock, touch, File}
use pgsentinel_mcp.Admin.Settings.{SettingsForm, apply_settings_form}
use pgsentinel_mcp.Mcp.Targets.{resolve_server}
use pgsentinel_mcp.Manager.Names.{
  Env, resolve_current_vault_path, get_vault_dir, list_vaults, discover_existing_vault_dir,
  vault_search_dirs, codes_in, code_in, strip_prefix, dirname,
}
use pgsentinel_mcp.Admin.Definitions.{
  DefinitionForm, stripped_parts, apply_definition_form, split, server_of_form,
}
use pgsentinel_mcp.Admin.Settings.Bounds.{IsBounded, apply_settings_form-IsBounded}
use pgsentinel_mcp.Manager.State.{
  World, get_vault, Session, get_session, vault_is_unlocked, create_session, vault_exists,
  start_auto_lock_timer, destroy_session, clear_all_sessions, stop_auto_lock_timer,
}
use pgsentinel_mcp.Base.{
  some, ◌∷◌, lit, none, [], ◌≡◌, false, true, strip, lstrip, rstrip, is_space, equal, has_char,
  contains, refl, ◌⊎◌,
}
use pgsentinel_mcp.Admin.Access.{
  lock, login_submit, Response, require_unlocked, redirect, redirect_login, try_login,
  existing_vault_names,
}
use pgsentinel_mcp.Vault.Store.Tests.{toy}

abbrev env : Env
env = record {
  vault_path = lit "v";
  vault_dir = [];
  active_vault_file = [];
  vault_marker = [];
  master_password = [];
  master_password_file = [];
}

-- An open vault, and nobody logged in.
abbrev panel : World
panel = record {
  vault = some (record (new_vault (lit "v")) { contents = some new_vault_data });
  host = record { disk = (lit "v", text []) ∷ []; clock = 9; draws = 4 };
  sessions = [];
  auto_lock = true;
  runtime_master_password = none;
  pending_recovery_key = none;
}

abbrev session : Session
session = record { created_at = 0; show_agent_key = none; show_recovery_key = none }

abbrev visited : World
visited = record panel { sessions = (lit "s", session) ∷ [] }

abbrev blank_form : DefinitionForm
blank_form = record {
  docker_mode = lit "local";
  host = [];
  ssh_port = pos 22;
  ssh_username = [];
  ssh_private_key = [];
  container_list = lit "web, db";
  postgres_enabled = true;
  postgres_mode = lit "postgres_direct_tcp";
  pg_host = lit "db";
  pg_port = pos 5432;
  pg_container = [];
  pg_database = lit "app";
  pg_username = lit "reader";
  pg_password = [];
  pg_ssl_mode = [];
  pg_ca_cert = [];
  pg_client_cert = [];
  pg_client_key = [];
  access_level = lit "sql";
}

runs : Unit {0}
unfolding get_vault resolve_current_vault_path get_vault_dir strip lstrip rstrip is_space equal lit
    lookup require_unlocked get_session vault_is_unlocked lock lock_vault login_submit try_login
    create_session vault_exists existing_vault_names list_vaults unlock unlock_vault touch
    start_auto_lock_timer split stripped_parts server_of_form discover_existing_vault_dir
    vault_search_dirs codes_in code_in strip_prefix dirname has_char destroy_session
    clear_all_sessions stop_auto_lock_timer contains Store.lock
runs = tt

parts : stripped_parts b',' (lit "web, db") ≡ lit "web" ∷ lit "db" ∷ []
unfolding runs
parts = refl

let_in : (require_unlocked env (some (lit "s")) visited).0 ≡ ok tt
unfolding runs
let_in = refl

locked_up :
    (lock toy env (some (lit "s")) visited).0
    ≡ ok (record redirect_login { event = some (lit "vault_lock") })
unfolding runs
locked_up = refl

abbrev answer : Response
answer = record {
  page = redirect (lit "/admin/dashboard");
  cookie = some (4 ∷ []);
  event = some (lit "vault_unlock_success");
}

logged : (login_submit toy env (lit "pw") panel).0 ≡ ok answer
unfolding runs
logged = refl

resolve_server-apply_definition_form_example :
    resolve_server
      (apply_definition_form blank_form (lit "u") (lit "p") (lit "acmeprod") new_vault_data)
      (some (lit "acmeprod"))
    ≡ ok (form_server blank_form (lit "u") (lit "p") (lit "acmeprod") new_vault_data)
resolve_server-apply_definition_form_example =
    resolve_server-apply_definition_form blank_form (lit "u") (lit "p") (lit "acmeprod")
      new_vault_data (some (lit "acmeprod"))

abbrev wild_form : SettingsForm
wild_form = record {
  auto_lock_minutes = negsuc 4;
  max_log_lines = pos 9000;
  max_query_rows = pos 0;
  command_timeout_seconds = pos 20;
  sql_policy_mode = lit "anything";
  sql_hard_max_query_rows = pos 100000;
  sql_allow_insert = false;
  sql_allow_update = false;
  sql_allow_delete = false;
  sql_allow_create = false;
  sql_allow_alter = false;
  sql_allow_drop = false;
  sql_allow_truncate = false;
  sql_allow_maintenance = false;
  sql_allow_privilege = false;
  sql_allow_transaction = false;
  masking_patterns_text = [];
}

apply_settings_form-IsBounded_example :
    IsBounded (apply_settings_form wild_form new_vault_data).settings
apply_settings_form-IsBounded_example = apply_settings_form-IsBounded wild_form new_vault_data

login_submit-lets_in_example :
    require_unlocked env (some (4 ∷ [])) (login_submit toy env (lit "pw") panel).1
    ≡ (ok tt, (login_submit toy env (lit "pw") panel).1)
login_submit-lets_in_example = login_submit-lets_in toy env (lit "pw") panel (λ n e. cc) logged refl

guarded_routes-IsTurnedAway_example :
    IsLetIn env (some (lit "t")) panel
    ⊎ (IsTurnedAway panel (settings_update toy env (some (lit "t")) wild_form panel)
        × IsTurnedAway panel
            (definitions_create toy env (some (lit "t")) [] [] (lit "c") blank_form panel)
        × IsTurnedAway panel
            (definitions_update toy env (some (lit "t")) [] [] (lit "c") blank_form panel)
        × IsTurnedAway panel (definitions_archive toy env (some (lit "t")) [] (lit "c") panel)
        × IsTurnedAway panel (agent_rotate toy env (some (lit "t")) [] (λ n. []) (pos 3) true panel)
        × IsTurnedAway panel (agent_toggle toy env (some (lit "t")) true panel)
        × IsTurnedAway panel
            (vaults_import toy env (some (lit "t")) (lit "n") true true (text []) panel))
guarded_routes-IsTurnedAway_example =
    guarded_routes-IsTurnedAway toy env (some (lit "t")) panel wild_form blank_form [] [] (lit "c")
      [] [] (lit "n") (λ n. []) (pos 3) true true (text [])
