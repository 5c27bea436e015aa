-- ===== src/Mcp/Gate/Tests.antt =====
-- The gate of app/mcp/tools.py on a vault with one database, and the theorems at it.
use pgsentinel_mcp.Base.{
  none, some, [], ◌∷◌, ◌≡◌, refl, true, lit, lower, strip, lstrip, rstrip, is_space, equal,
  lower_char, is_alnum, is_upper, is_lower, is_digit, has_char, starts_with,
}
use pgsentinel_mcp.Base.Result.{ok, err}
use pgsentinel_mcp.Base.Dict.{lookup}
use pgsentinel_mcp.Vault.Data.{
  VaultData, PostgresTargetDef, new_vault_data, new_postgres_target, get_default_postgres_target,
  get_postgres_target,
}
use pgsentinel_mcp.Vault.Store.{new_vault, locked, touch}
use pgsentinel_mcp.Vault.Store.Tests.{toy}
use pgsentinel_mcp.Manager.Names.{
  Env, get_vault_dir, get_active_vault_name, normalize_vault_name, resolve_current_vault_path,
  clean_name, master_password_from_env_or_file, strip_prefix, strip_suffix,
}
use pgsentinel_mcp.Manager.State.{World, get_vault, vault_is_unlocked}
use pgsentinel_mcp.Manager.{ensure_profile_active_and_unlocked, get_vault_data, known_master}
use pgsentinel_mcp.Manager.Contents.{Holds}
use pgsentinel_mcp.Mcp.Targets.{resolve_postgres_target}
use pgsentinel_mcp.Mcp.Gate.{
  require_profile_code, get_vault_or_raise, opened_vault, target_for, database_for,
  queried_database, profile_code_required, vault_fault,
}
use pgsentinel_mcp.Mcp.Gate.Laws.{IsCode, target_for-IsReached}

abbrev env : Env
env = record {
  vault_path = lit "d/acmeprod.vault.enc";
  vault_dir = [];
  active_vault_file = [];
  vault_marker = [];
  master_password = [];
  master_password_file = [];
}

abbrev database : PostgresTargetDef
database = record (new_postgres_target (lit "i") (lit "n")) { sql_query_enabled = true }

abbrev contents : VaultData
contents = record new_vault_data { postgres_targets = database ∷ [] }

abbrev opened : World
opened = record {
  vault = some (record (new_vault (lit "d/acmeprod.vault.enc")) { contents = some contents });
  host = record { disk = []; clock = 0; draws = 0 };
  sessions = [];
  auto_lock = true;
  runtime_master_password = none;
  pending_recovery_key = none;
}

abbrev shut : World
shut = record opened { vault = some (new_vault (lit "d/acmeprod.vault.enc")) }

-- All that these runs compute with.
runs : Unit {0}
unfolding queried_database database_for target_for opened_vault require_profile_code
    get_vault_or_raise ensure_profile_active_and_unlocked get_vault_data known_master
    vault_is_unlocked get_vault get_vault_dir get_active_vault_name normalize_vault_name
    resolve_current_vault_path clean_name master_password_from_env_or_file touch lookup lit lower
    strip lstrip rstrip is_space equal lower_char is_alnum is_upper is_lower is_digit strip_prefix
    strip_suffix has_char starts_with resolve_postgres_target get_default_postgres_target
    get_postgres_target
runs = tt

code_needed : (queried_database toy env (some []) none opened).0 ≡ err profile_code_required
unfolding runs
code_needed = refl

locked_refused :
    (queried_database toy env (some (lit "AcmeProd")) none shut).0 ≡ err (vault_fault locked)
unfolding runs
locked_refused = refl

reached : (queried_database toy env (some (lit "AcmeProd")) none opened).0 ≡ ok database
unfolding runs
reached = refl

database_reached :
    (target_for toy env
      (λ vault. resolve_postgres_target vault none)
      (some (lit "AcmeProd"))
      opened).0
    ≡ ok database
unfolding runs
database_reached = refl

target_for-IsReached_example :
    IsCode (some (lit "AcmeProd"))
    × (vault : VaultData) × Holds
        (target_for toy env (λ d. resolve_postgres_target d none) (some (lit "AcmeProd")) opened).1
        vault
    × (resolve_postgres_target vault none ≡ ok database)
target_for-IsReached_example =
    target_for-IsReached toy env (λ d. resolve_postgres_target d none) (some (lit "AcmeProd"))
      opened database_reached
