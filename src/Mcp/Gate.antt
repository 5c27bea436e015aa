-- ===== src/Mcp/Gate.antt =====
-- app/mcp/tools.py: what every tool does before its own work. It opens the vault of the profile
-- code, and looks up the server or the database that it works on.
pub mod Laws
mod Tests
use pgsentinel_mcp.Base.{Text, Bool, not, Option, none, some, List, [], ◌∷◌, strip, lower}
use pgsentinel_mcp.Base.Result.{Result, ok, err}
use pgsentinel_mcp.Base.Exec.{Exec, pure, raise, lift, continue, raise_when, ◌>>=◌, ◌>>◌}
use pgsentinel_mcp.Vault.Data.{
  VaultData, ServerDef, PostgresTargetDef, get_server, get_default_server,
}
use pgsentinel_mcp.Vault.Crypto.{Crypto}
use pgsentinel_mcp.Vault.Store.{Fault}
use pgsentinel_mcp.Manager.Names.{Env}
use pgsentinel_mcp.Manager.State.{World, Act, vault_is_unlocked}
use pgsentinel_mcp.Manager.{ensure_profile_active_and_unlocked, get_vault_data}
use pgsentinel_mcp.Mcp.Targets.{NoTarget, resolve_server, resolve_postgres_target}

-- The exceptions that a tool ends with here: two of its own, those of the vault and those of the
-- targets.
pub data ToolFault : Type 0 where
  profile_code_required vault_locked query_disabled : ToolFault
  vault_fault : Fault → ToolFault
  target_fault : NoTarget → ToolFault

abbrev pub Tool : Type 0 → Type 0
Tool = Exec ToolFault World

module _ {A : Type 0} where
  abbrev pub vault_result : Result Fault A → Result ToolFault A
  vault_result (ok a) = ok a
  vault_result (err e) = err (vault_fault e)

  abbrev pub target_result : Result NoTarget A → Result ToolFault A
  target_result (ok a) = ok a
  target_result (err e) = err (target_fault e)

  abbrev pub on_vault : Act A → Tool A
  on_vault m w = (vault_result (m w).0, (m w).1)

-- `_resolve(…) if name else None`
abbrev pub where_named : {A : Type 0} → Result NoTarget A → Option Text → Result NoTarget (Option A)
where_named r none = ok none
where_named r (some []) = ok none
where_named (ok a) (some (x ∷ name)) = ok (some a)
where_named (err e) (some (x ∷ name)) = err e

pub data HealthTarget : Type 0 where
  server_not_found no_servers : HealthTarget
  health_of : Option ServerDef → HealthTarget

abbrev found_server : Option ServerDef → HealthTarget
found_server none = server_not_found
found_server (some s) = health_of (some s)

abbrev default_server : VaultData → List ServerDef → HealthTarget
default_server vault [] = no_servers
default_server vault (s ∷ servers) = health_of (get_default_server vault)

unfoldable pub health_target_in : VaultData → Option Text → HealthTarget
health_target_in vault none = default_server vault vault.servers
health_target_in vault (some []) = default_server vault vault.servers
health_target_in vault (some (x ∷ name)) = found_server (get_server vault (x ∷ name))

module _ (c : Crypto) (env : Env) where
  unfoldable pub require_profile_code : Option Text → Tool Unit
  require_profile_code none = raise profile_code_required
  require_profile_code (some []) = raise profile_code_required
  require_profile_code (some (x ∷ code)) =
      on_vault (ensure_profile_active_and_unlocked c env (lower (strip (x ∷ code)))) >> pure tt

  unfoldable pub get_vault_or_raise : Tool VaultData
  get_vault_or_raise = do
    open_now ← on_vault (vault_is_unlocked env)
    raise_when (not open_now) vault_locked
    on_vault (get_vault_data c env)

  -- The vault of a tool, behind both checks.
  unfoldable pub opened_vault : Option Text → Tool VaultData
  opened_vault profile_code = do require_profile_code profile_code; get_vault_or_raise

  -- A target in it.
  unfoldable pub target_for : {A : Type 0} → (VaultData → Result NoTarget A) → Option Text → Tool A
  target_for resolve profile_code = do
    vault ← opened_vault profile_code
    lift (target_result (resolve vault))

  -- The server of a tool that takes one.
  unfoldable pub server_for : Option Text → Option Text → Tool ServerDef
  server_for profile_code server = target_for (λ vault. resolve_server vault server) profile_code

  -- The database of a tool that takes one.
  unfoldable pub database_for : Option Text → Option Text → Tool PostgresTargetDef
  database_for profile_code postgres_target =
      target_for (λ vault. resolve_postgres_target vault postgres_target) profile_code

  -- The database of `query_readonly_sql`.
  unfoldable pub queried_database : Option Text → Option Text → Tool PostgresTargetDef
  queried_database profile_code postgres_target = do
    pg ← database_for profile_code postgres_target
    raise_when (not pg.sql_query_enabled) query_disabled
    pure pg

  -- The server of `health_overview`. Without one in the vault's default, the tool looks at the
  -- server of the configuration file.
  unfoldable pub health_target : Option Text → Option Text → Tool HealthTarget
  health_target profile_code server = do
    vault ← opened_vault profile_code
    pure (health_target_in vault server)

  -- The targets of `diagnose_recent_failure`.
  unfoldable pub failure_targets :
      Option Text → Option Text → Option Text → Tool (Option ServerDef × Option PostgresTargetDef)
  failure_targets profile_code server postgres_target = do
    vault ← opened_vault profile_code
    srv ← lift (target_result (where_named (resolve_server vault server) server))
    pg ← lift (
        target_result (where_named (resolve_postgres_target vault postgres_target) postgres_target))
    pure (srv, pg)

  -- The targets of `diagnose_deployment_issue`.
  unfoldable pub deployment_targets :
      Option Text → Option Text → Option Text → Tool (ServerDef × Option PostgresTargetDef)
  deployment_targets profile_code server postgres_target = do
    vault ← opened_vault profile_code
    target ← lift (target_result (resolve_server vault server))
    pg ← lift (
        target_result (where_named (resolve_postgres_target vault postgres_target) postgres_target))
    pure (target, pg)
