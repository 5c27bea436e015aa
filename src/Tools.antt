-- ===== src/Tools.antt =====
-- app/tools/postgres.py and app/tools/logs.py: what the tools may ask of a database and of a
-- container, up to the call that asks it.
use pgsentinel_mcp.Mcp.Targets.{NoTarget, resolve_postgres_target}
use pgsentinel_mcp.Regex.{any_word, Regex, seq, many, match_at, boundary}
use pgsentinel_mcp.Vault.Data.{PostgresTargetDef, VaultData, SecuritySettings}
use pgsentinel_mcp.Base.Int.{max_ℤ, ℤ, pos}
use pgsentinel_mcp.Base.Result.{Result, ok, err, ◌>>=◌, ◌>>◌, raise_if}
use pgsentinel_mcp.Security.Sql.{
  SqlGuardDecision, SqlPolicy, is_read, readonly_policy, tables_referenced_by_sql, guard_sql_query,
}
use pgsentinel_mcp.Security.{Checked, no_items, SecurityError}
use pgsentinel_mcp.Base.{
  List, Option, lit, Text, if◌then◌else◌, keep, Bool, ◌||◌, ◌&&◌, is_some, not, is_space, ◌++◌,
  contains, some, ◌∷◌, true, [], false, none,
}
pub mod Laws
pub mod Containers
pub mod Diagnostics
pub mod Logs
pub mod Run
pub mod Tables
mod Tests

-- What the tools raise.
pub data ToolError : Type 0 where
  target : NoTarget → ToolError
  sql_disabled no_tables_allowlisted : ToolError
  tables_denied : List Text → ToolError
  security : SecurityError → ToolError

-- `_sql_policy_from_target`: the settings of the vault, where it is unlocked.
unfoldable pub sql_policy_from_target : Option SecuritySettings → PostgresTargetDef → SqlPolicy
unfolding max_ℤ
sql_policy_from_target none t = readonly_policy (max_ℤ (pos 1000) t.max_rows)
sql_policy_from_target (some s) t = record {
  mode = s.sql_policy_mode;
  allow_insert = s.sql_allow_insert;
  allow_update = s.sql_allow_update;
  allow_delete = s.sql_allow_delete;
  allow_create = s.sql_allow_create;
  allow_alter = s.sql_allow_alter;
  allow_drop = s.sql_allow_drop;
  allow_truncate = s.sql_allow_truncate;
  allow_maintenance = s.sql_allow_maintenance;
  allow_privilege = s.sql_allow_privilege;
  allow_transaction = s.sql_allow_transaction;
  hard_max_query_rows = s.sql_hard_max_query_rows;
}

unfoldable pub table_allowed : PostgresTargetDef → Text → Bool
table_allowed t table = t.allow_all_tables || contains t.allowed_tables table

abbrev denied : List Text → List Text → List Text
denied allowed refs = keep (λ ref. not (contains allowed ref)) refs

-- The names that are denied stand in the order of the text.
unfoldable pub ensure_sql_table_access : PostgresTargetDef → Text → Result ToolError Unit
ensure_sql_table_access t sql =
    if no_items (tables_referenced_by_sql sql) || t.allow_all_tables then ok tt else do
      raise_if (no_items t.allowed_tables) no_tables_allowlisted
      raise_if (not (no_items (denied t.allowed_tables (tables_referenced_by_sql sql))))
          (tables_denied (denied t.allowed_tables (tables_referenced_by_sql sql)))

-- `^\s*(select|with)\b`
unfoldable pub select_like_re : Regex
unfolding any_word lit
select_like_re = seq (many is_space) (seq (any_word (lit "select" ∷ lit "with" ∷ [])) boundary)

abbrev matches_start : Regex → Text → Bool
matches_start r s = is_some (match_at r s)

-- What a query comes to: the guard's decision and the text that is sent to the database.
pub record Plan : Type 0 where
  pub guarded : SqlGuardDecision
  pub executed_sql : Text
  pub use_json_wrap : Bool

unfoldable pub plan_of : SqlGuardDecision → Plan
plan_of g =
    if is_read g.category && matches_start select_like_re g.sql
    then record {
      guarded = g;
      executed_sql = lit "SELECT row_to_json(t) FROM (" ++ (g.sql ++ lit ") t");
      use_json_wrap = true;
    }
    else record { guarded = g; executed_sql = g.sql; use_json_wrap = false }

abbrev secured : {A : Type 0} → Checked A → Result ToolError A
secured (ok a) = ok a
secured (err e) = err (security e)

abbrev pub listed_tables : PostgresTargetDef → List Text
listed_tables t = if t.allow_all_tables then [] else t.allowed_tables

-- `query_readonly_sql` of a target, up to the run
unfoldable pub query_readonly_sql :
    Option SecuritySettings → PostgresTargetDef → Text → Option ℤ → Result ToolError Plan
query_readonly_sql settings t sql limit = do
  ensure_sql_table_access t sql
  guarded ←
      secured
        (guard_sql_query sql (listed_tables t) (sql_policy_from_target settings t) limit t.max_rows)
  ok (plan_of guarded)

abbrev targeted : {A : Type 0} → Result NoTarget A → Result ToolError A
targeted (ok a) = ok a
targeted (err e) = err (target e)

-- The tool `query_readonly_sql` of app/mcp/tools.py, on the contents of an unlocked vault.
unfoldable pub query_tool : VaultData → Text → Option ℤ → Option Text → Result ToolError Plan
query_tool vault sql limit postgres_target = do
  pg ← targeted (resolve_postgres_target vault postgres_target)
  raise_if (not pg.sql_query_enabled) sql_disabled
  query_readonly_sql (some vault.settings) pg sql limit
