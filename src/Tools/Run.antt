-- ===== src/Tools/Run.antt =====
-- app/tools/postgres.py: the tools on a database, with a target, and where their statements run.
-- `patterns` are the masking patterns in use, and `loads` stands for `json.loads`.
use pgsentinel_mcp.Base.Int.{ℤ, pos}
use pgsentinel_mcp.Base.Json.{Json, Items, nil, item}
use pgsentinel_mcp.Base.Result.{Result, ok, err, ◌>>=◌}
use pgsentinel_mcp.Vault.Data.{
  PostgresTargetDef, SecuritySettings, VaultData, ServerDef, get_server,
}
use pgsentinel_mcp.Security.{SqlCategory}
use pgsentinel_mcp.Masking.{mask_text, mask_items}
use pgsentinel_mcp.Remote.Command.{Arg}
use pgsentinel_mcp.Remote.Connection.{CommandResult, result_ok, RunError}
use pgsentinel_mcp.Remote.Adapter.{psql_args}
use pgsentinel_mcp.Remote.Direct.{direct_postgres_modes}
use pgsentinel_mcp.Remote.Client.Postgres.{rows_of, shown_column}
use pgsentinel_mcp.Tools.{Plan, ToolError, query_readonly_sql}
use pgsentinel_mcp.Tools.Tables.{describe_table, get_table_sample, TableError}
use pgsentinel_mcp.Base.{
  Text, ℕ, Bool, Option, none, some, List, [], ◌∷◌, ◌++◌, lit, contains, is_empty, strip,
  if◌then◌else◌, split_lines,
}

-- `_server_for_target`: the server of the target, where the vault is unlocked.
unfoldable pub server_for_target : Option VaultData → PostgresTargetDef → Option ServerDef
unfolding get_server
server_for_target none t = none
server_for_target (some vault) t =
    if is_empty t.server_id then none else get_server vault t.server_id

-- `_command_timeout`: of the settings of the vault, or else of the configuration file, or else 20.
unfoldable pub command_timeout : Option SecuritySettings → Option ℤ → ℤ
command_timeout (some s) config = s.command_timeout_seconds
command_timeout none (some seconds) = seconds
command_timeout none none = pos 20

-- What runs statements: `DirectPostgresClient.run_json_sql`, and psql through an adapter, which may
-- raise.
pub record Backend : Type 0 where
  pub direct : PostgresTargetDef → Text → CommandResult
  pub psql : PostgresTargetDef → List Arg → Result RunError CommandResult

abbrev port_or : ℤ → ℤ
port_or (pos ℕ.zero) = pos 5432
port_or n = n

-- _run_target_sql
unfoldable pub run_target_sql : Backend → PostgresTargetDef → Text → Result RunError CommandResult
unfolding psql_args
run_target_sql b t sql =
    if contains direct_postgres_modes t.connection_mode
    then ok (b.direct t sql)
    else b.psql t (
        psql_args t.container_name (if is_empty t.host then lit "localhost" else t.host)
          (port_or t.port) t.readonly_username t.database_name sql)

pub record PostgresHealth : Type 0 where
  pub ok : Bool
  pub database : Text
  pub output : Text

pub data QueryAnswer : Type 0 where
  output : SqlCategory → ℤ → Text → QueryAnswer
  rows : SqlCategory → ℤ → Items → QueryAnswer

-- An exception of the tool, or of the run.
pub data QueryFault : Type 0 where
  refused : ToolError → QueryFault
  unlisted : TableError → QueryFault
  run_failed : RunError → QueryFault

abbrev planned : {A : Type 0} → Result ToolError A → Result QueryFault A
planned (ok a) = ok a
planned (err e) = err (refused e)

abbrev listed : {A : Type 0} → Result TableError A → Result QueryFault A
listed (ok a) = ok a
listed (err e) = err (unlisted e)

abbrev ran : {A : Type 0} → Result RunError A → Result QueryFault A
ran (ok a) = ok a
ran (err e) = err (run_failed e)

-- Lines that are no JSON are left out.
unfoldable pub columns_of : (Text → Option Json) → List Text → List Text → Items
columns_of loads sensitive [] = nil
columns_of loads sensitive (line ∷ lines) =
    let rest = columns_of loads sensitive lines in
    elim (loads line) [
      | none ↦ rest
      | some column ↦ if shown_column sensitive column then item column rest else rest
    ]

abbrev stdout_or_stderr : CommandResult → Text
stdout_or_stderr r = if is_empty r.stdout then r.stderr else r.stdout

module _ (b : Backend) (loads : Text → Option Json) (patterns : List Text) where
  unfoldable pub get_postgres_health : PostgresTargetDef → Result QueryFault PostgresHealth
  unfolding run_target_sql mask_text strip
  get_postgres_health t = do
    result ← ran (run_target_sql b t (lit "SELECT json_build_object('ok', true)"))
    ok (record {
      ok = result_ok result;
      database = t.database_name;
      output = mask_text (strip result.stdout ++ strip result.stderr) patterns;
    })

  unfoldable pub described_columns : PostgresTargetDef → Text → Result QueryFault Items
  unfolding run_target_sql describe_table columns_of split_lines
  described_columns t table = do
    sql ← listed (describe_table t table)
    result ← ran (run_target_sql b t sql)
    ok (columns_of loads t.sensitive_columns (split_lines result.stdout))

  unfoldable pub sampled_rows : PostgresTargetDef → Text → Option ℤ → Result QueryFault (ℤ × Items)
  unfolding run_target_sql get_table_sample mask_items rows_of split_lines
  sampled_rows t table limit = do
    sample ← listed (get_table_sample t table limit)
    result ← ran (run_target_sql b t sample.sql)
    ok (sample.row_limit, mask_items patterns (rows_of loads patterns (split_lines result.stdout)))

  unfoldable pub answer_of : Plan → CommandResult → QueryAnswer
  unfolding mask_text mask_items rows_of split_lines strip
  answer_of plan result =
      if plan.use_json_wrap
      then rows plan.guarded.category plan.guarded.limit
          (mask_items patterns (rows_of loads patterns (split_lines result.stdout)))
      else output plan.guarded.category plan.guarded.limit
          (mask_text (strip (stdout_or_stderr result)) patterns)

  -- `query_readonly_sql`: the plan, its run, and the answer
  unfoldable pub run_query :
      Option SecuritySettings → PostgresTargetDef → Text → Option ℤ → Result QueryFault QueryAnswer
  unfolding query_readonly_sql run_target_sql answer_of
  run_query settings t sql limit = do
    plan ← planned (query_readonly_sql settings t sql limit)
    result ← ran (run_target_sql b t plan.executed_sql)
    ok (answer_of plan result)
