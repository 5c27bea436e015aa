-- ===== src/Remote/Client/Postgres.antt =====
-- app/remote/postgres_client.py: `RemotePostgresClient`. `loads` stands for `json.loads`, with
-- `none` where it raises.
use pgsentinel_mcp.Base.Int.{ℤ, pos, min_ℤ}
use pgsentinel_mcp.Base.Exec.{pure, raise_when, ◌>>=◌, ◌>>◌}
use pgsentinel_mcp.Base.Json.{Json, str, obj, Items, nil, item, get}
use pgsentinel_mcp.Config.{PgSentinelConfig}
use pgsentinel_mcp.Masking.{mask_text, mask_items}
use pgsentinel_mcp.Security.{
  ensure_allowed_container, ensure_allowed_table, first_allowed_schema, clamp_limit,
  quote_identifier,
}
use pgsentinel_mcp.Security.Sql.{validate_readonly_sql}
use pgsentinel_mcp.Remote.Command.{Arg, number}
use pgsentinel_mcp.Remote.Connection.{result_ok}
use pgsentinel_mcp.Remote.Client.{Runner, Asks, raw_sql_disabled, ask, secure}
use pgsentinel_mcp.Remote.Client.Docker.{container_status, words_of}
use pgsentinel_mcp.Tools.Tables.{double_quotes}
use pgsentinel_mcp.Base.{
  Text, Bool, true, false, not, ◌&&◌, Option, none, some, List, [], ◌∷◌, ◌++◌, lit, ◌==◌, strip,
  is_empty, contains, if◌then◌else◌, split_lines, split_words, join_with, eqb,
}
use pgsentinel_mcp.Security.Sql.{str as print}

-- rendered.replace("%s", value, 1)
unfoldable pub fill_first : Text → Text → Text
fill_first value [] = []
fill_first value (c ∷ []) = c ∷ []
fill_first value (c ∷ d ∷ s) =
    let rest = c ∷ fill_first value (d ∷ s) in if eqb c b'%' && eqb d b's' then value ++ s else rest

unfoldable pub fill_all : Text → List Text → Text
unfolding fill_first double_quotes
fill_all sql [] = sql
fill_all sql (v ∷ vs) = fill_all (fill_first (b'\'' ∷ (double_quotes v ++ b'\'' ∷ [])) sql) vs

unfoldable pub render_sql : Text → List Text → Text
unfolding fill_all split_words join_with
render_sql sql variables = join_with (b' ' ∷ []) (split_words (fill_all sql variables))

abbrev row : (Text → Option Json) → List Text → Text → Json
row loads patterns line = elim (loads line) [
  | none ↦ str (mask_text line patterns)
  | some value ↦ value
]

-- The lines that are not blank.
unfoldable pub rows_of : (Text → Option Json) → List Text → List Text → Items
unfolding mask_text strip
rows_of loads patterns [] = nil
rows_of loads patterns (line ∷ lines) =
    let rest = rows_of loads patterns lines in
    if is_empty (strip line) then rest else item (row loads patterns line) rest

abbrev no_rows : Items → Bool
no_rows nil = true
no_rows (item j js) = false

abbrev named_in : List Text → Option Json → Bool
named_in names (some (str name)) = contains names name
named_in names _ = false

-- `isinstance(column, dict) and column.get("name") not in sensitive`
abbrev pub shown_column : List Text → Json → Bool
shown_column sensitive (obj fs) = not (named_in sensitive (get (lit "name") fs))
shown_column sensitive _ = false

unfoldable pub shown_columns : List Text → Items → Items
shown_columns sensitive nil = nil
shown_columns sensitive (item j js) =
    let rest = shown_columns sensitive js in if shown_column sensitive j then item j rest else rest

pub record TableColumns : Type 0 where
  pub schema : Text
  pub table : Text
  pub columns : Items

pub record TableRows : Type 0 where
  pub schema : Text
  pub table : Text
  pub limit : ℤ
  pub rows : Items

pub record Health : Type 0 where
  pub status : Text
  pub database : Text
  pub postgres_container : Text
  pub pg_isready : Text
  pub connection_test : Text

abbrev describe_sql : Text
describe_sql =
    lit "SELECT json_build_object( 'name', column_name, 'type', data_type, 'nullable', "
    ++ lit "is_nullable = 'YES' ) FROM information_schema.columns "
    ++ lit "WHERE table_schema = %s AND table_name = %s ORDER BY ordinal_position"

module _ (runner : Runner) (loads : Text → Option Json) (c : PgSentinelConfig) where
  -- docker exec … psql … -c sql
  abbrev pub psql_args : Text → List Arg
  psql_args sql =
      words_of (
        lit "docker"
        ∷ lit "exec"
        ∷ lit "-e"
        ∷ lit "PGPASSWORD"
        ∷ c.postgres.container_name
        ∷ lit "psql"
        ∷ lit "-h"
        ∷ c.postgres.host_inside_container
        ∷ lit "-p"
        ∷ [])
      ++ (number c.postgres.port_inside_container
          ∷ words_of (
              lit "-U"
              ∷ c.postgres.username
              ∷ lit "-d"
              ∷ c.postgres.database
              ∷ lit "-X"
              ∷ lit "-A"
              ∷ lit "-t"
              ∷ lit "-c"
              ∷ sql
              ∷ []))

  unfoldable pub psql_json_rows : Text → List Text → Bool → Asks Items
  unfolding render_sql rows_of split_lines ensure_allowed_container
  psql_json_rows sql variables check = do
    secure (ensure_allowed_container c.docker.allowed_containers c.postgres.container_name)
    result ← ask runner (psql_args (render_sql sql variables)) check
    pure (
        if result_ok result
        then rows_of loads c.masking.patterns (split_lines result.stdout)
        else nil)

  unfoldable pub health : Asks Health
  unfolding psql_json_rows container_status ensure_allowed_container strip mask_text
  health = do
    secure (ensure_allowed_container c.docker.allowed_containers c.postgres.container_name)
    container ← container_status runner c c.postgres.container_name
    ready ←
        ask runner
          (words_of (
            lit "docker"
            ∷ lit "exec"
            ∷ c.postgres.container_name
            ∷ lit "pg_isready"
            ∷ lit "-U"
            ∷ c.postgres.username
            ∷ lit "-d"
            ∷ c.postgres.database
            ∷ []))
          false
    connection ← psql_json_rows (lit "SELECT json_build_object('ok', true)") [] false
    let ok = container.status == lit "running" && result_ok ready && not (no_rows connection)
    pure (record {
      status = if ok then lit "ok" else lit "warning";
      database = c.postgres.database;
      postgres_container = container.status;
      pg_isready =
          mask_text (strip (if is_empty ready.stdout then ready.stderr else ready.stdout))
            c.masking.patterns;
      connection_test = if no_rows connection then lit "failed" else lit "ok";
    })

  -- Blanks of the statement are single ones here, as `render_sql` makes them.
  unfoldable pub describe_table : Text → Asks TableColumns
  unfolding psql_json_rows shown_columns ensure_allowed_table first_allowed_schema
  describe_table name = do
    table ← secure (ensure_allowed_table c.postgres.allowed_tables name)
    schema ← secure (first_allowed_schema c.postgres.allowed_schemas)
    rows ← psql_json_rows describe_sql (schema ∷ table ∷ []) true
    pure (record {
      schema = schema;
      table = table;
      columns = shown_columns c.postgres.sensitive_columns rows;
    })

  unfoldable pub sample_table : Text → Option ℤ → Asks TableRows
  unfolding psql_json_rows mask_items ensure_allowed_table first_allowed_schema clamp_limit
      quote_identifier min_ℤ
  sample_table name limit = do
    table ← secure (ensure_allowed_table c.postgres.allowed_tables name)
    schema ← secure (first_allowed_schema c.postgres.allowed_schemas)
    row_limit ←
        secure
          (clamp_limit limit c.security.max_query_rows (min_ℤ (pos 20) c.security.max_query_rows))
    quoted_schema ← secure (quote_identifier schema)
    quoted_table ← secure (quote_identifier table)
    rows ←
        psql_json_rows
          (lit "SELECT row_to_json(t) FROM (SELECT * FROM "
            ++ (quoted_schema
                ++ (b'.' ∷ (quoted_table ++ (lit " LIMIT " ++ (print row_limit ++ lit ") t"))))))
          [] true
    pure (record {
      schema = schema;
      table = table;
      limit = row_limit;
      rows = mask_items c.masking.patterns rows;
    })

  unfoldable pub query_readonly_sql : Text → Asks Items
  unfolding psql_json_rows mask_items validate_readonly_sql
  query_readonly_sql sql = do
    raise_when (not c.security.allow_raw_sql) raw_sql_disabled
    guarded ← secure (validate_readonly_sql sql c.postgres.allowed_tables c.security.max_query_rows)
    rows ← psql_json_rows (lit "SELECT row_to_json(t) FROM (" ++ (guarded ++ lit ") t")) [] true
    pure (mask_items c.masking.patterns rows)
