-- ===== src/Tools/Tests.antt =====
-- Runs of app/tools, and the theorems at inputs that meet their hypotheses.

use pgsentinel_mcp.Tools.Tables.Laws.{
  IsSafe, get_table_sample-IsSafe, read_literal, describe_table-literals,
}
use pgsentinel_mcp.Tools.Tables.{
  double_quotes, Sample, describe_head, describe_table, get_table_sample, sample_of, schema_literal,
  schema_of, after_table,
}
use mathlib.Core.List.{flat_map}
use pgsentinel_mcp.Regex.{
  matches, match_at, search_in, scan, find_all, one_match, many_matches, last_or, word, any_word,
  full_match,
}
use pgsentinel_mcp.Security.Sql.{
  str, head_of, with_dml_re, limit_re, table_ref_re, is_head_char, read_statement_supports_limit,
  decimal_from,
}
use pgsentinel_mcp.Tools.Laws.{query_tool-sql_definition, query_readonly_sql-tables}
use pgsentinel_mcp.Base.Result.{ok}
use pgsentinel_mcp.Base.Int.{pos}
use pgsentinel_mcp.Security.{
  read, clamp_limit, is_ident_start, quote_identifier, validate_identifier,
}
use pgsentinel_mcp.Mcp.Targets.{resolve_server, resolve_postgres_target}
use pgsentinel_mcp.Security.Sql.{
  guard_sql_query, reject_multiple_statements, has_comment, permits, tables_referenced_by_sql,
  classify_sql_statement, classify_head, statement_head, enforce_sql_policy, check_tables, hard_max,
  decide_sql, drop_semicolon, with_limit,
}
use pgsentinel_mcp.Tools.Logs.{log_access_error}
use pgsentinel_mcp.Admin.Definitions.{
  DefinitionForm, apply_definition_form, apply_access_level, target_of_form,
}
use pgsentinel_mcp.Base.{
  Text, all, lit, some, contains, none, [], ◌≡◌, ◌∷◌, refl, true, equal, strip, lower,
  has_substring, starts_with, has_char, is_word, ◌++◌,
}
use pgsentinel_mcp.Vault.Data.{
  VaultData, PostgresTargetDef, ServerDef, new_server, new_vault_data, new_postgres_target,
  default_settings, get_postgres_target, get_default_postgres_target, get_server,
  get_default_server,
}
use pgsentinel_mcp.Tools.{
  query_readonly_sql, query_tool, Plan, sql_policy_from_target, ensure_sql_table_access, plan_of,
  select_like_re, table_allowed,
}

abbrev listing : PostgresTargetDef
listing = record (new_postgres_target (lit "i") (lit "n")) {
  allowed_tables = lit "users" ∷ [];
  sql_query_enabled = true;
}

abbrev select : Text
select = lit "select id from users"

abbrev sql_form : DefinitionForm
sql_form = record {
  docker_mode = lit "local";
  host = [];
  ssh_port = pos 22;
  ssh_username = [];
  ssh_private_key = [];
  container_list = [];
  postgres_enabled = true;
  postgres_mode = lit "postgres_direct_tcp";
  pg_host = lit "db";
  pg_port = pos 5432;
  pg_container = [];
  pg_database = lit "app";
  pg_username = lit "reader";
  pg_password = [];
  pg_ssl_mode = [];
  pg_ca_cert = [];
  pg_client_cert = [];
  pg_client_key = [];
  access_level = lit "sql";
}

abbrev readonly_form : DefinitionForm
readonly_form = record sql_form { access_level = lit "readonly" }

abbrev saved_sql : VaultData
saved_sql = apply_definition_form sql_form (lit "u") (lit "p") (lit "acmeprod") new_vault_data

abbrev plan : Plan
plan = record {
  guarded = record { sql = lit "select id from users LIMIT 100"; category = read; limit = pos 100 };
  executed_sql = lit "SELECT row_to_json(t) FROM (select id from users LIMIT 100) t";
  use_json_wrap = true;
}

runs : Unit {0}
unfolding guard_sql_query reject_multiple_statements has_comment classify_sql_statement
    classify_head statement_head enforce_sql_policy check_tables tables_referenced_by_sql hard_max
    decide_sql permits drop_semicolon with_limit str head_of with_dml_re limit_re table_ref_re
    is_head_char read_statement_supports_limit decimal_from clamp_limit is_ident_start matches
    match_at search_in scan find_all one_match many_matches last_or word any_word lit contains equal
    strip lower has_substring starts_with has_char is_word flat_map query_readonly_sql query_tool
    ensure_sql_table_access plan_of select_like_re sql_policy_from_target apply_definition_form
    apply_access_level target_of_form resolve_postgres_target get_postgres_target
    get_default_postgres_target log_access_error resolve_server get_server get_default_server
runs = tt

planned : query_readonly_sql (some default_settings) listing select none ≡ ok plan
unfolding runs
planned = refl

planned_sql : query_tool saved_sql select none (some (lit "acmeprod")) ≡ ok plan
unfolding runs
planned_sql = refl

query_readonly_sql-tables_example :
    all (contains (lit "users" ∷ [])) (tables_referenced_by_sql select) ≡ true
query_readonly_sql-tables_example =
    query_readonly_sql-tables (some default_settings) listing select none refl planned

query_tool-sql_definition_example : plan.guarded.category ≡ read
query_tool-sql_definition_example =
    query_tool-sql_definition sql_form (lit "u") (lit "p") (lit "acmeprod") new_vault_data select
      none (some (lit "acmeprod")) refl refl planned_sql

abbrev server : ServerDef
server = record (new_server (lit "i") (lit "n")) { allowed_containers = lit "web" ∷ [] }

abbrev one_server : VaultData
one_server = record new_vault_data { servers = server ∷ [] }

found : resolve_server one_server (some (lit "x")) ≡ ok server
unfolding runs
found = refl

table_runs : Unit {0}
unfolding runs describe_table get_table_sample sample_of table_allowed double_quotes
    quote_identifier validate_identifier full_match
table_runs = tt

described :
    describe_table listing (lit "users")
    ≡ ok (describe_head ++ schema_literal (lit "public") (lit "users"))
unfolding table_runs
described = refl

describe_table-literals_example :
    (first : Text) × (second : Text) × (describe_head ++ schema_literal (lit "public") (lit "users")
      ≡ describe_head ++ first)
    × (read_literal first ≡ some (schema_of listing, lit " AND table_name = '" ++ second))
    × (read_literal second ≡ some (lit "users", after_table))
describe_table-literals_example = describe_table-literals listing (lit "users") described

abbrev sample : Sample
sample = record {
  row_limit = pos 20;
  sql = lit "SELECT row_to_json(t) FROM (SELECT * FROM \"public\".\"users\" LIMIT 20) t";
}

sampled : get_table_sample listing (lit "users") none ≡ ok sample
unfolding table_runs
sampled = refl

get_table_sample-IsSafe_example : IsSafe listing (lit "users") sample
get_table_sample-IsSafe_example = get_table_sample-IsSafe listing (lit "users") none sampled

quoted_name : double_quotes (lit "it's") ≡ lit "it''s"
unfolding table_runs
quoted_name = refl
