-- ===== src/Tools/Diagnostics/Database.antt =====
-- app/tools/safe_diagnostics.py: the diagnostic tools that ask a database.
use pgsentinel_mcp.Base.Int.{ℤ, pos}
use pgsentinel_mcp.Base.Json.{Json}
use pgsentinel_mcp.Base.Result.{Result, ok, err, raise_if, ◌>>=◌, ◌>>◌}
use pgsentinel_mcp.Vault.Data.{PostgresTargetDef, SecuritySettings}
use pgsentinel_mcp.Security.{
  Checked, SecurityError, clamp_limit, validate_identifier, quote_identifier,
}
use pgsentinel_mcp.Security.Sql.{str}
use pgsentinel_mcp.Tools.{table_allowed}
use pgsentinel_mcp.Tools.Run.{Backend, QueryAnswer, QueryFault, run_query}
use pgsentinel_mcp.Base.{Text, not, Option, none, some, List, ◌∷◌, ◌++◌, lit, if◌then◌else◌}

pub data DatabaseFault : Type 0 where
  table_refused : Text → DatabaseFault
  invalid_argument : SecurityError → DatabaseFault
  query_failed : QueryFault → DatabaseFault

abbrev Asked : Type 0 → Type 0
Asked = Result DatabaseFault

abbrev checked : {A : Type 0} → Checked A → Asked A
checked (ok a) = ok a
checked (err e) = err (invalid_argument e)

abbrev queried : {A : Type 0} → Result QueryFault A → Asked A
queried (ok a) = ok a
queried (err e) = err (query_failed e)

unfoldable pub ensure_allowed_table : PostgresTargetDef → Text → Asked (Unit {0})
unfolding table_allowed
ensure_allowed_table t table = raise_if (not (table_allowed t table)) (table_refused table)

pub record Answer : Type 0 where
  pub target : Text
  pub limit : ℤ
  pub result : QueryAnswer

pub record DatabaseDiagnosis : Type 0 where
  pub health_probe : QueryAnswer
  pub migrations : Answer
  -- none where the table is not allowed
  pub failed_jobs : Option Answer

abbrev pub migrations_sql : ℤ → Text
migrations_sql capped = lit "select version_num from public.alembic_version limit " ++ str capped

abbrev pub failed_jobs_sql : ℤ → Text
failed_jobs_sql capped = lit "select * from public.failed_jobs order by 1 desc limit " ++ str capped

module _ (b : Backend) (loads : Text → Option Json) (patterns : List Text)
    (settings : Option SecuritySettings) (t : PostgresTargetDef) where
  abbrev query : Text → ℤ → Asked QueryAnswer
  query sql limit = queried (run_query b loads patterns settings t sql (some limit))

  unfoldable pub get_recent_migrations : ℤ → Asked Answer
  unfolding ensure_allowed_table clamp_limit run_query str
  get_recent_migrations limit = do
    ensure_allowed_table t (lit "alembic_version")
    capped ← checked (clamp_limit (some limit) (pos 100) (pos 10))
    result ← query (migrations_sql capped) capped
    ok (record { target = t.name; limit = capped; result = result })

  unfoldable pub get_failed_jobs : ℤ → Asked Answer
  unfolding ensure_allowed_table clamp_limit run_query str
  get_failed_jobs limit = do
    ensure_allowed_table t (lit "failed_jobs")
    capped ← checked (clamp_limit (some limit) (pos 200) (pos 20))
    result ← query (failed_jobs_sql capped) capped
    ok (record { target = t.name; limit = capped; result = result })

  unfoldable pub get_table_row_count : Text → Asked QueryAnswer
  unfolding ensure_allowed_table validate_identifier quote_identifier run_query
  get_table_row_count table = do
    checked (validate_identifier table (lit "table"))
    ensure_allowed_table t table
    schema ← checked (quote_identifier (lit "public"))
    quoted ← checked (quote_identifier table)
    query (lit "select count(*) as row_count from " ++ (schema ++ (b'.' ∷ quoted))) (pos 1)

  abbrev optional_jobs : Asked (Option Answer)
  optional_jobs = get_failed_jobs (pos 5) >>= λ answer. ok (some answer)

  unfoldable pub diagnose_database_issue : Asked DatabaseDiagnosis
  unfolding get_recent_migrations get_failed_jobs run_query table_allowed
  diagnose_database_issue = do
    health ← query (lit "select now() as db_now") (pos 1)
    migrations ← get_recent_migrations (pos 5)
    failed_jobs ← (if table_allowed t (lit "failed_jobs") then optional_jobs else ok none)
    ok (record { health_probe = health; migrations = migrations; failed_jobs = failed_jobs })
