-- ===== src/Remote/Client/Queries.antt =====
-- app/remote/postgres_client.py: the statements that reach the database.
use pgsentinel_mcp.Masking.{mask_items}
use pgsentinel_mcp.Base.Exec.{◌>>=◌, pure}
use pgsentinel_mcp.Tools.Laws.{modes_differ}
use pgsentinel_mcp.Security.Sql.Guard.{guard_sql_query-permitted}
use pgsentinel_mcp.Security.{read, ensure_allowed_container}
use pgsentinel_mcp.Base.Result.{ok, >>=-eq-ok}
use pgsentinel_mcp.Remote.Client.Asked.{
  AsksOnly, guard-AsksOnly, last-AsksOnly, ask-AsksOnly, unless-AsksOnly,
}
use pgsentinel_mcp.Remote.Command.{Arg}
use pgsentinel_mcp.Security.Sql.{
  validate_readonly_sql, readonly_policy, SqlGuardDecision, guard_sql_query,
}
use pgsentinel_mcp.Remote.Client.Postgres.{
  query_readonly_sql, psql_json_rows, psql_args, render_sql,
}
use pgsentinel_mcp.Config.{PgSentinelConfig}
use pgsentinel_mcp.Base.Json.{Json}
use pgsentinel_mcp.Remote.Client.{Runner, ask, secure, raw_sql_disabled}
use pgsentinel_mcp.Base.{
  lit, Text, Option, arith, List, ◌≡◌, Bool, none, ◌++◌, [], inl, refl, inr, true, not,
}

-- A run of psql in the container of the database, with a statement that the guard let through as
-- a read, in the form that makes JSON of its rows.
pub record IsGuardedQuery (runner : Runner) (loads : Text → Option Json) (c : PgSentinelConfig)
    (sql : Text) (args : List Arg) : Type 0 where
  pub decision : SqlGuardDecision
  pub guarded :
      guard_sql_query sql c.postgres.allowed_tables
        (readonly_policy c.security.max_query_rows)
        none
        c.security.max_query_rows
      ≡ ok decision
  pub reads : decision.category ≡ read
  pub text :
      args
      ≡ psql_args runner loads c
          (render_sql (lit "SELECT row_to_json(t) FROM (" ++ (decision.sql ++ lit ") t")) [])

module _ (runner : Runner) (loads : Text → Option Json) (c : PgSentinelConfig) where
  psql_json_rows-asks :
      (P : List Arg → Type 0) (sql : Text) (variables : List Text) (check : Bool)
      (s : List (List Arg))
      → P (psql_args runner loads c (render_sql sql variables))
      → AsksOnly P (psql_json_rows runner loads c sql variables check) s
  unfolding psql_json_rows
  psql_json_rows-asks P sql variables check s p =
      guard-AsksOnly P
        (ensure_allowed_container c.docker.allowed_containers c.postgres.container_name) _ s
        (λ _ _.
          last-AsksOnly P (ask runner (psql_args runner loads c (render_sql sql variables)) check) _
            s
            (ask-AsksOnly P runner (psql_args runner loads c (render_sql sql variables)) check s p)
            (λ _ _. refl))

  validated :
      (sql : Text) {text : Text}
      → validate_readonly_sql sql c.postgres.allowed_tables c.security.max_query_rows ≡ ok text
      → IsGuardedQuery runner loads c sql (
          psql_args runner loads c
            (render_sql (lit "SELECT row_to_json(t) FROM (" ++ (text ++ lit ") t")) []))
  unfolding validate_readonly_sql
  validated sql h =
      let (d, guarded, e) =
        >>=-eq-ok
          (guard_sql_query sql c.postgres.allowed_tables (readonly_policy c.security.max_query_rows)
            none c.security.max_query_rows)
          _ h in
      record {
        decision = d;
        guarded = guarded;
        reads =
            elim (guard_sql_query-permitted sql c.postgres.allowed_tables
              (readonly_policy c.security.max_query_rows) none c.security.max_query_rows guarded) [
                | inl (_, r) ↦ r
                | inr (w, _) ↦ absurd (modes_differ w)
              ];
        text = ground (arith, e);
      }

  allowed_query :
      (sql : Text) (s : List (List Arg))
      → AsksOnly
          (IsGuardedQuery runner loads c sql)
          (secure (validate_readonly_sql sql c.postgres.allowed_tables c.security.max_query_rows)
            >>= λ guarded.
                psql_json_rows runner loads c
                  (lit "SELECT row_to_json(t) FROM (" ++ (guarded ++ lit ") t"))
                  []
                  true
                >>= λ rows. pure (mask_items c.masking.patterns rows))
          s
  allowed_query sql s =
      guard-AsksOnly _
        (validate_readonly_sql sql c.postgres.allowed_tables c.security.max_query_rows) _ s
        (λ text h.
          last-AsksOnly _
            (psql_json_rows runner loads c
              (lit "SELECT row_to_json(t) FROM (" ++ (text ++ lit ") t")) [] true)
            _ s (psql_json_rows-asks _ _ [] true s (validated sql h)) (λ _ _. refl))

  -- However a query of the legacy client ends, the only commands that it runs are psql in the
  -- container of the configuration, with a statement that the guard let through and classified
  -- as a read, in the form that makes JSON of its rows.
  pub query_readonly_sql-asks :
      (sql : Text) (s : List (List Arg))
      → AsksOnly (IsGuardedQuery runner loads c sql) (query_readonly_sql runner loads c sql) s
  unfolding query_readonly_sql
  query_readonly_sql-asks sql s =
      unless-AsksOnly _ (not c.security.allow_raw_sql) raw_sql_disabled _ s (allowed_query sql s)
