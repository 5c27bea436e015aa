-- ===== src/Security/Tests.antt =====
-- Runs of app/core/security.py, after tests/test_sql_guard.py, and the theorems at inputs that
-- meet their hypotheses.
use mathlib.Core.List.{flat_map}
use pgsentinel_mcp.Base.{
  Text, true, false, none, some, List, [], ◌∷◌, ◌≡◌, ◌⊎◌, refl, lit, contains, equal, strip, lower,
  has_substring, starts_with, all, has_char, is_word,
}
use pgsentinel_mcp.Base.Int.{pos}
use pgsentinel_mcp.Base.Result.{ok, err}
use pgsentinel_mcp.Regex.{
  matches, match_at, full_match, search_in, scan, find_all, one_match, many_matches, last_or, word,
  any_word,
}
use pgsentinel_mcp.Security.{
  read, is_ident_start, validate_identifier, quote_identifier, clamp_limit, not_read,
  sql_references, multiple_statements,
}
use pgsentinel_mcp.Security.Sql.{
  SqlGuardDecision, guard_sql_query, validate_readonly_sql, readonly_policy,
  reject_multiple_statements, has_comment, classify_sql_statement, classify_head, statement_head,
  enforce_sql_policy, check_tables, tables_referenced_by_sql, hard_max, decide_sql, permits,
  drop_semicolon, with_limit, str, head_of, with_dml_re, limit_re, table_ref_re, is_head_char,
  read_statement_supports_limit, decimal_from,
}
use pgsentinel_mcp.Security.Sql.Classify.{read_heads, guard_sql_query-classified}
use pgsentinel_mcp.Security.Sql.Guard.{guard_sql_query-single, guard_sql_query-tables}

-- All that a run of the guard computes with.
runs : Unit {0}
unfolding guard_sql_query validate_readonly_sql reject_multiple_statements has_comment
    classify_sql_statement classify_head statement_head enforce_sql_policy check_tables
    tables_referenced_by_sql hard_max decide_sql permits drop_semicolon with_limit str head_of
    with_dml_re limit_re table_ref_re is_head_char read_statement_supports_limit decimal_from
    validate_identifier quote_identifier clamp_limit is_ident_start matches match_at full_match
    search_in scan find_all one_match many_matches last_or word any_word lit contains equal strip
    lower has_substring starts_with has_char is_word flat_map
runs = tt

abbrev users : List Text
users = lit "users" ∷ []

abbrev query : Text
query = lit " Select id FROM public.users ; "

select_gets_limit :
    validate_readonly_sql query users (pos 50) ≡ ok (lit "Select id FROM public.users LIMIT 50")
unfolding runs
select_gets_limit = refl

writes_are_blocked : validate_readonly_sql (lit "delete from users") users (pos 50) ≡ err not_read
unfolding runs
writes_are_blocked = refl

tables_are_checked :
    validate_readonly_sql (lit "select id from secrets") users (pos 50)
    ≡ err (sql_references (lit "secrets"))
unfolding runs
tables_are_checked = refl

two_statements :
    validate_readonly_sql (lit "select 1; select 2") users (pos 50) ≡ err multiple_statements
unfolding runs
two_statements = refl

-- A list of tables is read up to its comma, and a quoted name not at all.
comma_is_not_seen :
    validate_readonly_sql (lit "select * from users, secrets") users (pos 50)
    ≡ ok (lit "select * from users, secrets LIMIT 50")
unfolding runs
comma_is_not_seen = refl

-- A statement that deletes rows inside a `with` passes as a read.
with_delete_passes :
    validate_readonly_sql
      (lit "with users as (delete from users returning *) select * from users")
      users
      (pos 50)
    ≡ ok (lit "with users as (delete from users returning *) select * from users LIMIT 50")
unfolding runs
with_delete_passes = refl

explain_delete_passes :
    validate_readonly_sql (lit "explain analyze delete from users") users (pos 50)
    ≡ ok (lit "explain analyze delete from users")
unfolding runs
explain_delete_passes = refl

abbrev decision : SqlGuardDecision
decision = record {
  sql = lit "Select id FROM public.users LIMIT 50";
  category = read;
  limit = pos 50;
}

accepted : guard_sql_query query users (readonly_policy (pos 1000)) none (pos 50) ≡ ok decision
unfolding runs
accepted = refl

stripped : reject_multiple_statements query ≡ ok (lit "Select id FROM public.users")
unfolding runs
stripped = refl

guard_sql_query-single_example : has_char b';' (lit "Select id FROM public.users LIMIT 50") ≡ false
guard_sql_query-single_example =
    guard_sql_query-single query users (readonly_policy (pos 1000)) none (pos 50) accepted

guard_sql_query-classified_example :
    (s : Text) × (reject_multiple_statements query ≡ ok s)
    × (read ≡ classify_sql_statement s)
    × (((lit "readonly_default" ≡ lit "readonly_default")
          × (read ≡ read)
          × (head : Text) × (statement_head s ≡ some head)
          × (contains read_heads head ≡ true))
        ⊎ ((lit "readonly_default" ≡ lit "guarded_write")
            × (permits (readonly_policy (pos 1000)) read ≡ true)))
guard_sql_query-classified_example =
    guard_sql_query-classified query users (readonly_policy (pos 1000)) none (pos 50) accepted

-- A limit that the statement has itself is not cut.
own_limit_stays :
    validate_readonly_sql (lit "select * from users limit 999999") users (pos 50)
    ≡ ok (lit "select * from users limit 999999")
unfolding runs
own_limit_stays = refl

guard_sql_query-tables_example :
    all (contains users) (tables_referenced_by_sql (lit "Select id FROM public.users")) ≡ true
guard_sql_query-tables_example =
    guard_sql_query-tables query users (readonly_policy (pos 1000)) none (pos 50) accepted stripped
      (λ e. cc)

quoted : quote_identifier (lit "users") ≡ ok (lit "\"users\"")
unfolding runs
quoted = refl
