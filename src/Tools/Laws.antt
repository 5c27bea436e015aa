-- ===== src/Tools/Laws.antt =====
-- app/tools/postgres.py: the queries that are planned, and what the form of a definition lets pass.
use pgsentinel_mcp.Mcp.Targets.Laws.{resolve_postgres_target-single}
use pgsentinel_mcp.Admin.Definitions.Laws.{sql_target, readonly_target}
use pgsentinel_mcp.Mcp.Targets.{resolve_postgres_target}
use pgsentinel_mcp.Admin.Definitions.{DefinitionForm, apply_definition_form}
use pgsentinel_mcp.Security.Sql.Guard.{guard_sql_query-permitted}
use pgsentinel_mcp.Security.Sql.{
  tables_referenced_by_sql, SqlGuardDecision, permits, guard_sql_query,
}
use pgsentinel_mcp.Base.Result.{ok, >>=-eq-ok, err, raise_if}
use pgsentinel_mcp.Base.Int.{ℤ}
use pgsentinel_mcp.Security.{no_items, Checked, read}
use pgsentinel_mcp.Vault.Data.{PostgresTargetDef, SecuritySettings, VaultData}
use pgsentinel_mcp.Base.{
  List, Text, Option, ◌≡◌, false, true, all, contains, ◌∷◌, Bool-cases, inl, inr, arith, [], refl,
  Bool, some, lit, ◌⊎◌, ◌≢◌, not, sym, ◌∙◌,
}
use pgsentinel_mcp.Tools.{
  query_readonly_sql, ensure_sql_table_access, denied, Plan, plan_of, sql_policy_from_target,
  secured, listed_tables, query_tool, sql_disabled, targeted,
}

denied-none :
    (allowed refs : List Text)
    → no_items (denied allowed refs) ≡ true
    → all (contains allowed) refs ≡ true
denied-none allowed [] h = refl
denied-none allowed (r ∷ refs) h = elim (Bool-cases (contains allowed r)) [
  | inl e ↦ ground (arith, e, denied-none allowed refs (ground (arith, e)))
  | inr e ↦ absurd (ground (arith, e))
]

all-no_items : (p : Text → Bool) (xs : List Text) → no_items xs ≡ true → all p xs ≡ true
all-no_items p [] h = refl
all-no_items p (x ∷ xs) h = cc

ensure_sql_table_access-all :
    (t : PostgresTargetDef) (sql : Text)
    → t.allow_all_tables ≡ false
    → ensure_sql_table_access t sql ≡ ok tt
    → all (contains t.allowed_tables) (tables_referenced_by_sql sql) ≡ true
unfolding ensure_sql_table_access
ensure_sql_table_access-all t sql listed h =
    elim (Bool-cases (no_items (tables_referenced_by_sql sql))) [
      | inl e ↦ all-no_items (contains t.allowed_tables) (tables_referenced_by_sql sql) e
      | inr e ↦ denied-none t.allowed_tables (tables_referenced_by_sql sql) (ground (arith, e))
    ]

-- Where a target does not allow all tables, every table that a planned query is seen to
-- reference is on the target's list, also where that list is empty.
pub query_readonly_sql-tables :
    (settings : Option SecuritySettings) (t : PostgresTargetDef) (sql : Text) (limit : Option ℤ)
    {plan : Plan}
    → t.allow_all_tables ≡ false
    → query_readonly_sql settings t sql limit ≡ ok plan
    → all (contains t.allowed_tables) (tables_referenced_by_sql sql) ≡ true
unfolding query_readonly_sql
query_readonly_sql-tables settings t sql limit listed h =
    let (_, access, _) = >>=-eq-ok (ensure_sql_table_access t sql) _ h in
    ensure_sql_table_access-all t sql listed access

secured-ok : {A : Type 0} (r : Checked A) {a : A} → secured r ≡ ok a → r ≡ ok a
secured-ok (ok a) h = cc
secured-ok (err e) h = cc

plan_of-guarded : (g : SqlGuardDecision) → (plan_of g).guarded ≡ g
unfolding plan_of
plan_of-guarded g = ground arith

query_readonly_sql-guarded :
    (settings : Option SecuritySettings) (t : PostgresTargetDef) (sql : Text) (limit : Option ℤ)
    {plan : Plan}
    → query_readonly_sql settings t sql limit ≡ ok plan
    → guard_sql_query sql (listed_tables t) (sql_policy_from_target settings t) limit t.max_rows
      ≡ ok plan.guarded
unfolding query_readonly_sql
query_readonly_sql-guarded settings t sql limit {plan} h =
    let r : Checked SqlGuardDecision =
      guard_sql_query sql (listed_tables t) (sql_policy_from_target settings t) limit t.max_rows in
    let (_, _, h1) = >>=-eq-ok (ensure_sql_table_access t sql) _ h in
    let (g, h2, h3) = >>=-eq-ok (secured r) (λ x. ok (plan_of x)) h1 in
    ground (arith, secured-ok r h2, h3, plan_of-guarded g)

-- The category of a query that is planned under the settings of a vault is read, under the mode
-- readonly_default, or one that the settings allow, under the mode guarded_write.
pub query_readonly_sql-permitted :
    (s : SecuritySettings) (t : PostgresTargetDef) (sql : Text) (limit : Option ℤ) {plan : Plan}
    → query_readonly_sql (some s) t sql limit ≡ ok plan
    → ((s.sql_policy_mode ≡ lit "readonly_default") × (plan.guarded.category ≡ read))
      ⊎ ((s.sql_policy_mode ≡ lit "guarded_write")
          × (permits (sql_policy_from_target (some s) t) plan.guarded.category ≡ true))
unfolding sql_policy_from_target
query_readonly_sql-permitted s t sql limit h =
    guard_sql_query-permitted sql (listed_tables t) (sql_policy_from_target (some s) t) limit
      t.max_rows (query_readonly_sql-guarded (some s) t sql limit h)

pub modes_differ : lit "readonly_default" ≢ lit "guarded_write"
unfolding lit
modes_differ e = ground arith

query_tool-refused :
    (vault : VaultData) (sql : Text) (limit : Option ℤ) (name : Option Text) (t : PostgresTargetDef)
    → resolve_postgres_target vault name ≡ ok t
    → t.sql_query_enabled ≡ false
    → query_tool vault sql limit name ≡ err sql_disabled
unfolding query_tool
query_tool-refused vault sql limit name t found off = rw (found, off) refl

query_tool-permitted :
    (vault : VaultData) (sql : Text) (limit : Option ℤ) (name : Option Text) {plan : Plan}
    → query_tool vault sql limit name ≡ ok plan
    → vault.settings.sql_policy_mode ≡ lit "readonly_default"
    → plan.guarded.category ≡ read
unfolding query_tool
query_tool-permitted vault sql limit name h mode =
    let (t, _, h1) = >>=-eq-ok (targeted (resolve_postgres_target vault name)) _ h in
    let (_, _, h2) = >>=-eq-ok (raise_if (not t.sql_query_enabled) sql_disabled) _ h1 in
    elim (query_readonly_sql-permitted vault.settings t sql limit h2) [
      | inl (_, e) ↦ e
      | inr (e, _) ↦ absurd (modes_differ (sym mode ∙ e))
    ]

module _ (f : DefinitionForm) (uuid pg_id code : Text) (d : VaultData) (sql : Text)
    (limit : Option ℤ) (name : Option Text) where
  -- For a definition that was saved with a database at level readonly the tool refuses every
  -- query.
  pub query_tool-readonly_definition :
      f.postgres_enabled ≡ true
      → f.access_level ≡ lit "readonly"
      → query_tool (apply_definition_form f uuid pg_id code d) sql limit name ≡ err sql_disabled
  query_tool-readonly_definition on level =
      let (t, one, enabled, off) = readonly_target f uuid pg_id code d on level in
      let vault : VaultData = apply_definition_form f uuid pg_id code d in
      query_tool-refused vault sql limit name t
        (resolve_postgres_target-single vault name one enabled) off

  -- A query that the tool plans for a definition which was saved with a database at level sql is
  -- one that the classifier takes for a read, whatever the settings of the vault were before.
  pub query_tool-sql_definition :
      {plan : Plan}
      → f.postgres_enabled ≡ true
      → f.access_level ≡ lit "sql"
      → query_tool (apply_definition_form f uuid pg_id code d) sql limit name ≡ ok plan
      → plan.guarded.category ≡ read
  query_tool-sql_definition on level h =
      let (_, _, _, mode) = sql_target f uuid pg_id code d on level in
      query_tool-permitted (apply_definition_form f uuid pg_id code d) sql limit name h mode
