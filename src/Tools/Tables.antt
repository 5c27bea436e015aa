-- ===== src/Tools/Tables.antt =====
-- app/tools/postgres.py: `describe_table` and `get_table_sample` of a target, up to the run.
use pgsentinel_mcp.Security.Sql.{str}
use pgsentinel_mcp.Tools.{table_allowed}
use pgsentinel_mcp.Base.Result.{Result, ok, err, ◌>>=◌}
use pgsentinel_mcp.Security.{Checked, SecurityError, clamp_limit, quote_identifier}
use pgsentinel_mcp.Base.{Text, ◌∷◌, lit, Option, ◌++◌, if◌then◌else◌, eqb, not, []}
use pgsentinel_mcp.Base.Int.{ℤ, min_ℤ, pos}
use pgsentinel_mcp.Vault.Data.{PostgresTargetDef}
pub mod Laws

-- The answer that a table is not allowed, or an exception of app/core/security.py.
pub data TableError : Type 0 where
  not_in_allowed_tables : Text → Text → TableError
  refused : SecurityError → TableError

abbrev checked : {A : Type 0} → Checked A → Result TableError A
checked (ok a) = ok a
checked (err e) = err (refused e)

-- allowed_schemas[0], or public
abbrev pub schema_of : PostgresTargetDef → Text
schema_of t = elim t.allowed_schemas [ [] ↦ lit "public" | schema ∷ rest ↦ schema ]

-- s.replace("'", "''")
unfoldable pub double_quotes : Text → Text
double_quotes [] = []
double_quotes (c ∷ s) =
    let rest = double_quotes s in if eqb c b'\'' then b'\'' ∷ b'\'' ∷ rest else c ∷ rest

-- The statement up to its first literal, with the quotation mark.
abbrev pub describe_head : Text
describe_head =
    lit "SELECT json_build_object('name', column_name, 'type', data_type, 'nullable', "
    ++ lit "is_nullable = 'YES') FROM information_schema.columns WHERE table_schema = '"

-- The two literals of the statement, as the texts behind their opening quotation marks.
abbrev pub after_table : Text
after_table = lit " ORDER BY ordinal_position"

abbrev pub table_literal : Text → Text
table_literal table = double_quotes table ++ (b'\'' ∷ after_table)

abbrev pub schema_literal : Text → Text → Text
schema_literal schema table =
    double_quotes schema ++ (b'\'' ∷ (lit " AND table_name = '" ++ table_literal table))

unfoldable pub describe_table : PostgresTargetDef → Text → Result TableError Text
describe_table t table =
    if not (table_allowed t table)
    then err (not_in_allowed_tables table t.name)
    else ok (describe_head ++ schema_literal (schema_of t) table)

pub record Sample : Type 0 where
  pub row_limit : ℤ
  pub sql : Text

-- The sample of a table that is allowed.
unfoldable pub sample_of : PostgresTargetDef → Text → Option ℤ → Result TableError Sample
unfolding min_ℤ
sample_of t table limit = do
  row_limit ← checked (clamp_limit limit t.max_rows (min_ℤ (pos 20) t.max_rows))
  schema ← checked (quote_identifier (schema_of t))
  quoted ← checked (quote_identifier table)
  ok (record {
    row_limit = row_limit;
    sql =
        lit "SELECT row_to_json(t) FROM (SELECT * FROM "
        ++ (schema ++ (b'.' ∷ (quoted ++ (lit " LIMIT " ++ (str row_limit ++ lit ") t")))));
  })

unfoldable pub get_table_sample : PostgresTargetDef → Text → Option ℤ → Result TableError Sample
get_table_sample t table limit =
    if not (table_allowed t table)
    then err (not_in_allowed_tables table t.name)
    else sample_of t table limit
