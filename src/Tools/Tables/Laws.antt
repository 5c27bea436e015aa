-- ===== src/Tools/Tables/Laws.antt =====
-- app/tools/postgres.py: the names of tables and schemas in the two statements.
use pgsentinel_mcp.Security.Limits.{clamp_limit-le_maximum}
use pgsentinel_mcp.Security.Sql.{str}
use pgsentinel_mcp.Security.Identifiers.{IsIdentifier, quote_identifier-safe}
use pgsentinel_mcp.Base.Result.{ok, err, >>=-eq-ok}
use pgsentinel_mcp.Tools.{table_allowed}
use pgsentinel_mcp.Base.Int.{ℤ, ◌≤ℤ◌}
use pgsentinel_mcp.Security.{Checked, clamp_limit, quote_identifier}
use pgsentinel_mcp.Vault.Data.{PostgresTargetDef}
use pgsentinel_mcp.Tools.Tables.{
  double_quotes, get_table_sample, Sample, schema_literal, table_literal, after_table, schema_of,
  sample_of, describe_table, describe_head, checked,
}
use pgsentinel_mcp.Base.{
  Text, ℕ, Option, eqb, some, none, ◌≡◌, ◌∷◌, false, ◌++◌, if◌then◌else◌, [], arith, lit, true,
  Bool-cases, refl, inr, inl,
}

-- How a database reads a text literal, behind its opening quotation mark: two marks stand for one,
-- and one mark ends the literal. The result is the literal and what follows it.
abbrev put : ℕ → Option (Text × Text) → Option (Text × Text)
put c none = none
put c (some (s, rest)) = some (c ∷ s, rest)

unfoldable pub read_literal : Text → Option (Text × Text)
read_literal [] = none
read_literal (c ∷ []) = if eqb c b'\'' then some ([], []) else none
read_literal (c ∷ d ∷ s) =
    let doubled = put c (read_literal s) in
    let plain = put c (read_literal (d ∷ s)) in
    if eqb c b'\'' then (if eqb d b'\'' then doubled else some ([], d ∷ s)) else plain

read_literal_plain :
    (x : ℕ) (s t : Text) (c : ℕ)
    → eqb x b'\'' ≡ false
    → read_literal (x ∷ (s ++ (c ∷ t))) ≡ put x (read_literal (s ++ (c ∷ t)))
unfolding read_literal
read_literal_plain x [] t c h = ground arith
read_literal_plain x (d ∷ s) t c h = ground arith

read_literal-double_quotes :
    (s rest : Text) (c : ℕ)
    → eqb c b'\'' ≡ false
    → read_literal (double_quotes s ++ (b'\'' ∷ c ∷ rest)) ≡ some (s, c ∷ rest)
unfolding read_literal double_quotes
read_literal-double_quotes [] rest c h = ground arith
read_literal-double_quotes (x ∷ s) rest c h = ground (
  arith,
  read_literal-double_quotes s rest c h,
  read_literal_plain x (double_quotes s) (c ∷ rest) b'\'',
)

literals_read :
    (schema table : Text)
    → (read_literal (schema_literal schema table)
        ≡ some (schema, lit " AND table_name = '" ++ table_literal table))
      × (read_literal (table_literal table) ≡ some (table, after_table))
unfolding lit
literals_read schema table =
    (read_literal-double_quotes schema _ b' ' refl, read_literal-double_quotes table _ b' ' refl)

-- Whatever a table and a schema are named, the database reads the name of the schema from the
-- first literal of the statement that describes an allowed table, the name of the table from the
-- second one, and behind it the end of the statement.
pub describe_table-literals :
    (t : PostgresTargetDef) (table : Text) {sql : Text}
    → describe_table t table ≡ ok sql
    → (first : Text) × (second : Text) × (sql ≡ describe_head ++ first)
      × (read_literal first ≡ some (schema_of t, lit " AND table_name = '" ++ second))
      × (read_literal second ≡ some (table, after_table))
unfolding describe_table
describe_table-literals t table h =
    let (one, two) = literals_read (schema_of t) table in
    (schema_literal (schema_of t) table, table_literal table, ground arith, one, two)

checked-ok : {A : Type 0} (r : Checked A) {a : A} → checked r ≡ ok a → r ≡ ok a
checked-ok (ok a) h = cc
checked-ok (err e) h = cc

-- What an accepted sample keeps to.
pub record IsSafe (t : PostgresTargetDef) (table : Text) (sample : Sample) : Type 0 where
  pub allowed : table_allowed t table ≡ true
  pub bounded : sample.row_limit ≤ℤ t.max_rows
  pub schema_named : IsIdentifier (schema_of t)
  pub table_named : IsIdentifier table
  pub text :
      sample.sql
      ≡ lit "SELECT row_to_json(t) FROM (SELECT * FROM "
        ++ ((b'"' ∷ (schema_of t ++ b'"' ∷ []))
            ++ (b'.'
                ∷ ((b'"' ∷ (table ++ b'"' ∷ []))
                    ++ (lit " LIMIT " ++ (str sample.row_limit ++ lit ") t")))))

sample_of-IsSafe :
    (t : PostgresTargetDef) (table : Text) (limit : Option ℤ) {sample : Sample}
    → table_allowed t table ≡ true
    → sample_of t table limit ≡ ok sample
    → IsSafe t table sample
unfolding sample_of
sample_of-IsSafe t table limit listed h =
    let (n, h1, k1) = >>=-eq-ok (checked (clamp_limit limit t.max_rows _)) _ h in
    let (schema, h2, k2) = >>=-eq-ok (checked (quote_identifier (schema_of t))) _ k1 in
    let (quoted, h3, k3) = >>=-eq-ok (checked (quote_identifier table)) _ k2 in
    let (e2, _, s2) = quote_identifier-safe (schema_of t) (checked-ok _ h2) in
    let (e3, _, s3) = quote_identifier-safe table (checked-ok _ h3) in
    record {
      allowed = listed;
      bounded =
          let below = clamp_limit-le_maximum limit t.max_rows _ (checked-ok _ h1) in ground arith;
      schema_named = s2;
      table_named = s3;
      text = ground (arith, k3, e2, e3);
    }

-- A sample that is planned is of an allowed table; schema and table are identifiers, quoted in
-- the statement, and the row limit is at most the maximum of the target.
pub get_table_sample-IsSafe :
    (t : PostgresTargetDef) (table : Text) (limit : Option ℤ) {sample : Sample}
    → get_table_sample t table limit ≡ ok sample
    → IsSafe t table sample
unfolding get_table_sample
get_table_sample-IsSafe t table limit {sample} h = elim (Bool-cases (table_allowed t table)) [
  | inr unlisted ↦ absurd (ground (arith, unlisted))
  | inl listed ↦ sample_of-IsSafe t table limit listed (ground (arith, listed, h))
]
