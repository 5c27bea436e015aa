-- ===== src/Security.antt =====
-- app/core/security.py: identifiers, limits, allowlists and the errors.
pub mod Sql
pub mod Identifiers
pub mod Limits
mod Tests
use pgsentinel_mcp.Base.{
  ℕ, Text, Bool, true, false, not, ◌&&◌, ◌||◌, Option, none, some, List, [], ◌∷◌, ◌++◌, eqb,
  if◌then◌else◌, is_word, is_lower, is_upper, lit, contains, map,
}
use pgsentinel_mcp.Base.Dict.{Dict, lookup}
use pgsentinel_mcp.Base.Int.{ℤ, pos, ltb_ℤ, min_ℤ}
use pgsentinel_mcp.Base.Result.{Result, ok, err, ◌>>=◌, ◌>>◌, raise_if}
use pgsentinel_mcp.Regex.{Regex, seq, one, many, full_match}

pub data SqlCategory : Type 0 where
  read insert update delete create alter drop truncate : SqlCategory
  maintenance privilege transaction unknown : SqlCategory

-- The messages of `SecurityError`, with what they quote.
pub data SecurityError : Type 0 where
  invalid : Text → Text → SecurityError
  limit_not_positive : SecurityError
  container_not_allowlisted : Text → SecurityError
  log_not_allowlisted : Text → SecurityError
  table_not_allowlisted : Text → SecurityError
  no_schema : SecurityError
  multiple_statements : SecurityError
  empty_sql : SecurityError
  sql_comments : SecurityError
  statement_type : SecurityError
  not_read : SecurityError
  policy_mode : Text → SecurityError
  category_blocked : SqlCategory → SecurityError
  sql_references : Text → SecurityError

abbrev pub Checked : Type 0 → Type 0
Checked = Result SecurityError

-- `[A-Za-z_]`
unfoldable pub is_ident_start : ℕ → Bool
unfolding is_upper is_lower
is_ident_start c = is_upper c || is_lower c || eqb c b'_'

-- `^[A-Za-z_][A-Za-z0-9_]*$`
abbrev identifier_re : Regex
identifier_re = seq (one is_ident_start) (many is_word)

unfoldable pub validate_identifier : Text → Text → Checked Text
unfolding full_match is_ident_start
validate_identifier value label = do
  raise_if (not (full_match identifier_re value)) (invalid label value)
  ok value

unfoldable pub quote_identifier : Text → Checked Text
quote_identifier value = do
  validate_identifier value (lit "identifier")
  ok (b'"' ∷ (value ++ b'"' ∷ []))

-- `None` is the default, which is cut to the maximum too.
unfoldable pub clamp_limit : Option ℤ → ℤ → ℤ → Checked ℤ
unfolding min_ℤ
clamp_limit none maximum default = ok (min_ℤ default maximum)
clamp_limit (some requested) maximum default = do
  raise_if (ltb_ℤ requested (pos 1)) limit_not_positive
  ok (min_ℤ requested maximum)

-- container.replace("-", "_")
abbrev dashes_to_underscores : Text → Text
dashes_to_underscores = map (λ c. if eqb c b'-' then b'_' else c)

unfoldable pub ensure_allowed_container : List Text → Text → Checked Text
ensure_allowed_container allowed_containers container = do
  raise_if (not (contains allowed_containers container)) (container_not_allowlisted container)
  validate_identifier (dashes_to_underscores container) (lit "container alias")
  ok container

-- `allowed_logs[log_name]`, where the name is known
unfoldable pub ensure_allowed_log : {A : Type 0} → Dict A → Text → Checked A
unfolding lookup
ensure_allowed_log allowed_logs log_name = elim (lookup log_name allowed_logs) [
  | none ↦ err (log_not_allowlisted log_name)
  | some log ↦ ok log
]

abbrev pub no_items : List Text → Bool
no_items [] = true
no_items (x ∷ xs) = false

unfoldable pub ensure_allowed_table : List Text → Text → Checked Text
ensure_allowed_table allowed_tables table = do
  validate_identifier table (lit "table")
  raise_if (not (no_items allowed_tables) && not (contains allowed_tables table))
      (table_not_allowlisted table)
  ok table

unfoldable pub first_allowed_schema : List Text → Checked Text
first_allowed_schema [] = err no_schema
first_allowed_schema (schema ∷ rest) = do validate_identifier schema (lit "schema"); ok schema
