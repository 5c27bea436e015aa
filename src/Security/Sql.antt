-- ===== src/Security/Sql.antt =====
-- app/core/security.py: the classification of SQL statements and the guard.
pub mod Guard
pub mod Limit
pub mod Classify
use pgsentinel_mcp.Base.{
  ℕ, zero, suc, ◌+◌, ◌/◌, ◌%◌, Text, Bool, true, false, not, ◌&&◌, ◌||◌, Option, none, some, List,
  [], ◌∷◌, ◌++◌, eqb, ltb, if◌then◌else◌, is_word, is_lower, lower_char, is_space, is_digit,
  is_empty, lit, contains, map, ◌==◌, strip, lower, has_char, has_substring,
}
use pgsentinel_mcp.Base.Int.{ℤ, pos, negsuc, min_ℤ, max_ℤ}
use pgsentinel_mcp.Base.Result.{Result, ok, err, ◌>>=◌, ◌>>◌, raise_if}
use pgsentinel_mcp.Regex.{
  Regex, Match, seq, one, many, empty, alt, boundary, group, some_of, word, any_word, match_at,
  search_in, find_all, group_of,
}
use pgsentinel_mcp.Security.{
  SecurityError, Checked, SqlCategory, read, insert, update, delete, create, alter, drop, truncate,
  maintenance, privilege, transaction, unknown, is_ident_start, clamp_limit, no_items,
  multiple_statements, empty_sql, sql_comments, statement_type, not_read, policy_mode,
  category_blocked, sql_references,
}

pub record SqlPolicy : Type 0 where
  pub mode : Text
  pub allow_insert : Bool
  pub allow_update : Bool
  pub allow_delete : Bool
  pub allow_create : Bool
  pub allow_alter : Bool
  pub allow_drop : Bool
  pub allow_truncate : Bool
  pub allow_maintenance : Bool
  pub allow_privilege : Bool
  pub allow_transaction : Bool
  pub hard_max_query_rows : ℤ

pub record SqlGuardDecision : Type 0 where
  pub sql : Text
  pub category : SqlCategory
  pub limit : ℤ

-- `[a-z_]` under re.IGNORECASE
unfoldable pub is_head_char : ℕ → Bool
unfolding is_lower lower_char
is_head_char c = is_lower (lower_char c) || eqb c b'_'

-- `^\s*([a-z_]+)`
abbrev statement_head_re : Regex
statement_head_re = seq (many is_space) (group 1 (some_of is_head_char))

-- `\)\s*(insert|update|delete|merge)\b`
unfoldable pub with_dml_re : Regex
unfolding any_word lit
with_dml_re = seq (one (λ c. eqb c b')')) (
    seq (many is_space) (
      seq (group 1 (any_word (lit "insert" ∷ lit "update" ∷ lit "delete" ∷ lit "merge" ∷ [])))
        boundary))

-- `\blimit\s+\d+\b`
unfoldable pub limit_re : Regex
unfolding word lit
limit_re =
    seq boundary
      (seq (word (lit "limit")) (seq (some_of is_space) (seq (some_of is_digit) boundary)))

-- `[A-Za-z_][A-Za-z0-9_]*`
abbrev ident_re : Regex
ident_re = seq (one is_ident_start) (many is_word)

-- `\b(?:from|join)\s+(ident)(?:\.(ident))?`
unfoldable pub table_ref_re : Regex
unfolding any_word lit
table_ref_re = seq boundary (
    seq (any_word (lit "from" ∷ lit "join" ∷ [])) (
      seq (some_of is_space)
        (seq (group 1 ident_re) (alt (seq (one (λ c. eqb c b'.')) (group 2 ident_re)) empty))))

abbrev or_empty : Option Text → Text
or_empty none = []
or_empty (some t) = t

-- The lower-case head of a statement, if it has one.
unfoldable pub head_of : Option Match → Option Text
unfolding lower
head_of none = none
head_of (some m) = some (lower (or_empty (group_of 1 m.groups)))

unfoldable pub statement_head : Text → Option Text
statement_head sql = head_of (match_at statement_head_re sql)

abbrev among : Text → List Text → Bool
among head names = contains names head

unfoldable pub classify_head : Text → Bool → SqlCategory
classify_head head with_dml =
    if among head (lit "select" ∷ lit "show" ∷ lit "explain" ∷ lit "values" ∷ [])
    then read
    else if head == lit "with"
    then (if not with_dml then read else unknown)
    else if head == lit "insert"
    then insert
    else if head == lit "update"
    then update
    else if head == lit "delete"
    then delete
    else if head == lit "create"
    then create
    else if head == lit "alter"
    then alter
    else if head == lit "drop"
    then drop
    else if head == lit "truncate"
    then truncate
    else if among head (lit "vacuum" ∷ lit "analyze" ∷ lit "reindex" ∷ lit "refresh" ∷ [])
    then maintenance
    else if among head (lit "grant" ∷ lit "revoke" ∷ [])
    then privilege
    else if among head (
        lit "begin"
        ∷ lit "start"
        ∷ lit "commit"
        ∷ lit "rollback"
        ∷ lit "savepoint"
        ∷ lit "release"
        ∷ [])
    then transaction
    else unknown

unfoldable pub classify_sql_statement : Text → SqlCategory
classify_sql_statement sql = elim (statement_head sql) [
  | none ↦ unknown
  | some head ↦ classify_head head (search_in with_dml_re sql)
]

unfoldable pub read_statement_supports_limit : Text → Bool
read_statement_supports_limit sql = elim (statement_head sql) [
  | none ↦ false
  | some head ↦ among head (lit "select" ∷ lit "with" ∷ [])
]

unfoldable pub drop_semicolon : Text → Text
drop_semicolon [] = []
drop_semicolon (c ∷ []) = if eqb c b';' then [] else c ∷ []
drop_semicolon (c ∷ d ∷ s) = c ∷ drop_semicolon (d ∷ s)

unfoldable pub reject_multiple_statements : Text → Checked Text
unfolding strip drop_semicolon has_char
reject_multiple_statements sql =
    let without_trailing = drop_semicolon (strip sql) in
    do raise_if (has_char b';' without_trailing) multiple_statements; ok (strip without_trailing)

-- `second or first` of a match
abbrev table_of : Match → Text
table_of m = elim (group_of 2 m.groups) [
  | none ↦ or_empty (group_of 1 m.groups)
  | some second ↦ second
]

-- The set of names is the list of them in the order of the text.
unfoldable pub tables_referenced_by_sql : Text → List Text
unfolding find_all table_ref_re is_space is_word is_ident_start
tables_referenced_by_sql sql = map table_of (find_all table_ref_re sql)

-- Whether a policy in mode guarded_write lets a category pass.
unfoldable pub permits : SqlPolicy → SqlCategory → Bool
permits p read = true
permits p insert = p.allow_insert
permits p update = p.allow_update
permits p delete = p.allow_delete
permits p create = p.allow_create
permits p alter = p.allow_alter
permits p drop = p.allow_drop
permits p truncate = p.allow_truncate
permits p maintenance = p.allow_maintenance
permits p privilege = p.allow_privilege
permits p transaction = p.allow_transaction
permits p unknown = false

abbrev pub is_read : SqlCategory → Bool
is_read read = true
is_read _ = false

unfoldable pub enforce_sql_policy : SqlCategory → SqlPolicy → Checked Unit
unfolding permits
enforce_sql_policy category policy =
    if policy.mode == lit "readonly_default" then raise_if (not (is_read category)) not_read else do
      raise_if (not (policy.mode == lit "guarded_write")) (policy_mode policy.mode)
      raise_if (not (permits policy category)) (category_blocked category)

-- The first table, in the order of the text, that is not in a set of allowed tables which is not
-- empty. (The source goes through a set: which of several offending tables it names is left to
-- Python.)
unfoldable pub check_tables : List Text → List Text → Checked Unit
check_tables allowed [] = ok tt
check_tables allowed (table ∷ tables) =
    if contains allowed table then check_tables allowed tables else err (sql_references table)

-- The decimal digits of a number, on fuel: a round divides by ten, so the number's own size is
-- enough.
unfoldable pub decimal_from : ℕ → ℕ → Text → Text
decimal_from zero n out = out
decimal_from (suc fuel) n out =
    let more = decimal_from fuel (n / 10) ((b'0' + n % 10) ∷ out) in
    if ltb n 10 then (b'0' + n) ∷ out else more

-- str(n)
unfoldable pub str : ℤ → Text
unfolding decimal_from
str (pos n) = decimal_from (suc n) n []
str (negsuc n) = b'-' ∷ decimal_from (suc (suc n)) (suc n) []

unfoldable pub with_limit : Text → ℤ → Text
with_limit sql limit =
    if search_in limit_re sql
    then sql
    else if read_statement_supports_limit sql
    then sql ++ (lit " LIMIT " ++ str limit)
    else sql

unfoldable pub hard_max : SqlPolicy → ℤ
unfolding min_ℤ max_ℤ
hard_max policy = max_ℤ (pos 1) (min_ℤ policy.hard_max_query_rows (pos 5000))

unfoldable pub has_comment : Text → Bool
unfolding has_substring
has_comment s =
    has_substring (lit "--") s || has_substring (lit "/*") s || has_substring (lit "*/") s

abbrev pub is_unknown : SqlCategory → Bool
is_unknown unknown = true
is_unknown _ = false

unfoldable pub decide_sql : Text → SqlCategory → ℤ → SqlGuardDecision
decide_sql sql category limit = record {
  sql = if is_read category then with_limit sql limit else sql;
  category = category;
  limit = limit;
}

unfoldable pub guard_sql_query :
    Text → List Text → SqlPolicy → Option ℤ → ℤ → Checked SqlGuardDecision
guard_sql_query sql allowed_tables policy requested_limit default_limit = do
  sanitized ← reject_multiple_statements sql
  raise_if (is_empty sanitized) empty_sql
  raise_if (has_comment sanitized) sql_comments
  let category = classify_sql_statement sanitized
  raise_if (is_unknown category) statement_type
  enforce_sql_policy category policy
  (if no_items allowed_tables
      then ok tt
      else check_tables allowed_tables (tables_referenced_by_sql sanitized))
  limit ← clamp_limit requested_limit (hard_max policy) (min_ℤ default_limit (hard_max policy))
  ok (decide_sql sanitized category limit)

-- SQLPolicy(mode="readonly_default", hard_max_query_rows=max_rows)
abbrev pub readonly_policy : ℤ → SqlPolicy
readonly_policy max_rows = record {
  mode = lit "readonly_default";
  allow_insert = false;
  allow_update = false;
  allow_delete = false;
  allow_create = false;
  allow_alter = false;
  allow_drop = false;
  allow_truncate = false;
  allow_maintenance = false;
  allow_privilege = false;
  allow_transaction = false;
  hard_max_query_rows = max_rows;
}

unfoldable pub validate_readonly_sql : Text → List Text → ℤ → Checked Text
validate_readonly_sql sql allowed_tables max_rows = do
  decision ← guard_sql_query sql allowed_tables (readonly_policy max_rows) none max_rows
  ok decision.sql
