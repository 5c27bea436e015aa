-- ===== src/Security/Sql/Guard.antt =====
-- app/core/security.py: what a text that `guard_sql_query` accepts has passed.
use pgsentinel_mcp.Base.{
  ℕ, Text, true, false, ◌||◌, Option, List, [], ◌∷◌, ◌++◌, ◌≡◌, ◌≢◌, ◌⊎◌, refl, arith, all,
  has_char, if◌then◌else◌, lit, is_empty, contains, strip, lstrip, rstrip, equal_iff,
}
use pgsentinel_mcp.Base.Int.{ℤ, min_ℤ}
use pgsentinel_mcp.Base.Result.{ok, >>=-eq-ok}
use pgsentinel_mcp.Security.{read, clamp_limit, no_items}
use pgsentinel_mcp.Security.Sql.{
  SqlPolicy, SqlGuardDecision, guard_sql_query, reject_multiple_statements, has_comment,
  classify_sql_statement, is_unknown, enforce_sql_policy, check_tables, tables_referenced_by_sql,
  hard_max, decide_sql, permits, drop_semicolon, with_limit, str,
}
use pgsentinel_mcp.Security.Limits.{str-lacks_semicolon}

-- The facts that the guard's checks leave behind, for the statement without its blanks and its
-- last semicolon.
pub record Accepted (sql : Text) (allowed : List Text) (policy : SqlPolicy) (requested : Option ℤ)
    (default : ℤ) (d : SqlGuardDecision) : Type 0 where
  pub statement : Text
  pub single : reject_multiple_statements sql ≡ ok statement
  pub not_empty : is_empty statement ≡ false
  pub no_comment : has_comment statement ≡ false
  pub known : is_unknown (classify_sql_statement statement) ≡ false
  pub permitted : enforce_sql_policy (classify_sql_statement statement) policy ≡ ok tt
  pub listed :
      (if no_items allowed
        then ok tt
        else check_tables allowed (tables_referenced_by_sql statement))
      ≡ ok tt
  pub limited :
      clamp_limit requested (hard_max policy) (min_ℤ default (hard_max policy)) ≡ ok d.limit
  pub decided : d ≡ decide_sql statement (classify_sql_statement statement) d.limit

pub guard-Accepted :
    (sql : Text) (allowed : List Text) (policy : SqlPolicy) (requested : Option ℤ) (default : ℤ)
    {d : SqlGuardDecision}
    → guard_sql_query sql allowed policy requested default ≡ ok d
    → Accepted sql allowed policy requested default d
unfolding guard_sql_query decide_sql
guard-Accepted sql allowed policy requested default {d} h =
    let (s, single, h1) = >>=-eq-ok (reject_multiple_statements sql) _ h in
    record {
      statement = s;
      single = single;
      not_empty = ground arith;
      no_comment = ground arith;
      known = ground arith;
      permitted = ground arith;
      listed = ground arith;
      limited = ground arith;
      decided = ground arith;
    }

has_char-append : (x : ℕ) (s t : Text) → has_char x (s ++ t) ≡ (has_char x s || has_char x t)
unfolding has_char
has_char-append x [] t = refl
has_char-append x (c ∷ s) t = ground (arith, has_char-append x s t)

has_char-lstrip : (x : ℕ) (s : Text) → has_char x s ≡ false → has_char x (lstrip s) ≡ false
unfolding has_char lstrip
has_char-lstrip x [] h = refl
has_char-lstrip x (c ∷ s) h = ground (arith, has_char-lstrip x s)

has_char-rstrip : (x : ℕ) (s : Text) → has_char x s ≡ false → has_char x (rstrip s) ≡ false
unfolding has_char rstrip
has_char-rstrip x [] h = refl
has_char-rstrip x (c ∷ s) h = ground (arith, has_char-rstrip x s)

reject_multiple_statements-single :
    (sql : Text) {s : Text} → reject_multiple_statements sql ≡ ok s → has_char b';' s ≡ false
unfolding reject_multiple_statements
reject_multiple_statements-single sql h =
    unfold strip in
    ground (
      arith,
      has_char-lstrip b';' (drop_semicolon (strip sql)),
      has_char-rstrip b';' (lstrip (drop_semicolon (strip sql))),
    )

limit_word-single : has_char b';' (lit " LIMIT ") ≡ false
unfolding has_char lit
limit_word-single = refl

with_limit-single :
    (s : Text) (n : ℤ) → has_char b';' s ≡ false → has_char b';' (with_limit s n) ≡ false
unfolding with_limit
with_limit-single s n h = ground (
  arith,
  has_char-append b';' s (lit " LIMIT " ++ str n),
  has_char-append b';' (lit " LIMIT ") (str n),
  limit_word-single,
  str-lacks_semicolon n,
)

-- The text that the guard returns holds no semicolon.
pub guard_sql_query-single :
    (sql : Text) (allowed : List Text) (policy : SqlPolicy) (requested : Option ℤ) (default : ℤ)
    {d : SqlGuardDecision}
    → guard_sql_query sql allowed policy requested default ≡ ok d
    → has_char b';' d.sql ≡ false
unfolding decide_sql
guard_sql_query-single sql allowed policy requested default {d} h =
    let a = guard-Accepted sql allowed policy requested default h in
    ground (
      arith,
      a.decided,
      reject_multiple_statements-single sql a.single,
      with_limit-single a.statement d.limit,
    )

-- The category of a statement that the guard accepts is read, under the mode readonly_default, or
-- one that the policy allows, under the mode guarded_write; no other mode accepts anything.
pub guard_sql_query-permitted :
    (sql : Text) (allowed : List Text) (policy : SqlPolicy) (requested : Option ℤ) (default : ℤ)
    {d : SqlGuardDecision}
    → guard_sql_query sql allowed policy requested default ≡ ok d
    → ((policy.mode ≡ lit "readonly_default") × (d.category ≡ read))
      ⊎ ((policy.mode ≡ lit "guarded_write") × (permits policy d.category ≡ true))
unfolding decide_sql enforce_sql_policy
guard_sql_query-permitted sql allowed policy requested default {d} h =
    let a = guard-Accepted sql allowed policy requested default h in
    ground (
      arith,
      a.decided,
      a.permitted,
      equal_iff policy.mode (lit "readonly_default"),
      equal_iff policy.mode (lit "guarded_write"),
    )

check_tables-all :
    (allowed tables : List Text)
    → check_tables allowed tables ≡ ok tt
    → all (contains allowed) tables ≡ true
unfolding check_tables
check_tables-all allowed [] h = refl
check_tables-all allowed (t ∷ tables) h = ground (arith, check_tables-all allowed tables)

-- Where the list of allowed tables is not empty, every table that an accepted statement is seen
-- to reference is on it.
pub guard_sql_query-tables :
    (sql : Text) (allowed : List Text) (policy : SqlPolicy) (requested : Option ℤ) (default : ℤ)
    {d : SqlGuardDecision} {s : Text}
    → guard_sql_query sql allowed policy requested default ≡ ok d
    → reject_multiple_statements sql ≡ ok s
    → allowed ≢ []
    → all (contains allowed) (tables_referenced_by_sql s) ≡ true
guard_sql_query-tables sql [] policy requested default h e n = absurd (n refl)
guard_sql_query-tables sql (t ∷ ts) policy requested default {d} {s} h e n =
    let a = guard-Accepted sql (t ∷ ts) policy requested default h in
    ground (arith, a.listed, a.single, check_tables-all (t ∷ ts) (tables_referenced_by_sql s))
