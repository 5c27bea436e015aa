-- ===== src/Security/Sql/Classify.antt =====
-- app/core/security.py: what the head of a statement says of its category.
use mathlib.Core.Path.{ap}
use mathlib.Core.List.{flat_map}
use pgsentinel_mcp.Base.{
  Text, Bool, true, Option, some, List, [], ◌∷◌, ◌++◌, ◌≡◌, refl, arith, lit, contains, lower,
  is_space, is_lower, lower_char, equal, equal_refl, Option-cases, inl, inr, ◌⊎◌, sym, ◌∙◌,
}
use pgsentinel_mcp.Base.Int.{ℤ}
use pgsentinel_mcp.Base.Result.{ok}
use pgsentinel_mcp.Regex.{match_at, search_in}
use pgsentinel_mcp.Security.{read}
use pgsentinel_mcp.Security.Sql.{
  SqlPolicy, SqlGuardDecision, guard_sql_query, reject_multiple_statements, classify_sql_statement,
  classify_head, statement_head, head_of, with_dml_re, is_head_char, enforce_sql_policy, permits,
  decide_sql,
}
use pgsentinel_mcp.Security.Sql.Guard.{guard-Accepted, guard_sql_query-permitted}

abbrev pub read_heads : List Text
read_heads = lit "select" ∷ lit "show" ∷ lit "explain" ∷ lit "values" ∷ lit "with" ∷ []

classify_head-read :
    (head : Text) (dml : Bool) → classify_head head dml ≡ read → contains read_heads head ≡ true
unfolding classify_head contains
classify_head-read head dml h = ground arith

classify_sql_statement-read :
    (s : Text)
    → classify_sql_statement s ≡ read
    → (head : Text) × (statement_head s ≡ some head) × (contains read_heads head ≡ true)
unfolding classify_sql_statement
classify_sql_statement-read s h = elim (Option-cases (statement_head s)) [
  | inl e ↦ ground arith
  | inr (head, e) ↦ (head, e, classify_head-read head (search_in with_dml_re s) (ground arith))
]

-- A statement that the guard accepts has the category that the classifier gives it. Under the
-- mode readonly_default it is classified as a read and its first word is select, show, explain,
-- values or with; under the mode guarded_write its category is one that the policy allows; no
-- other mode accepts anything.
pub guard_sql_query-classified :
    (sql : Text) (allowed : List Text) (policy : SqlPolicy) (requested : Option ℤ) (default : ℤ)
    {d : SqlGuardDecision}
    → guard_sql_query sql allowed policy requested default ≡ ok d
    → (s : Text) × (reject_multiple_statements sql ≡ ok s)
      × (d.category ≡ classify_sql_statement s)
      × (((policy.mode ≡ lit "readonly_default")
            × (d.category ≡ read)
            × (head : Text) × (statement_head s ≡ some head)
            × (contains read_heads head ≡ true))
          ⊎ ((policy.mode ≡ lit "guarded_write") × (permits policy d.category ≡ true)))
unfolding decide_sql
guard_sql_query-classified sql allowed policy requested default h =
    let a = guard-Accepted sql allowed policy requested default h in
    let same = ap (λ e. e.category) a.decided in
    (
      a.statement,
      a.single,
      same,
      elim (guard_sql_query-permitted sql allowed policy requested default h) [
        | inl (mode, is_read) ↦
            let (head, first, is_head) =
              classify_sql_statement-read a.statement (sym same ∙ is_read) in
            inl (mode, is_read, head, first, is_head)
        | inr allows ↦ inr allows
      ],
    )

-- Under the mode readonly_default, the statement of an accepted text begins with one of the heads
-- select, show, explain, values and with.
pub guard_sql_query-readonly_head :
    (sql : Text) (allowed : List Text) (policy : SqlPolicy) (requested : Option ℤ) (default : ℤ)
    {d : SqlGuardDecision} {s : Text}
    → guard_sql_query sql allowed policy requested default ≡ ok d
    → reject_multiple_statements sql ≡ ok s
    → policy.mode ≡ lit "readonly_default"
    → (head : Text) × (statement_head s ≡ some head) × (contains read_heads head ≡ true)
unfolding enforce_sql_policy
guard_sql_query-readonly_head sql allowed policy requested default {d} {s} h e m =
    let a = guard-Accepted sql allowed policy requested default h in
    classify_sql_statement-read s
      (ground (arith, a.single, a.permitted, equal_refl (lit "readonly_default")))

-- A text that begins with explain and a blank is classified as a read, whatever statement follows.
pub classify_explain : (body : Text) → classify_sql_statement (lit "explain " ++ body) ≡ read
unfolding classify_sql_statement statement_head classify_head head_of match_at is_head_char is_space
    lower lit contains flat_map is_lower lower_char equal
classify_explain body = refl
