-- ===== src/Security/Identifiers.antt =====
-- app/core/security.py: what `validate_identifier` and `quote_identifier` accept.
use pgsentinel_mcp.Base.{
  ℕ, Text, true, false, [], ◌∷◌, ◌++◌, ◌≡◌, refl, arith, all, is_word, has_char, if◌then◌else◌, eqb,
  lit,
}
use pgsentinel_mcp.Base.Result.{ok, err}
use pgsentinel_mcp.Regex.Laws.{full_match-head, head_tail}
use pgsentinel_mcp.Security.{is_ident_start, validate_identifier, quote_identifier, invalid}

-- An identifier: a letter or `_`, and then letters, digits and `_` only.
abbrev pub IsIdentifier : Text → Type 0
IsIdentifier [] = ⊥
IsIdentifier (c ∷ s) = (is_ident_start c ≡ true) × (all is_word s ≡ true)

-- `validate_identifier` returns its argument on an identifier, and raises on any other text.
validate_identifier-cases :
    (value label : Text)
    → validate_identifier value label
      ≡ (if head_tail is_ident_start is_word value then ok value else err (invalid label value))
validate_identifier-cases value label =
    unfold validate_identifier in rw (full_match-head is_ident_start is_word value) (ground arith)

validate_identifier-IsIdentifier :
    (value label : Text) {v : Text}
    → validate_identifier value label ≡ ok v
    → IsIdentifier value × (v ≡ value)
validate_identifier-IsIdentifier [] label h = ground (arith, validate_identifier-cases [] label)
validate_identifier-IsIdentifier (c ∷ s) label h =
    ground (arith, validate_identifier-cases (c ∷ s) label)

words-lack_quote : (s : Text) → all is_word s ≡ true → has_char b'"' s ≡ false
unfolding has_char is_word
words-lack_quote [] h = refl
words-lack_quote (c ∷ s) h = ground (arith, words-lack_quote s)

start-lacks_quote : (c : ℕ) → is_ident_start c ≡ true → eqb c b'"' ≡ false
unfolding is_ident_start
start-lacks_quote c h = ground arith

-- A quoted identifier is an identifier between two quotation marks, and the identifier holds none.
pub quote_identifier-safe :
    (value : Text) {q : Text}
    → quote_identifier value ≡ ok q
    → (q ≡ b'"' ∷ (value ++ b'"' ∷ [])) × (has_char b'"' value ≡ false) × IsIdentifier value
unfolding quote_identifier has_char
quote_identifier-safe [] h = ground (arith, validate_identifier-cases [] (lit "identifier"))
quote_identifier-safe (c ∷ s) h = ground (
  arith,
  validate_identifier-cases (c ∷ s) (lit "identifier"),
  words-lack_quote s,
  start-lacks_quote c,
)
