-- ===== src/Masking.antt =====
-- app/core/masking.py: secrets in texts and in data. A pattern is a text that is not empty.
pub mod Laws
use pgsentinel_mcp.Base.Json.{
  Json, null, bool, num, str, arr, obj, Items, nil, item, Fields, end, field,
}
use pgsentinel_mcp.Regex.{Regex, one, many, empty, seq, alt, group, word, any_word, some_of}
use pgsentinel_mcp.Regex.Sub.{sub, escaped}
use pgsentinel_mcp.Base.{
  Text, ℕ, Bool, not, ◌&&◌, ◌||◌, List, [], ◌∷◌, ◌++◌, map, lit, eqb, has_char, is_space, is_alnum,
  strip, lower, lstrip, rstrip, has_substring, any, ◌==◌, if◌then◌else◌,
}

-- MASK
abbrev pub mask : Text
mask = lit "***MASKED***"

-- SENSITIVE_KEYWORDS
abbrev sensitive_keywords : List Text
sensitive_keywords =
    lit "password"
    ∷ lit "passwd"
    ∷ lit "token"
    ∷ lit "secret"
    ∷ lit "authorization"
    ∷ lit "api_key"
    ∷ lit "apikey"
    ∷ lit "private_key"
    ∷ lit "access_key"
    ∷ lit "refresh_token"
    ∷ []

-- `[^\r\n]`
abbrev in_line : ℕ → Bool
in_line c = not (eqb c b'\r' || eqb c b'\n')

-- `[^\s&;,\r\n]`
unfoldable pub is_value : ℕ → Bool
unfolding is_space
is_value c = not (is_space c || eqb c b'&' || eqb c b';' || eqb c b',')

-- `[^\s\r\n]`
abbrev not_space : ℕ → Bool
not_space c = not (is_space c)

-- `[A-Za-z0-9._~+/=-]`
unfoldable pub is_token : ℕ → Bool
unfolding is_alnum has_char lit
is_token c = is_alnum c || has_char c (lit "._~+/=-")

-- `(Bearer\s+)[A-Za-z0-9._~+/=-]+`
unfoldable pub bearer_re : Regex
unfolding word lit
bearer_re = seq (group 1 (seq (word (lit "bearer")) (some_of is_space))) (some_of is_token)

abbrev optional : (ℕ → Bool) → Regex
optional p = alt (one p) empty

-- `[_-]`
abbrev joint : ℕ → Bool
joint c = eqb c b'_' || eqb c b'-'

-- `api[_-]?key`
abbrev two_words : Text → Text → Regex
two_words a b = seq (word a) (seq (optional joint) (word b))

-- `(?:password|passwd|token|secret|api[_-]?key|private[_-]?key)\s*[:=]\s*`
abbrev secret_key_re : Regex
secret_key_re =
    seq
      (alt (any_word (lit "password" ∷ lit "passwd" ∷ lit "token" ∷ lit "secret" ∷ []))
        (alt (two_words (lit "api") (lit "key")) (two_words (lit "private") (lit "key"))))
      (seq (many is_space) (seq (one (λ c. eqb c b':' || eqb c b'=')) (many is_space)))

unfoldable pub secret_re : Regex
unfolding word any_word lit
secret_re = seq (group 1 secret_key_re) (some_of is_value)

-- `(Authorization:\s*)[^\r\n]+`
unfoldable pub authorization_re : Regex
unfolding word lit
authorization_re =
    seq (group 1 (seq (word (lit "authorization:")) (many is_space))) (some_of in_line)

-- s.endswith(chr(x))
unfoldable pub ends_in : ℕ → Text → Bool
ends_in x [] = Bool.false
ends_in x (c ∷ []) = eqb c x
ends_in x (c ∷ d ∷ s) = ends_in x (d ∷ s)

-- _pattern_regex
unfoldable pub pattern_regex : Text → Regex
unfolding bearer_re escaped ends_in strip lower
pattern_regex pattern =
    if ends_in b':' pattern
    then seq (group 1 (seq (escaped pattern) (many is_space))) (some_of in_line)
    else if ends_in b'=' pattern
    then seq (group 1 (escaped pattern)) (some_of is_value)
    else if lower (strip pattern) == lit "bearer"
    then bearer_re
    else seq (group 1 (escaped pattern)) (group 2 (many not_space))

unfoldable pub mask_patterns : List Text → Text → Text
unfolding pattern_regex sub
mask_patterns [] value = value
mask_patterns (p ∷ ps) value = mask_patterns ps (sub (pattern_regex p) mask value)

unfoldable pub mask_text : Text → List Text → Text
unfolding mask_patterns sub secret_re authorization_re bearer_re
mask_text value patterns =
    sub bearer_re mask
      (sub authorization_re mask (sub secret_re mask (mask_patterns patterns value)))

abbrev underscored : Text → Text
underscored = map (λ c. if eqb c b'-' then b'_' else c)

unfoldable pub is_sensitive_key : Text → Bool
unfolding lower has_substring
is_sensitive_key key =
    any (λ keyword. has_substring keyword (underscored (lower key))) sensitive_keywords

unfoldable mutual
  unfolding mask_text is_sensitive_key

  pub mask_data : List Text → Json → Json
  mask_data patterns (str s) = str (mask_text s patterns)
  mask_data patterns (obj fs) = obj (mask_fields patterns fs)
  mask_data patterns (arr js) = arr (mask_items patterns js)
  mask_data patterns null = null
  mask_data patterns (bool b) = bool b
  mask_data patterns (num n) = num n

  pub mask_items : List Text → Items → Items
  mask_items patterns nil = nil
  mask_items patterns (item j js) = item (mask_data patterns j) (mask_items patterns js)

  pub mask_fields : List Text → Fields → Fields
  mask_fields patterns end = end
  mask_fields patterns (field k v fs) =
      let masked = mask_data patterns v in
      field k (if is_sensitive_key k then str mask else masked) (mask_fields patterns fs)
