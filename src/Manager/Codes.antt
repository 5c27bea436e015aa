-- ===== src/Manager/Codes.antt =====
-- app/core/vault_manager.py: the codes of vaults, and the files that they name.
use mathlib.Core.List.{append_assoc}
use pgsentinel_mcp.Base.{
  ℕ, ◌<◌, Text, Bool, true, false, not, ◌&&◌, ◌||◌, some, [], ◌∷◌, ◌++◌, ◌≡◌, ◌≢◌, refl, arith, lit,
  length, length-append, all, keep, strip, lstrip, rstrip, lower, lower_char, is_alnum, is_upper,
  is_space, has_char, equal,
}
use pgsentinel_mcp.Base.Result.{ok}
use pgsentinel_mcp.Base.Dict.{insert, Dict, lookup-insert_self}
use pgsentinel_mcp.Vault.Store.{File, text}
use pgsentinel_mcp.Manager.Names.{
  Env, clean_name, normalize_vault_name, strip_suffix, strip_prefix, code_in, path_in, slash,
  suffix, read_active_vault_name, active_file_in, get_active_vault_name, get_vault_dir, non_empty,
}

-- A character that a code may hold: a digit or a lower-case letter.
abbrev code_char : ℕ → Bool
code_char c = is_alnum c && not (is_upper c)

abbrev IsCode : Text → Type 0
IsCode s = (length s ≡ 8) × (all code_char s ≡ true)

lower_char-code : (c : ℕ) → is_alnum c ≡ true → code_char (lower_char c) ≡ true
unfolding is_alnum lower_char
lower_char-code c h = ground arith

keep-lower : (s : Text) → all code_char (keep is_alnum (lower s)) ≡ true
unfolding lower is_alnum
keep-lower [] = refl
keep-lower (c ∷ s) = ground (arith, keep-lower s)

-- A name that is accepted gives a code: eight characters, digits and lower-case letters.
pub normalize_vault_name-IsCode :
    (name : Text) {code : Text} → normalize_vault_name name ≡ ok code → IsCode code
unfolding normalize_vault_name clean_name
normalize_vault_name-IsCode name h = ground (arith, keep-lower (strip name))

keep-code : (s : Text) → all code_char s ≡ true → keep is_alnum (lower s) ≡ s
unfolding lower lower_char
keep-code [] h = refl
keep-code (c ∷ s) h = ground (arith, keep-code s)

code_char-space : (c : ℕ) → code_char c ≡ true → is_space c ≡ false
unfolding is_alnum is_space
code_char-space c h = ground arith

rstrip-code : (s : Text) → all code_char s ≡ true → rstrip s ≡ s
unfolding rstrip
rstrip-code [] h = refl
rstrip-code (c ∷ s) h = ground (arith, rstrip-code s, code_char-space c)

rstrip-newline : (s : Text) → all code_char s ≡ true → rstrip (s ++ b'\n' ∷ []) ≡ s
unfolding rstrip is_space
rstrip-newline [] h = refl
rstrip-newline (c ∷ s) h = ground (arith, rstrip-newline s, code_char-space c)

lstrip-code : (s t : Text) → all code_char s ≡ true → s ≢ [] → lstrip (s ++ t) ≡ s ++ t
unfolding lstrip
lstrip-code [] t h n = absurd (n refl)
lstrip-code (c ∷ s) t h n = ground (arith, code_char-space c)

code-nonempty : (s : Text) → IsCode s → s ≢ []
code-nonempty s h e = ground arith

lstrip-code_self : (s : Text) → all code_char s ≡ true → lstrip s ≡ s
unfolding lstrip
lstrip-code_self [] h = refl
lstrip-code_self (c ∷ s) h = ground (arith, code_char-space c)

clean_name-code : (s : Text) → all code_char s ≡ true → clean_name s ≡ s
unfolding clean_name strip
clean_name-code s h = rw (lstrip-code_self s h, rstrip-code s h) (keep-code s h)

-- The code that a name is normalised to is its own normal form.
pub normalize_vault_name_idem :
    (name : Text) {code : Text}
    → normalize_vault_name name ≡ ok code
    → normalize_vault_name code ≡ ok code
unfolding normalize_vault_name
normalize_vault_name_idem name {code} h =
    let k : IsCode code = normalize_vault_name-IsCode name h in
    ground (arith, clean_name-code code k.1, k.0)

longer_differs : (s t : Text) → length t < length s → equal s t ≡ false
unfolding equal
longer_differs [] t h = elim h [ ]
longer_differs (c ∷ s) [] h = refl
longer_differs (c ∷ s) (d ∷ t) h = ground (arith, longer_differs s t)

strip_suffix-append : (s : Text) → strip_suffix (s ++ suffix) ≡ some s
unfolding strip_suffix
strip_suffix-append [] = unfold lit equal in refl
strip_suffix-append (c ∷ s) = rw (
  longer_differs (c ∷ (s ++ suffix)) suffix (omega (arith, length-append s suffix)),
  strip_suffix-append s,
)

strip_prefix-append : (p s : Text) → strip_prefix p (p ++ s) ≡ some s
unfolding strip_prefix
strip_prefix-append [] s = refl
strip_prefix-append (c ∷ p) s = ground (arith, strip_prefix-append p s)

has_char-append : (x : ℕ) (s t : Text) → has_char x (s ++ t) ≡ (has_char x s || has_char x t)
unfolding has_char
has_char-append x [] t = refl
has_char-append x (c ∷ s) t = ground (arith, has_char-append x s t)

code-no_slash : (s : Text) → all code_char s ≡ true → has_char b'/' s ≡ false
unfolding has_char is_alnum
code-no_slash [] h = refl
code-no_slash (c ∷ s) h = ground (arith, code-no_slash s)

suffix-no_slash : has_char b'/' suffix ≡ false
unfolding has_char lit
suffix-no_slash = refl

file_of_code : (dir s : Text) → IsCode s → path_in dir s ≡ slash dir [] ++ (s ++ suffix)
file_of_code dir [] h = absurd (omega (arith, h.0))
file_of_code dir (c ∷ s) h = rw (clean_name-code (c ∷ s) h.1, append_assoc)

-- The file that a code names in a directory of vaults is listed under that code.
pub code_in-path_in : (dir s : Text) → IsCode s → code_in dir (path_in dir s) ≡ some s
unfolding code_in
code_in-path_in dir s h = ground (
  arith,
  file_of_code dir s h,
  strip_prefix-append (slash dir []) (s ++ suffix),
  has_char-append b'/' s suffix,
  code-no_slash s h.1,
  suffix-no_slash,
  strip_suffix-append s,
)

written_name : (s : Text) → IsCode s → clean_name (strip (s ++ lit "\n")) ≡ s
unfolding strip lit
written_name s h =
    rw (lstrip-code s (b'\n' ∷ []) h.1 (code-nonempty s h), rstrip-newline s h.1)
      (clean_name-code s h.1)

some_of_code : (s : Text) → IsCode s → non_empty s ≡ some s
some_of_code [] h = absurd (omega (arith, h.0))
some_of_code (c ∷ s) h = refl

-- In a directory of vaults, the code that is written to the file of the active vault is read back
-- as the active one.
pub get_active_vault_name-written :
    (env : Env) (disk : Dict File) {dir : Text} (code : Text)
    → get_vault_dir env ≡ some dir
    → IsCode code
    → get_active_vault_name env (insert (active_file_in env dir) (text (code ++ lit "\n")) disk)
      ≡ code
unfolding get_active_vault_name read_active_vault_name
get_active_vault_name-written env disk {dir} code e h = ground (
  arith,
  e,
  lookup-insert_self (active_file_in env dir) (text (code ++ lit "\n")) disk,
  written_name code h,
  some_of_code code h,
)
