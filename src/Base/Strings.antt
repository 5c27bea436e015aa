-- ===== src/Base/Strings.antt =====
-- Python's `str` as the list of its code points. The text operations that the program uses are
-- modelled on ASCII text: letters, digits, blanks and case beyond code point 127 are not.
use Prim.Native.Nat.{ℕ, ◌+◌}
use Prim.Native.Char.{code}
use Prim.Native.String.{String}
use mathlib.Core.Path.{◌≡◌, refl}
use mathlib.Core.Logic.{◌↔◌}
use mathlib.Core.Bool.{Bool, true, false, ◌&&◌, ◌||◌}
use mathlib.Core.List.{List, [], ◌∷◌}
use native.Mathlib.Omega.{arith}
use pgsentinel_mcp.Base.Tests.{leb, eqb, if◌then◌else◌}

abbrev pub Text : Type 0
Text = List ℕ

abbrev codes : String → Text
codes String.[] = []
codes (String.◌∷◌ c s) = code c ∷ codes s

-- A literal of the source. Tests unfold it; proofs mostly leave it shut.
unfoldable pub lit : String → Text
lit = codes

unfoldable pub equal : Text → Text → Bool
equal [] [] = true
equal (a ∷ s) (b ∷ t) = eqb a b && equal s t
equal _ _ = false

infix 50 ◌==◌
abbrev pub ◌==◌ : Text → Text → Bool
a == b = equal a b

pub equal_iff : (s t : Text) → (equal s t ≡ true) ↔ (s ≡ t)
unfolding equal
equal_iff [] t = ground arith
equal_iff (c ∷ s) [] = ground arith
equal_iff (c ∷ s) (d ∷ t) = ground (arith, equal_iff s t)

pub equal_refl : (a : Text) → equal a a ≡ true
equal_refl a = (equal_iff a a).1 refl

-- `x in xs` on a list of texts
unfoldable pub contains : List Text → Text → Bool
contains [] a = false
contains (x ∷ xs) a = a == x || contains xs a

-- `not s` is `is_empty s`
abbrev pub is_empty : Text → Bool
is_empty [] = true
is_empty (c ∷ s) = false

unfoldable pub is_space : ℕ → Bool
is_space c = (leb 9 c && leb c 13) || (leb 28 c && leb c 32)

unfoldable pub is_digit : ℕ → Bool
is_digit c = leb b'0' c && leb c b'9'

unfoldable pub is_upper : ℕ → Bool
is_upper c = leb b'A' c && leb c b'Z'

unfoldable pub is_lower : ℕ → Bool
is_lower c = leb b'a' c && leb c b'z'

unfoldable pub is_alnum : ℕ → Bool
unfolding is_digit is_upper is_lower
is_alnum c = is_digit c || is_upper c || is_lower c

-- `\w`
unfoldable pub is_word : ℕ → Bool
unfolding is_alnum
is_word c = is_alnum c || eqb c b'_'

unfoldable pub lower_char : ℕ → ℕ
unfolding is_upper
lower_char c = if is_upper c then c + 32 else c

-- s.lower()
unfoldable pub lower : Text → Text
unfolding lower_char
lower [] = []
lower (c ∷ s) = lower_char c ∷ lower s

unfoldable pub lstrip : Text → Text
unfolding is_space
lstrip [] = []
lstrip (c ∷ s) = if is_space c then lstrip s else c ∷ s

unfoldable pub rstrip : Text → Text
unfolding is_space
rstrip [] = []
rstrip (c ∷ s) = let r = rstrip s in if is_empty r && is_space c then [] else c ∷ r

-- s.strip()
unfoldable pub strip : Text → Text
unfolding lstrip rstrip
strip s = rstrip (lstrip s)

-- s.startswith(p)
unfoldable pub starts_with : Text → Text → Bool
starts_with s [] = true
starts_with [] (p ∷ ps) = false
starts_with (c ∷ s) (p ∷ ps) = eqb c p && starts_with s ps

-- `needle in s`
unfoldable pub has_substring : Text → Text → Bool
unfolding starts_with
has_substring needle [] = starts_with [] needle
has_substring needle (c ∷ s) = starts_with (c ∷ s) needle || has_substring needle s

-- `chr(x) in s`
unfoldable pub has_char : ℕ → Text → Bool
has_char x [] = false
has_char x (c ∷ s) = eqb c x || has_char x s
