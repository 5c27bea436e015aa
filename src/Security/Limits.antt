-- ===== src/Security/Limits.antt =====
-- app/core/security.py: the limits that `clamp_limit` lets through, and the print of a limit.
use mathlib.Core.Path.{ap}
use Prim.Native.Nat.{◌≤◌}
use pgsentinel_mcp.Base.{
  ℕ, zero, suc, ◌+◌, ◌/◌, ◌%◌, ◌≡◌, refl, Option, none, some, [], ◌∷◌, Text, arith, false, is_digit,
  eqb, has_char, ◌*◌, Bool-cases, ◌-◌, ltb, inl, inr, ◌∙◌,
}
use pgsentinel_mcp.Base.Int.{ℤ, pos, negsuc, ◌≤ℤ◌}
use pgsentinel_mcp.Base.Result.{ok}
use pgsentinel_mcp.Security.{clamp_limit}
use pgsentinel_mcp.Security.Sql.{decimal_from, str}

-- No limit passes the maximum.
pub clamp_limit-le_maximum :
    (requested : Option ℤ) (maximum default : ℤ) {limit : ℤ}
    → clamp_limit requested maximum default ≡ ok limit
    → limit ≤ℤ maximum
unfolding clamp_limit
clamp_limit-le_maximum none maximum default h = ground arith
clamp_limit-le_maximum (some r) maximum default h = ground arith

-- A limit is positive where the maximum and the default are.
pub clamp_limit-pos :
    (requested : Option ℤ) (maximum default : ℤ) {limit : ℤ}
    → clamp_limit requested maximum default ≡ ok limit
    → pos 1 ≤ℤ maximum
    → pos 1 ≤ℤ default
    → pos 1 ≤ℤ limit
unfolding clamp_limit
clamp_limit-pos none maximum default h m d = ground arith
clamp_limit-pos (some r) maximum default h m d = ground arith

decimal_from-lacks :
    (x : ℕ) (f n : ℕ) (out : Text)
    → is_digit x ≡ false
    → has_char x out ≡ false
    → has_char x (decimal_from f n out) ≡ false
unfolding decimal_from has_char is_digit
decimal_from-lacks x zero n out d h = h
decimal_from-lacks x (suc f) n out d h =
    ground (arith, decimal_from-lacks x f (n / 10) ((b'0' + n % 10) ∷ out) d)

-- A printed number holds no character but digits and the minus sign.
str-lacks : (x : ℕ) (n : ℤ) → is_digit x ≡ false → eqb b'-' x ≡ false → has_char x (str n) ≡ false
unfolding str has_char
str-lacks x (pos n) d m = decimal_from-lacks x (suc n) n [] d refl
str-lacks x (negsuc n) d m = ground (arith, decimal_from-lacks x (suc (suc n)) (suc n) [] d refl)

-- A printed number holds no semicolon.
pub str-lacks_semicolon : (n : ℤ) → has_char b';' (str n) ≡ false
unfolding is_digit
str-lacks_semicolon n = str-lacks b';' n refl refl

-- The number that decimal digits stand for, behind a number that was read before them.
unfoldable pub value : ℕ → Text → ℕ
value a [] = a
value a (c ∷ s) = value (a * 10 + (c - b'0')) s

decimal_from_step :
    (f n : ℕ) (out : Text)
    → ltb n 10 ≡ false
    → decimal_from (suc f) n out ≡ decimal_from f (n / 10) ((b'0' + n % 10) ∷ out)
unfolding decimal_from
decimal_from_step f n out h = rw h refl

decimal_from-value :
    (f n : ℕ) (out : Text) → n ≤ f → value 0 (decimal_from (suc f) n out) ≡ value n out
unfolding value decimal_from
decimal_from-value zero n out h = ground arith
decimal_from-value (suc f) n out h = elim (Bool-cases (ltb n 10)) [
  | inl small ↦ ground (arith, small)
  | inr large ↦ rw (decimal_from_step (suc f) n out large) (
      decimal_from-value f (n / 10) ((b'0' + n % 10) ∷ out) (ground arith)
      ∙ ap (λ a. value a out) (omega arith))
]

-- The decimal print of a number that is not negative reads as that number, so the fuel of the
-- print is enough.
pub str-value : (n : ℕ) → value 0 (str (pos n)) ≡ n
unfolding str value
str-value n = decimal_from-value n n [] (omega arith)
