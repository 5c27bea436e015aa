-- ===== src/Regex/Laws.antt =====
-- The matches of the patterns in app/core/security.py.
use mathlib.Core.List.{flat_map}
use pgsentinel_mcp.Base.{
  ℕ, Text, Bool, false, ◌&&◌, ◌||◌, List, [], ◌∷◌, ◌++◌, map, ◌≡◌, refl, arith, all,
}
use pgsentinel_mcp.Regex.{Match, push, here, join, many_matches, full_match, whole, one, many, seq}

whole-append : (ms ns : List Match) → whole (ms ++ ns) ≡ (whole ms || whole ns)
whole-append [] ns = refl
whole-append (m ∷ ms) ns = ground (arith, whole-append ms ns)

whole-push : (c : ℕ) (ms : List Match) → whole (map (push c) ms) ≡ whole ms
whole-push c [] = refl
whole-push c (m ∷ ms) = ground (arith, whole-push c ms)

whole-many : (p : ℕ → Bool) (s : Text) → whole (many_matches p s) ≡ all p s
unfolding many_matches
whole-many p [] = refl
whole-many p (c ∷ s) = ground (
  arith,
  whole-append (map (push c) (many_matches p s)) (here (c ∷ s) ∷ []),
  whole-push c (many_matches p s),
  whole-many p s,
)

whole-join : (m : Match) (ms : List Match) → whole (map (join m) ms) ≡ whole ms
whole-join m [] = refl
whole-join m (n ∷ ms) = ground (arith, whole-join m ms)

whole-flat_map : (f : Match → List Match) (m : Match) → whole (flat_map f (m ∷ [])) ≡ whole (f m)
unfolding flat_map
whole-flat_map f m = ground (arith, whole-append (f m) [])

-- A character of one class, and then only characters of another.
abbrev pub head_tail : (ℕ → Bool) → (ℕ → Bool) → Text → Bool
head_tail p q [] = false
head_tail p q (c ∷ s) = p c && all q s

-- `[…][…]*` matches the whole of a text exactly when its first character is of the first class
-- and all others are of the second.
pub full_match-head :
    (p q : ℕ → Bool) (s : Text) → full_match (seq (one p) (many q)) s ≡ head_tail p q s
unfolding full_match
full_match-head p q [] = refl
full_match-head p q (c ∷ s) = ground (
  arith,
  whole-append (map (join (push c (here s))) (many_matches q s)) [],
  whole-join (push c (here s)) (many_matches q s),
  whole-many q s,
)
