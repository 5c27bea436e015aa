-- ===== src/Base/Split.antt =====
-- Python's ways to cut a text into pieces.
use pgsentinel_mcp.Base.Tests.{eqb, if◌then◌else◌}
use pgsentinel_mcp.Base.Lists.{keep}
use pgsentinel_mcp.Base.Strings.{Text, is_space, is_empty}
use Prim.Native.Nat.{ℕ, zero, suc}
use mathlib.Core.Bool.{Bool, false, not, ◌&&◌, ◌||◌}
use mathlib.Core.Option.{Option, none, some}
use mathlib.Core.List.{List, [], ◌∷◌, ◌++◌}

-- A character in front of the first piece.
abbrev put : ℕ → List Text → List Text
put c [] = (c ∷ []) ∷ []
put c (s ∷ ss) = (c ∷ s) ∷ ss

-- The pieces between the characters of a class; there is always one.
unfoldable pub split_on : (ℕ → Bool) → Text → List Text
split_on p [] = [] ∷ []
split_on p (c ∷ s) = let rest = split_on p s in if p c then [] ∷ rest else put c rest

-- s.split()
unfoldable pub split_words : Text → List Text
unfolding split_on is_space
split_words s = keep (λ w. not (is_empty w)) (split_on is_space s)

-- `\n`, `\r`, `\x0b`, `\x0c`, `\x1c`, `\x1d`, `\x1e`
abbrev ends_line : ℕ → Bool
ends_line c = eqb c 10 || eqb c 13 || eqb c 11 || eqb c 12 || eqb c 28 || eqb c 29 || eqb c 30

-- The lines and what stands behind the last of them; after `\r`, `\n` belongs to the same end.
unfoldable pub lines_from : Bool → Text → List Text
lines_from after_cr [] = [] ∷ []
lines_from after_cr (c ∷ s) =
    let same = lines_from false s in
    let next = lines_from (eqb c 13) s in
    if after_cr && eqb c 10 then same else if ends_line c then [] ∷ next else put c same

abbrev drop_empty_end : List Text → List Text
drop_empty_end [] = []
drop_empty_end ([] ∷ []) = []
drop_empty_end ((c ∷ s) ∷ []) = (c ∷ s) ∷ []
drop_empty_end (s ∷ t ∷ ts) = s ∷ drop_empty_end (t ∷ ts)

-- s.splitlines()
unfoldable pub split_lines : Text → List Text
unfolding lines_from
split_lines s = drop_empty_end (lines_from false s)

abbrev behind : ℕ → Option (Text × Text) → Option (Text × Text)
behind c none = none
behind c (some (a, b)) = some (c ∷ a, b)

-- What stands before and behind the first occurrence of a character.
unfoldable pub cut : ℕ → Text → Option (Text × Text)
cut x [] = none
cut x (c ∷ s) = let rest = cut x s in if eqb c x then some ([], s) else behind c rest

-- s.split(chr(x), n)
unfoldable pub split_max : ℕ → ℕ → Text → List Text
unfolding cut
split_max zero x s = s ∷ []
split_max (suc n) x s = elim (cut x s) [ none ↦ s ∷ [] | some (a, b) ↦ a ∷ split_max n x b ]

-- sep.join(parts)
unfoldable pub join_with : Text → List Text → Text
join_with sep [] = []
join_with sep (s ∷ []) = s
join_with sep (s ∷ t ∷ ts) = s ++ (sep ++ join_with sep (t ∷ ts))

-- xs[i], or a default
abbrev pub nth_or {ℓ} : {A : Type ℓ} → A → ℕ → List A → A
nth_or d n [] = d
nth_or d zero (x ∷ xs) = x
nth_or d (suc n) (x ∷ xs) = nth_or d n xs
