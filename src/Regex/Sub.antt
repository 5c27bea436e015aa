-- ===== src/Regex/Sub.antt =====
-- Python's `re.sub` with the replacement `\1` and a fixed text.
use pgsentinel_mcp.Regex.{Regex, Match, matches, first, last_or, group_of, seq, one, empty}
use pgsentinel_mcp.Base.{
  Text, ℕ, zero, suc, Option, none, some, [], ◌∷◌, ◌++◌, length, is_empty, eqb, lower_char,
  if◌then◌else◌,
}

abbrev pub text_or_empty : Option Text → Text
text_or_empty none = []
text_or_empty (some t) = t

-- `\1` and the fixed text.
abbrev pub replaced : Text → Match → Text
replaced fixed m = text_or_empty (group_of 1 m.groups) ++ fixed

-- Every match that is not empty is replaced, from left to right, on fuel: each round consumes a
-- character, and `sub` gives one round to a character.
unfoldable pub sub_from : Regex → Text → ℕ → Option ℕ → Text → Text
unfolding matches last_or
sub_from r fixed zero before s = s
sub_from r fixed (suc fuel) before [] = []
sub_from r fixed (suc fuel) before (c ∷ s) =
    let next = c ∷ sub_from r fixed fuel (some c) s in
    elim (first (matches r before (c ∷ s))) [
      | none ↦ next
      | some m ↦
          let rest = sub_from r fixed fuel (last_or before m.taken) m.rest in
          if is_empty m.taken then next else replaced fixed m ++ rest
    ]

unfoldable pub sub : Regex → Text → Text → Text
unfolding sub_from
sub r fixed s = sub_from r fixed (length s) none s

-- re.escape(text) under re.IGNORECASE
unfoldable pub escaped : Text → Regex
escaped [] = empty
escaped (c ∷ s) = seq (one (λ x. eqb (lower_char x) (lower_char c))) (escaped s)
