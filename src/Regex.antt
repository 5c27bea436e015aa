-- ===== src/Regex.antt =====
-- The part of Python's `re` that app/core/security.py and app/tools/postgres.py use: patterns
-- without nested repetition, on ASCII text.
-- `matches` lists the ways in which a pattern matches at a place, in the order in which the
-- engine tries them, so the first is the match that `re` reports.
pub mod Laws
pub mod Sub
use mathlib.Core.List.{flat_map}
use pgsentinel_mcp.Base.{
  ℕ, Text, Bool, true, false, not, ◌&&◌, ◌||◌, Option, none, some, List, [], ◌∷◌, ◌++◌, map, eqb,
  if◌then◌else◌, is_some, is_empty, is_word, lower_char, zero, suc, length,
}

pub data Regex : Type 0 where
  -- one character of a class
  one : (ℕ → Bool) → Regex
  -- a class, greedily repeated: `[…]*`
  many : (ℕ → Bool) → Regex
  empty : Regex
  seq : Regex → Regex → Regex
  alt : Regex → Regex → Regex
  -- `\b`
  boundary : Regex
  -- a group, with its number
  group : ℕ → Regex → Regex

-- The text that a match takes, its groups, and the text behind it.
pub record Match : Type 0 where
  pub taken : Text
  pub groups : List (ℕ × Text)
  pub rest : Text

abbrev pub here : Text → Match
here s = record { taken = []; groups = []; rest = s }

abbrev pub push : ℕ → Match → Match
push c m = record m { taken = c ∷ m.taken }

abbrev pub join : Match → Match → Match
join m n = record { taken = m.taken ++ n.taken; groups = m.groups ++ n.groups; rest = n.rest }

abbrev capture : ℕ → Match → Match
capture k m = record m { groups = (k, m.taken) ∷ m.groups }

-- The character before the place that a match has reached.
unfoldable pub last_or : Option ℕ → Text → Option ℕ
last_or p [] = p
last_or p (c ∷ s) = last_or (some c) s

abbrev word_before : Option ℕ → Bool
word_before none = false
word_before (some c) = is_word c

abbrev word_after : Text → Bool
word_after [] = false
word_after (c ∷ s) = is_word c

abbrev differ : Bool → Bool → Bool
differ true b = not b
differ false b = b

unfoldable pub one_match : (ℕ → Bool) → Text → List Match
one_match p [] = []
one_match p (c ∷ s) = if p c then push c (here s) ∷ [] else []

unfoldable pub many_matches : (ℕ → Bool) → Text → List Match
many_matches p [] = here [] ∷ []
many_matches p (c ∷ s) =
    let more = map (push c) (many_matches p s) in
    if p c then more ++ here (c ∷ s) ∷ [] else here (c ∷ s) ∷ []

unfoldable pub matches : Regex → Option ℕ → Text → List Match
unfolding one_match many_matches last_or is_word flat_map
matches (one p) before s = one_match p s
matches (many p) before s = many_matches p s
matches empty before s = here s ∷ []
matches (seq r t) before s =
    flat_map (λ m. map (join m) (matches t (last_or before m.taken) m.rest)) (matches r before s)
matches (alt r t) before s = matches r before s ++ matches t before s
matches boundary before s = if differ (word_before before) (word_after s) then here s ∷ [] else []
matches (group k r) before s = map (capture k) (matches r before s)

abbrev pub first : List Match → Option Match
first [] = none
first (m ∷ ms) = some m

abbrev pub whole : List Match → Bool
whole [] = false
whole (m ∷ ms) = is_empty m.rest || whole ms

abbrev pub group_of : ℕ → List (ℕ × Text) → Option Text
group_of k [] = none
group_of k ((j, t) ∷ gs) = if eqb j k then some t else group_of k gs

-- re.match
unfoldable pub match_at : Regex → Text → Option Match
unfolding matches
match_at r s = first (matches r none s)

-- re.fullmatch
unfoldable pub full_match : Regex → Text → Bool
unfolding matches
full_match r s = whole (matches r none s)

abbrev search_from : Regex → Option ℕ → Text → Bool
search_from r before [] = is_some (first (matches r before []))
search_from r before (c ∷ s) =
    is_some (first (matches r before (c ∷ s))) || search_from r (some c) s

-- bool(re.search)
unfoldable pub search_in : Regex → Text → Bool
unfolding matches
search_in r s = search_from r none s

-- re.finditer, on fuel: each round consumes a character or ends. No pattern here that is
-- searched in this way matches the empty text, and `find_all` gives one round to a character.
unfoldable pub scan : Regex → ℕ → Option ℕ → Text → List Match
unfolding matches
scan r zero before s = []
scan r (suc fuel) before [] = []
scan r (suc fuel) before (c ∷ s) = elim (first (matches r before (c ∷ s))) [
  | none ↦ scan r fuel (some c) s
  | some m ↦ m ∷ scan r fuel (last_or before m.taken) m.rest
]

unfoldable pub find_all : Regex → Text → List Match
unfolding scan
find_all r s = scan r (length s) none s

-- A literal word under re.IGNORECASE, in lower case.
unfoldable pub word : Text → Regex
word [] = empty
word (c ∷ []) = one (λ x. eqb (lower_char x) c)
word (c ∷ d ∷ s) = seq (one (λ x. eqb (lower_char x) c)) (word (d ∷ s))

-- `(?:a|b|…)` of words
unfoldable pub any_word : List Text → Regex
unfolding word
any_word [] = one (λ _. false)
any_word (w ∷ []) = word w
any_word (w ∷ v ∷ ws) = alt (word w) (any_word (v ∷ ws))

-- `[…]+`
abbrev pub some_of : (ℕ → Bool) → Regex
some_of p = seq (one p) (many p)
