-- ===== src/Remote/Command/Shell.antt =====
-- app/remote/ssh_client.py: how a POSIX shell splits the text of `_build_command` into words.
use mathlib.Core.List.{append_assoc, append-nil}
use pgsentinel_mcp.Base.Dict.{Dict}
use pgsentinel_mcp.Base.{
  Text, ℕ, Bool, true, false, not, ◌||◌, has_char, lit, all, if◌then◌else◌, List, [], ◌∷◌, ◌++◌,
  eqb, Option, none, some, map, ◌≡◌, refl, arith, inl, inr, Bool-cases, ◌∙◌, ap, sym,
}
use pgsentinel_mcp.Remote.Command.{
  Arg, str_of, is_plain, leave_quotes, quote, join_blank, assignment, quoted_args, build_command,
}

-- Where the shell is: between words, in a word, or in quotes.
pub data Mode : Type 0 where
  between plain single double : Mode

-- What a character does there.
pub data Move : Type 0 where
  refuse skip close : Move
  enter take : Mode → Move

-- Characters that do more in a shell than stand for themselves.
unfoldable pub is_active : ℕ → Bool
unfolding has_char lit
is_active c = has_char c (lit "|&;<>()$`\\*?[]#~!{}\n\r")

abbrev is_blank : ℕ → Bool
is_blank c = eqb c b' ' || eqb c b'\t'

abbrev in_word : ℕ → Move
in_word c =
    if eqb c b'\''
    then enter single
    else if eqb c b'"'
    then enter double
    else if is_active c
    then refuse
    else take plain

unfoldable pub move : Mode → ℕ → Move
move between c = if is_blank c then skip else in_word c
move plain c = if is_blank c then close else in_word c
move single c = if eqb c b'\'' then enter plain else take single
move double c =
    if eqb c b'"'
    then enter plain
    else if eqb c b'$' || eqb c b'`' || eqb c b'\\'
    then refuse
    else take double

-- Characters put in front of the first word.
abbrev push : Text → Option (List Text) → Option (List Text)
push s none = none
push s (some []) = some []
push s (some (w ∷ ws)) = some ((s ++ w) ∷ ws)

abbrev new_word : Option (List Text) → Option (List Text)
new_word none = none
new_word (some ws) = some ([] ∷ ws)

-- The words of a text; inside a word, the first of them is what is left of it. There are none
-- where quotes stay open, or a character that is active stands outside them.
unfoldable pub words : Mode → Text → Option (List Text)
words between [] = some []
words plain [] = some ([] ∷ [])
words single [] = none
words double [] = none
words m (c ∷ s) = elim (move m c) [
  | refuse ↦ none
  | skip ↦ words between s
  | close ↦ new_word (words between s)
  | enter n ↦ words n s
  | take n ↦ push (c ∷ []) (words n s)
]

push_nil : (r : Option (List Text)) → push [] r ≡ r
push_nil none = refl
push_nil (some []) = refl
push_nil (some (w ∷ ws)) = refl

push-push : (s t : Text) (r : Option (List Text)) → push s (push t r) ≡ push (s ++ t) r
push-push s t none = refl
push-push s t (some []) = refl
push-push s t (some (w ∷ ws)) = simp (append_assoc)

eqb-eq : (c d : ℕ) → eqb c d ≡ true → c ≡ d
eqb-eq c d h = ground arith

apart :
    (p : ℕ → Bool) (cs : Text) (c : ℕ)
    → all (λ x. not (p x)) cs ≡ true
    → p c ≡ true
    → has_char c cs ≡ false
unfolding has_char
apart p [] c h k = refl
apart p (d ∷ cs) c h k = elim (Bool-cases (eqb d c)) [
  | inl e ↦ absurd (clash (eqb-eq d c e) (ground (arith, h)))
  | inr e ↦ ground (arith, e, apart p cs c (ground (arith, h)) k)
]
  where
    clash : d ≡ c → not (p d) ≡ true → ⊥
    clash e n = ground (arith, ap p e, k)

plain-inactive : (c : ℕ) → is_plain c ≡ true → is_active c ≡ false
unfolding is_active is_plain lit
plain-inactive c h = apart is_plain (lit "|&;<>()$`\\*?[]#~!{}\n\r") c refl h

plain-unquoted : (c : ℕ) → is_plain c ≡ true → has_char c (lit "'\" \t") ≡ false
unfolding is_plain lit
plain-unquoted c h = apart is_plain (lit "'\" \t") c refl h

plain-move :
    (c : ℕ) → is_plain c ≡ true → (move plain c ≡ take plain) × (move between c ≡ take plain)
unfolding move has_char lit
plain-move c h = let u = plain-unquoted c h in let a = plain-inactive c h in ground (arith, a, u)

plain_step :
    (c : ℕ) (s : Text)
    → is_plain c ≡ true
    → (words plain (c ∷ s) ≡ push (c ∷ []) (words plain s))
      × (words between (c ∷ s) ≡ push (c ∷ []) (words plain s))
unfolding words
plain_step c s h = let (p, b) = plain-move c h in (rw (words, p) refl, rw (words, b) refl)

-- A text of plain characters is its own word.
plain-words : (s t : Text) → all is_plain s ≡ true → words plain (s ++ t) ≡ push s (words plain t)
plain-words [] t h = sym (push_nil _)
plain-words (c ∷ s) t h =
    (plain_step c (s ++ t) (ground (arith, h))).0
    ∙ ap (push (c ∷ [])) (plain-words s t (ground (arith, h)))
    ∙ push-push (c ∷ []) s _

single_step :
    (c : ℕ) (s : Text) → eqb c b'\'' ≡ false → words single (c ∷ s) ≡ push (c ∷ []) (words single s)
unfolding words move
single_step c s h = rw (words, h) refl

single_quote_step :
    (s : Text)
    → words single (b'\'' ∷ b'"' ∷ b'\'' ∷ b'"' ∷ b'\'' ∷ s) ≡ push (b'\'' ∷ []) (words single s)
unfolding words move is_active has_char lit
single_quote_step s = refl

closing : (t : Text) → words single (b'\'' ∷ t) ≡ words plain t
unfolding words move
closing t = refl

single-words : (s t : Text) → words single (leave_quotes s ++ (b'\'' ∷ t)) ≡ push s (words plain t)
unfolding leave_quotes
single-words [] t = closing t ∙ sym (push_nil (words plain t))
single-words (c ∷ s) t = elim (Bool-cases (eqb c b'\'')) [
  | inl e ↦
      rw (e, single_quote_step (leave_quotes s ++ (b'\'' ∷ t)), single-words s t)
        (push-push (b'\'' ∷ []) s _
          ∙ ap (λ x. push (x ∷ s) (words plain t)) (sym (eqb-eq c b'\'' e)))
  | inr e ↦
      rw (e, single_step c (leave_quotes s ++ (b'\'' ∷ t)) e, single-words s t)
        (push-push (c ∷ []) s _)
]

Reads : Text → Text → Type 0
Reads w v =
    (t : Text)
    → (words between (w ++ t) ≡ push v (words plain t))
      × (words plain (w ++ t) ≡ push v (words plain t))

plain-Reads : (c : ℕ) (s : Text) → all is_plain (c ∷ s) ≡ true → Reads (c ∷ s) (c ∷ s)
unfolding Reads
plain-Reads c s h t = (
  (plain_step c (s ++ t) (ground (arith, h))).1
      ∙ ap (push (c ∷ [])) (plain-words s t (ground (arith, h)))
      ∙ push-push (c ∷ []) s _,
  plain-words (c ∷ s) t h,
)

opening :
    (s : Text)
    → (words between (b'\'' ∷ s) ≡ words single s) × (words plain (b'\'' ∷ s) ≡ words single s)
unfolding words move
opening s = (refl, refl)

quoted-Reads : (s : Text) → Reads (b'\'' ∷ (leave_quotes s ++ b'\'' ∷ [])) s
unfolding Reads
quoted-Reads s t =
    let inner : words single ((leave_quotes s ++ b'\'' ∷ []) ++ t) ≡ push s (words plain t) =
      rw (append_assoc) (single-words s t) in
    ((opening _).0 ∙ inner, (opening _).1 ∙ inner)

-- What `shlex.quote` writes is read as the text that it was given, wherever it stands.
quote-Reads : (s : Text) → Reads (quote s) s
unfolding quote leave_quotes
quote-Reads [] = quoted-Reads []
quote-Reads (c ∷ s) = elim (Bool-cases (all is_plain (c ∷ s))) [
  | inl e ↦ rw e (plain-Reads c s e)
  | inr e ↦ rw e (quoted-Reads (c ∷ s))
]

Reads-append : (w x v y : Text) → Reads w v → Reads x y → Reads (w ++ x) (v ++ y)
unfolding Reads
Reads-append w x v y h k t =
    rw (append_assoc, (h (x ++ t)).0, (h (x ++ t)).1, (k t).1) (push-push v y _, push-push v y _)

abbrev plain_assignment : Text × Text → Text
plain_assignment (key, value) = key ++ (b'=' ∷ value)

assignment-Reads : (e : Text × Text) → Reads (assignment e) (plain_assignment e)
unfolding is_plain
assignment-Reads (key, value) =
    Reads-append (quote key) (b'=' ∷ quote value) key (b'=' ∷ value) (quote-Reads key) (
      Reads-append (b'=' ∷ []) (quote value) (b'=' ∷ []) value (plain-Reads b'=' [] refl)
        (quote-Reads value))

abbrev before : List Text → Option (List Text) → Option (List Text)
before ws none = none
before ws (some vs) = some (ws ++ vs)

push-new_word :
    (v : Text) (ws : List Text) (r : Option (List Text))
    → push v (new_word (before ws r)) ≡ before (v ∷ ws) r
push-new_word v ws none = refl
push-new_word v ws (some vs) = rw (append-nil) refl

push-new_word_nil : (v : Text) (r : Option (List Text)) → push v (new_word r) ≡ before (v ∷ []) r
push-new_word_nil v none = refl
push-new_word_nil v (some vs) = rw (append-nil) refl

between_nil : words between [] ≡ some []
unfolding words
between_nil = refl

plain_nil : words plain [] ≡ new_word (some [])
unfolding words
plain_nil = refl

blank : (t : Text) → words plain (b' ' ∷ t) ≡ new_word (words between t)
unfolding words move
blank t = refl

module _ {A : Type 0} (f v : A → Text) (reads : (a : A) → Reads (f a) (v a)) where
  join_blank-words :
      (a : A) (xs : List A) (t : Text) (r : Option (List Text))
      → words plain t ≡ new_word r
      → words between (join_blank (map f (a ∷ xs)) ++ t) ≡ before (map v (a ∷ xs)) r
  unfolding Reads
  join_blank-words a [] t r h = (reads a t).0 ∙ ap (push (v a)) h ∙ push-new_word_nil (v a) r
  join_blank-words a (b ∷ xs) t r h = rw (append_assoc) (
      (reads a _).0
      ∙ ap (push (v a)) (blank _ ∙ ap new_word (join_blank-words b xs t r h))
      ∙ push-new_word (v a) (map v (b ∷ xs)) r)

quoted_args-words : (args : List Arg) → words between (quoted_args args) ≡ some (map str_of args)
quoted_args-words [] = between_nil
quoted_args-words (a ∷ args) =
    ap (words between) (sym (append-nil (quoted_args (a ∷ args))))
    ∙ join_blank-words (λ x. quote (str_of x)) str_of (λ x. quote-Reads (str_of x)) a args []
        (some []) plain_nil
    ∙ ap some (append-nil (map str_of (a ∷ args)))

abbrev entries : Option (Dict Text) → Dict Text
entries none = []
entries (some env) = env

-- The text that is sent to a remote shell is read by it as these words: one word for each
-- variable, with its name, an equals sign and its value, and then one word for each argument, as
-- it was given. No character of a value or an argument does anything else.
pub build_command-words :
    (args : List Arg) (env : Option (Dict Text))
    → words between (build_command args env)
      ≡ some (map plain_assignment (entries env) ++ map str_of args)
unfolding build_command
build_command-words args none = quoted_args-words args
build_command-words args (some []) = quoted_args-words args
build_command-words args (some (e ∷ env)) =
    join_blank-words assignment plain_assignment assignment-Reads e env (b' ' ∷ quoted_args args)
      (some (map str_of args)) (blank (quoted_args args) ∙ ap new_word (quoted_args-words args))
