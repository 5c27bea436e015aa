-- ===== src/Remote/Command.antt =====
-- app/remote/ssh_client.py and app/remote/connection.py: the text that a remote shell is given.
pub mod Shell
use pgsentinel_mcp.Base.Int.{ℤ}
use pgsentinel_mcp.Base.Dict.{Dict}
use pgsentinel_mcp.Security.Sql.{str}
use pgsentinel_mcp.Base.{
  Text, ℕ, Bool, ◌||◌, is_word, has_char, lit, is_empty, all, if◌then◌else◌, List, [], ◌∷◌, ◌++◌,
  eqb, Option, none, some, map,
}

-- An argument: `str | int`
pub data Arg : Type 0 where
  text : Text → Arg
  number : ℤ → Arg

-- str(arg)
abbrev pub str_of : Arg → Text
str_of (text s) = s
str_of (number n) = str n

-- shlex.quote leaves `[\w@%+=:,./-]` as it is.
unfoldable pub is_plain : ℕ → Bool
unfolding is_word has_char lit
is_plain c = is_word c || has_char c (lit "@%+=:,./-")

-- s.replace("'", "'\"'\"'")
unfoldable pub leave_quotes : Text → Text
leave_quotes [] = []
leave_quotes (c ∷ s) =
    let rest = leave_quotes s in
    if eqb c b'\'' then b'\'' ∷ b'"' ∷ b'\'' ∷ b'"' ∷ b'\'' ∷ rest else c ∷ rest

-- shlex.quote
unfoldable pub quote : Text → Text
quote s =
    if is_empty s
    then b'\'' ∷ b'\'' ∷ []
    else if all is_plain s
    then s
    else b'\'' ∷ (leave_quotes s ++ b'\'' ∷ [])

-- " ".join(parts)
abbrev pub join_blank : List Text → Text
join_blank [] = []
join_blank (s ∷ []) = s
join_blank (s ∷ t ∷ ts) = s ++ (b' ' ∷ join_blank (t ∷ ts))

abbrev pub assignment : Text × Text → Text
assignment (key, value) = quote key ++ (b'=' ∷ quote value)

abbrev pub quoted_args : List Arg → Text
quoted_args args = join_blank (map (λ a. quote (str_of a)) args)

unfoldable pub build_command : List Arg → Option (Dict Text) → Text
build_command args none = quoted_args args
build_command args (some []) = quoted_args args
build_command args (some (e ∷ env)) =
    join_blank (map assignment (e ∷ env)) ++ (b' ' ∷ quoted_args args)
