-- ===== src/Vault/Codec/Read.antt =====
-- Keyword arguments read from a dict, with the default of a dataclass field. `none` is the
-- TypeError that the dataclass raises. (Python does not check the annotated types: a value of
-- another type is refused here and kept there. `to_dict` writes none.)
use pgsentinel_mcp.Base.{Text, Bool, Option, none, some, List}
use pgsentinel_mcp.Base.Int.{ℤ}
use pgsentinel_mcp.Base.Json.{Json, bool, num, str, arr, Fields, get, read_texts}

infixl 5 ◌>>=◌
abbrev pub ◌>>=◌ {ℓ κ} : {A : Type ℓ} {B : Type κ} → Option A → (A → Option B) → Option B
none >>= f = none
some a >>= f = f a

abbrev as_text : Text → Option Json → Option Text
as_text default none = some default
as_text default (some (str t)) = some t
as_text default _ = none

abbrev as_required : Option Json → Option Text
as_required (some (str t)) = some t
as_required _ = none

abbrev as_int : ℤ → Option Json → Option ℤ
as_int default none = some default
as_int default (some (num n)) = some n
as_int default _ = none

abbrev as_bool : Bool → Option Json → Option Bool
as_bool default none = some default
as_bool default (some (bool b)) = some b
as_bool default _ = none

abbrev as_texts : List Text → Option Json → Option (List Text)
as_texts default none = some default
as_texts default (some (arr js)) = read_texts js
as_texts default _ = none

abbrev pub text_at : Text → Text → Fields → Option Text
text_at k default fs = as_text default (get k fs)

abbrev pub required_text : Text → Fields → Option Text
required_text k fs = as_required (get k fs)

abbrev pub int_at : Text → ℤ → Fields → Option ℤ
int_at k default fs = as_int default (get k fs)

abbrev pub bool_at : Text → Bool → Fields → Option Bool
bool_at k default fs = as_bool default (get k fs)

abbrev pub texts_at : Text → List Text → Fields → Option (List Text)
texts_at k default fs = as_texts default (get k fs)
