-- ===== src/Base/Json.antt =====
-- JSON values: what `json.dumps` takes and `json.loads` returns, and the dicts that `asdict` makes.
-- A dict is the list of its entries in insertion order. Floats do not occur.
use mathlib.Core.Bool.{Bool, true, ◌&&◌}
use mathlib.Core.Option.{Option, none, some}
use mathlib.Core.List.{List, [], ◌∷◌}
use mathlib.Core.Path.{◌≡◌, refl, ap}
use pgsentinel_mcp.Base.Tests.{if◌then◌else◌}
use pgsentinel_mcp.Base.Int.{ℤ}
use pgsentinel_mcp.Base.Strings.{Text, ◌==◌, contains}

mutual
  pub data Json : Type 0 where
    null : Json
    bool : Bool → Json
    num : ℤ → Json
    str : Text → Json
    arr : Items → Json
    obj : Fields → Json

  pub data Items : Type 0 where
    nil : Items
    item : Json → Items → Items

  pub data Fields : Type 0 where
    end : Fields
    field : Text → Json → Fields → Fields

-- d.get(key)
abbrev pub get : Text → Fields → Option Json
get k end = none
get k (field j v fs) = if j == k then some v else get k fs

-- The keys of a dict are all among some names.
abbrev pub keys_among : List Text → Fields → Bool
keys_among names end = true
keys_among names (field k v fs) = contains names k && keys_among names fs

abbrev pub texts : List Text → Items
texts [] = nil
texts (t ∷ ts) = item (str t) (texts ts)

abbrev cons_text : Option (List Text) → Json → Option (List Text)
cons_text (some ts) (str t) = some (t ∷ ts)
cons_text _ _ = none

abbrev pub read_texts : Items → Option (List Text)
read_texts nil = some []
read_texts (item j js) = cons_text (read_texts js) j

pub read_texts-texts : (ts : List Text) → read_texts (texts ts) ≡ some ts
read_texts-texts [] = refl
read_texts-texts (t ∷ ts) = ap (λ r. cons_text r (str t)) (read_texts-texts ts)
