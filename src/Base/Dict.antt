-- ===== src/Base/Dict.antt =====
-- Dicts with text keys, in insertion order: Python's `dict`, and a directory of files.
use mathlib.Core.Path.{◌≡◌, refl}
use mathlib.Core.Option.{Option, none, some}
use mathlib.Core.List.{List, [], ◌∷◌}
use native.Mathlib.Omega.{arith}
use pgsentinel_mcp.Base.Tests.{if◌then◌else◌}
use pgsentinel_mcp.Base.Strings.{Text, ◌==◌, equal_iff, equal_refl}

abbrev pub Dict : Type 0 → Type 0
Dict V = List (Text × V)

module _ {V : Type 0} where
  unfoldable pub lookup : Text → Dict V → Option V
  lookup k [] = none
  lookup k ((j, v) ∷ d) = if j == k then some v else lookup k d

  -- d[k] = v
  unfoldable pub insert : Text → V → Dict V → Dict V
  insert k v [] = (k, v) ∷ []
  insert k v ((j, w) ∷ d) = if j == k then (k, v) ∷ d else (j, w) ∷ insert k v d

  -- d.pop(k, None). Every entry of the key goes; a real dict has at most one.
  unfoldable pub erase : Text → Dict V → Dict V
  erase k [] = []
  erase k ((j, w) ∷ d) = let rest = erase k d in if j == k then rest else (j, w) ∷ rest

  pub lookup-insert :
      (k j : Text) (v : V) (d : Dict V)
      → lookup j (insert k v d) ≡ (if k == j then some v else lookup j d)
  unfolding lookup insert
  lookup-insert k j v [] = refl
  lookup-insert k j v ((i, w) ∷ d) =
      ground (arith, equal_iff k j, equal_iff i k, equal_iff i j, lookup-insert k j v d)

  pub lookup-erase :
      (k j : Text) (d : Dict V) → lookup j (erase k d) ≡ (if k == j then none else lookup j d)
  unfolding lookup erase
  lookup-erase k j [] = ground arith
  lookup-erase k j ((i, w) ∷ d) =
      ground (arith, equal_iff k j, equal_iff i k, equal_iff i j, lookup-erase k j d)

  pub lookup-insert_self : (k : Text) (v : V) (d : Dict V) → lookup k (insert k v d) ≡ some v
  lookup-insert_self k v d = ground (arith, lookup-insert k k v d, equal_refl k)

  -- Taking out a key that is not there changes nothing.
  erase-fresh : (k : Text) (d : Dict V) → lookup k d ≡ none → erase k d ≡ d
  unfolding erase lookup
  erase-fresh k [] h = refl
  erase-fresh k ((j, v) ∷ d) h = ground (arith, erase-fresh k d)

  pub erase-insert :
      (k : Text) (v : V) (d : Dict V) → lookup k d ≡ none → erase k (insert k v d) ≡ d
  unfolding erase insert lookup
  erase-insert k v [] h = ground (arith, equal_refl k)
  erase-insert k v ((j, w) ∷ d) h =
      ground (arith, equal_refl k, erase-insert k v d, erase-fresh k d)
