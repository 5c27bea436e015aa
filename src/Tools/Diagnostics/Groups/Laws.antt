-- ===== src/Tools/Diagnostics/Groups/Laws.antt =====
-- app/tools/safe_diagnostics.py: the groups that `get_errors_grouped` reports.
use Prim.Native.Nat.{◌≤◌}
use pgsentinel_mcp.Base.Dict.{Dict}
use pgsentinel_mcp.Base.{Text, ℕ, ◌+◌, List, [], ◌∷◌, ◌≡◌, length, ◌==◌, if◌then◌else◌}

-- The counts together.
abbrev pub sum_of : Dict ℕ → ℕ
sum_of [] = 0
sum_of ((k, n) ∷ d) = n + sum_of d

abbrev HeadLe : ℕ → Dict ℕ → Type 0
HeadLe n [] = Unit
HeadLe n ((j, m) ∷ d) = m ≤ n

-- The first count is the greatest, and so on.
abbrev pub IsRanked : Dict ℕ → Type 0
IsRanked [] = Unit
IsRanked ((k, n) ∷ d) = HeadLe n d × IsRanked d

-- How many entries of a list are a text, and the counts that stand under it together.
unfoldable pub occurs : Text → List Text → ℕ
occurs k [] = 0
occurs k (j ∷ ks) = (if j == k then 1 else 0) + occurs k ks

unfoldable pub count_of : Text → Dict ℕ → ℕ
count_of k [] = 0
count_of k ((j, n) ∷ d) = (if j == k then n else 0) + count_of k d

-- Groups of lines: in falling order, with a count for every line, each under its text.
pub record IsGrouped (signatures : List Text) (d : Dict ℕ) : Type 0 where
  pub ranked : IsRanked d
  pub complete : sum_of d ≡ length signatures
  pub counted : (k : Text) → count_of k d ≡ occurs k signatures
