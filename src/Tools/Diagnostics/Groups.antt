-- ===== src/Tools/Diagnostics/Groups.antt =====
-- app/tools/safe_diagnostics.py: the errors of a log, grouped by what they say.
pub mod Laws
use Prim.Native.Nat.{◌≤◌}
use pgsentinel_mcp.Base.Int.{ℤ}
use pgsentinel_mcp.Base.Dict.{Dict}
use pgsentinel_mcp.Base.Exec.{pure, ◌>>=◌}
use pgsentinel_mcp.Vault.Data.{ServerDef}
use pgsentinel_mcp.Remote.Client.{Runner, Asks}
use pgsentinel_mcp.Tools.Containers.{LogAnswer, refused, output, found, get_recent_errors}
use pgsentinel_mcp.Base.{
  Text, ℕ, zero, suc, ◌+◌, not, Option, none, some, List, [], ◌∷◌, ◌≡◌, refl, arith, lit, strip,
  lower, is_empty, starts_with, keep, map, length, ltb, ◌==◌, if◌then◌else◌, split_words,
  split_lines, join_with, Bool-cases, inl, inr,
}

-- s.find(needle), with `none` for -1
unfoldable pub find_text : Text → Text → Option ℕ
unfolding starts_with
find_text needle [] = if is_empty needle then some 0 else none
find_text needle (c ∷ s) =
    let rest = find_text needle s in
    if starts_with (c ∷ s) needle then some 0 else elim rest [ none ↦ none | some n ↦ some (suc n) ]

-- s[:n]
unfoldable pub take {ℓ} : {A : Type ℓ} → ℕ → List A → List A
take zero xs = []
take (suc n) [] = []
take (suc n) (x ∷ xs) = x ∷ take n xs

-- What stands before a marker, where it stands behind the start.
abbrev before_marker : Text → Option ℕ → Option Text
before_marker s none = none
before_marker s (some zero) = none
before_marker s (some (suc n)) = some (take (suc n) s)

unfoldable pub cut_at : List Text → Text → Text
unfolding find_text take lower strip
cut_at [] s = s
cut_at (marker ∷ markers) s =
    let rest = cut_at markers s in
    elim (before_marker s (find_text (lower (strip marker)) (lower s))) [
      | none ↦ rest
      | some head ↦ head
    ]

unfoldable pub normalize_error : Text → Text
unfolding cut_at take split_words join_with strip
normalize_error line =
    cut_at (lit " at line " ∷ lit " traceback" ∷ lit "Traceback" ∷ [])
      (take 240 (join_with (b' ' ∷ []) (split_words (strip line))))

-- One more of a text, in the order in which the texts came first.
unfoldable pub count_one : Text → Dict ℕ → Dict ℕ
count_one k [] = (k, 1) ∷ []
count_one k ((j, n) ∷ d) = if j == k then (j, n + 1) ∷ d else (j, n) ∷ count_one k d

unfoldable pub count_from : Dict ℕ → List Text → Dict ℕ
unfolding count_one
count_from d [] = d
count_from d (k ∷ ks) = count_from (count_one k d) ks

-- Behind all entries that have as many or more, so that equal ones keep their order.
unfoldable pub place : Text × ℕ → Dict ℕ → Dict ℕ
place (k, n) [] = (k, n) ∷ []
place (k, n) ((j, m) ∷ d) = if ltb m n then (k, n) ∷ (j, m) ∷ d else (j, m) ∷ place (k, n) d

unfoldable pub ranked_from : Dict ℕ → Dict ℕ → Dict ℕ
unfolding place
ranked_from sorted [] = sorted
ranked_from sorted (e ∷ d) = ranked_from (place e sorted) d

-- Counter(ks).most_common()
unfoldable pub most_common : List Text → Dict ℕ
unfolding count_from ranked_from
most_common ks = ranked_from [] (count_from [] ks)

-- `_extract_lines` of what `get_recent_errors` answers on a target: a refusal has no lines.
unfoldable pub extract_lines : LogAnswer → List Text
unfolding split_lines strip
extract_lines (refused e) = []
extract_lines (output n s) = []
extract_lines (found n s) = keep (λ line. not (is_empty (strip line))) (split_lines s)

pub record ErrorGroups : Type 0 where
  pub log_name : Text
  pub total : ℕ
  pub groups : Dict ℕ

unfoldable pub get_errors_grouped : Runner → List Text → ServerDef → Text → ℤ → Asks ErrorGroups
unfolding get_recent_errors extract_lines normalize_error most_common take
get_errors_grouped runner patterns t log_name limit = do
  result ← get_recent_errors runner patterns t log_name limit
  let lines = extract_lines result
  pure (record {
    log_name = log_name;
    total = length lines;
    groups = take 20 (most_common (map normalize_error lines));
  })
