-- ===== src/Tools/Logs.antt =====
-- app/tools/logs.py: which containers' logs may be read.
use mathlib.Core.Logic.{◌↔◌}
use pgsentinel_mcp.Security.{no_items}
use pgsentinel_mcp.Vault.Data.{ServerDef}
use pgsentinel_mcp.Base.{
  Text, List, ◌≡◌, Bool, Option, none, not, if◌then◌else◌, some, [], ◌&&◌, contains, ◌⊎◌, true, ◌∷◌,
  arith, refl, false,
}

pub data LogError : Type 0 where
  source_not_allowlisted container_not_allowlisted : Text → LogError

abbrev listed : List Text → Text → Bool
listed allowed name = not (no_items allowed) && not (contains allowed name)

-- `_log_access_error`: the error, if there is one
unfoldable pub log_access_error : ServerDef → Text → Option LogError
log_access_error t log_name =
    if listed t.allowed_log_sources log_name
    then some (source_not_allowlisted log_name)
    else if t.allow_all_containers
    then none
    else if listed t.allowed_containers log_name
    then some (container_not_allowlisted log_name)
    else if no_items t.allowed_containers
    then some (container_not_allowlisted log_name)
    else none

no_items-nil : (xs : List Text) → no_items xs ≡ true → xs ≡ []
no_items-nil [] h = refl
no_items-nil (x ∷ xs) h = cc

contains-some : (xs : List Text) (a : Text) → contains xs a ≡ true → no_items xs ≡ false
unfolding contains
contains-some [] a h = cc
contains-some (x ∷ xs) a h = refl

-- A log may be read just where the list of log sources is empty or names it, and all containers
-- are allowed or the list of containers names it.
pub log_access_error-none :
    (t : ServerDef) (log_name : Text)
    → (log_access_error t log_name ≡ none) ↔ (
        ((t.allowed_log_sources ≡ []) ⊎ (contains t.allowed_log_sources log_name ≡ true))
        × ((t.allow_all_containers ≡ true) ⊎ (contains t.allowed_containers log_name ≡ true)))
unfolding log_access_error
log_access_error-none t log_name = (
  λ h. ground (arith, no_items-nil t.allowed_log_sources),
  λ h. ground (arith, contains-some t.allowed_containers log_name),
)
