-- ===== src/Mcp/Gate/Laws.antt =====
-- app/mcp/tools.py: what holds where a tool goes on to its own work.
use pgsentinel_mcp.Base.{
  Text, true, Option, none, some, [], ◌∷◌, ◌≡◌, refl, arith, strip, lower, not,
}
use pgsentinel_mcp.Base.Result.{Result, ok, err}
use pgsentinel_mcp.Base.Exec.{bind-eq-ok, bind_next, bind_state, lift, raise_when}
use pgsentinel_mcp.Vault.Data.{VaultData, PostgresTargetDef}
use pgsentinel_mcp.Vault.Crypto.{Crypto}
use pgsentinel_mcp.Vault.Store.{Fault}
use pgsentinel_mcp.Manager.Names.{Env, normalize_vault_name}
use pgsentinel_mcp.Manager.State.{World, vault_is_unlocked}
use pgsentinel_mcp.Manager.{ensure_profile_active_and_unlocked}
use pgsentinel_mcp.Mcp.Targets.{NoTarget, resolve_postgres_target}
use pgsentinel_mcp.Manager.Contents.{Holds, get_vault_data-Holds}
use pgsentinel_mcp.Mcp.Gate.{
  vault_result, target_result, on_vault, require_profile_code, get_vault_or_raise, target_for,
  opened_vault, database_for, queried_database, vault_locked,
}

vault_result-ok : {A : Type 0} (r : Result Fault A) {a : A} → vault_result r ≡ ok a → r ≡ ok a
vault_result-ok (ok a) h = cc
vault_result-ok (err e) h = cc

target_result-ok : {A : Type 0} (r : Result NoTarget A) {a : A} → target_result r ≡ ok a → r ≡ ok a
target_result-ok (ok a) h = cc
target_result-ok (err e) h = cc

-- A profile code that stands for the name of a vault.
abbrev pub IsCode : Option Text → Type 0
IsCode profile_code =
    (code : Text) × (name : Text) × (profile_code ≡ some code)
    × (normalize_vault_name (lower (strip code)) ≡ ok name)

module _ (c : Crypto) (env : Env) where
  require_profile_code-IsCode :
      (profile_code : Option Text) (w : World)
      → (require_profile_code c env profile_code w).0 ≡ ok tt
      → IsCode profile_code
  unfolding require_profile_code ensure_profile_active_and_unlocked
  require_profile_code-IsCode none w h = cc
  require_profile_code-IsCode (some []) w h = cc
  require_profile_code-IsCode (some (x ∷ code)) w h =
      let (a, h1, _) =
        bind-eq-ok (on_vault (ensure_profile_active_and_unlocked c env (lower (strip (x ∷ code)))))
          _ w h in
      let (name, named, _) =
        bind-eq-ok (lift (normalize_vault_name (lower (strip (x ∷ code))))) _ w
          (vault_result-ok _ h1) in
      (x ∷ code, name, refl, named)

  get_vault_or_raise-Holds :
      (w : World) {contents : VaultData}
      → (get_vault_or_raise c env w).0 ≡ ok contents
      → Holds (get_vault_or_raise c env w).1 contents
  unfolding get_vault_or_raise
  get_vault_or_raise-Holds w h =
      let (open_now, w1, same, h1) = bind_next (on_vault (vault_is_unlocked env)) _ w h in
      let (_, w2, same2, h2) = bind_next (raise_when (not open_now) vault_locked) _ w1 h1 in
      rw (same, same2) (get_vault_data-Holds c env w2 (vault_result-ok _ h2))

  -- A tool goes on to a target only where it was given a profile code that stands for the name
  -- of a vault; the cached vault is open then, and the target is what the look-up of the tool
  -- finds in its contents.
  pub target_for-IsReached :
      {A : Type 0} (resolve : VaultData → Result NoTarget A) (profile_code : Option Text)
      (w : World) {target : A}
      → (target_for c env resolve profile_code w).0 ≡ ok target
      → IsCode profile_code
        × (vault : VaultData) × Holds (target_for c env resolve profile_code w).1 vault
        × (resolve vault ≡ ok target)
  unfolding target_for opened_vault
  target_for-IsReached resolve profile_code w h =
      let (vault, opened, found) = bind-eq-ok (opened_vault c env profile_code) _ w h in
      let (_, w1, same, h1) = bind_next (require_profile_code c env profile_code) _ w opened in
      let (_, coded, _) = bind-eq-ok (require_profile_code c env profile_code) _ w opened in
      (
        require_profile_code-IsCode profile_code w coded,
        vault,
        rw (bind_state (opened_vault c env profile_code) _ w opened, same)
            (get_vault_or_raise-Holds w1 h1),
        target_result-ok _ found,
      )

  -- The database that `query_readonly_sql` works on is one of the open vault, with queries enabled.
  queried_database-IsReached :
      (profile_code postgres_target : Option Text) (w : World) {pg : PostgresTargetDef}
      → (queried_database c env profile_code postgres_target w).0 ≡ ok pg
      → IsCode profile_code
        × (vault : VaultData) × Holds
            (queried_database c env profile_code postgres_target w).1
            vault
        × (resolve_postgres_target vault postgres_target ≡ ok pg)
        × (pg.sql_query_enabled ≡ true)
  unfolding queried_database database_for
  queried_database-IsReached profile_code postgres_target w h =
      let (pg, found, h1) = bind-eq-ok (database_for c env profile_code postgres_target) _ w h in
      let (coded, vault, holds, is) =
        target_for-IsReached (λ vault. resolve_postgres_target vault postgres_target) profile_code w
          found in
      (
        coded,
        vault,
        rw (bind_state (database_for c env profile_code postgres_target) _ w found) (ground arith),
        ground arith,
        ground arith,
      )
