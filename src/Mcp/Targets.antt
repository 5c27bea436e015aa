-- ===== src/Mcp/Targets.antt =====
-- app/mcp/tools.py: which server and which database a tool works on.
pub mod Laws
use pgsentinel_mcp.Base.{[]}
use pgsentinel_mcp.Base.Result.{Result, ok, err}
use pgsentinel_mcp.Base.{Option, Text, some, none, ◌∷◌}
use pgsentinel_mcp.Vault.Data.{
  VaultData, ServerDef, PostgresTargetDef, get_server, get_postgres_target,
  get_default_postgres_target, get_default_server,
}

-- The messages of the `ValueError`s.
pub data NoTarget : Type 0 where
  no_server no_postgres_target : NoTarget

module _ {A : Type 0} where
  -- `if name:`, and what the look-up finds under it
  abbrev named : (Text → Option A) → Option Text → Option A
  named get none = none
  named get (some []) = none
  named get (some (c ∷ s)) = get (c ∷ s)

  abbrev default_or : NoTarget → Option A → Result NoTarget A
  default_or e none = err e
  default_or e (some a) = ok a

  -- What the name finds, or the default.
  abbrev resolved : NoTarget → Option A → Option A → Result NoTarget A
  resolved e (some a) default = ok a
  resolved e none default = default_or e default

unfoldable pub resolve_server : VaultData → Option Text → Result NoTarget ServerDef
resolve_server vault server =
    resolved no_server (named (get_server vault) server) (get_default_server vault)

unfoldable pub resolve_postgres_target : VaultData → Option Text → Result NoTarget PostgresTargetDef
resolve_postgres_target vault postgres_target =
    resolved no_postgres_target (named (get_postgres_target vault) postgres_target)
      (get_default_postgres_target vault)
