-- ===== src/Manager/Contents.antt =====
-- app/core/vault_manager.py: the contents that `get_vault_data` returns.
use pgsentinel_mcp.Base.{some, ◌≡◌, arith}
use pgsentinel_mcp.Base.Result.{ok}
use pgsentinel_mcp.Base.Exec.{bind-eq-ok}
use pgsentinel_mcp.Vault.Data.{VaultData}
use pgsentinel_mcp.Vault.Crypto.{Crypto}
use pgsentinel_mcp.Vault.Store.{Vault, touch}
use pgsentinel_mcp.Manager.Names.{Env}
use pgsentinel_mcp.Manager.State.{World, get_vault, get_vault-cached}
use pgsentinel_mcp.Manager.{get_vault_data}

-- The open vault of a world, with these contents.
abbrev pub Holds : World → VaultData → Type 0
Holds w contents = (v : Vault) × (w.vault ≡ some v) × (v.contents ≡ some contents)

module _ (c : Crypto) (env : Env) where
  get_vault_data-Holds_of :
      (w : World) (v : Vault) {contents : VaultData}
      → (get_vault env w).0 ≡ ok v
      → (get_vault_data c env w).0 ≡ ok contents
      → Holds (get_vault_data c env w).1 contents
  unfolding get_vault_data touch
  get_vault_data-Holds_of w v found h = (
    record v { last_activity = (get_vault env w).1.host.clock },
    ground (arith, get_vault-cached env w found),
    ground arith,
  )

  pub get_vault_data-Holds :
      (w : World) {contents : VaultData}
      → (get_vault_data c env w).0 ≡ ok contents
      → Holds (get_vault_data c env w).1 contents
  unfolding get_vault_data
  get_vault_data-Holds w h =
      let (v, found, _) = bind-eq-ok (get_vault env) _ w h in get_vault_data-Holds_of w v found h
