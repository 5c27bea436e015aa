-- ===== src/Manager/Opening.antt =====
-- app/core/vault_manager.py: what `unlock_vault` leaves for the operations after it.
use pgsentinel_mcp.Base.Exec.{bind-eq-ok}
use pgsentinel_mcp.Manager.{unlock_vault}
use pgsentinel_mcp.Base.Result.{ok}
use pgsentinel_mcp.Base.{Text, ◌≡◌, arith, true, equal_iff, equal_refl, some}
use pgsentinel_mcp.Manager.Names.{Env, resolve_current_vault_path}
use pgsentinel_mcp.Vault.Crypto.{Crypto}
use pgsentinel_mcp.Manager.State.{get_vault, World, start_auto_lock_timer, with_vault, run_on}
use pgsentinel_mcp.Vault.Store.{unlock, load_encrypted, Desk, Vault, is_unlocked, touch}

unlock-opens :
    (c : Crypto) (password : Text) (d : Desk)
    → (unlock c password d).0 ≡ ok tt
    → (is_unlocked (unlock c password d).1.vault ≡ true)
      × ((unlock c password d).1.vault.path ≡ d.vault.path)
      × ((unlock c password d).1.host.disk ≡ d.host.disk)
unfolding unlock
unlock-opens c password d h = (ground arith, ground arith, ground arith)

get_vault-path :
    (env : Env) (w : World) {v : Vault}
    → (get_vault env w).0 ≡ ok v
    → (v.path ≡ resolve_current_vault_path env w.host.disk) × ((get_vault env w).1.host ≡ w.host)
unfolding get_vault load_encrypted
get_vault-path env w {v} h =
    (ground (arith, equal_iff v.path (resolve_current_vault_path env w.host.disk)), ground arith)

-- The cached vault is the one that the environment and the files call for.
pub record IsCurrent (env : Env) (w : World) (v : Vault) : Type 0 where
  pub held : w.vault ≡ some v
  pub placed : v.path ≡ resolve_current_vault_path env w.host.disk

pub get_vault-current :
    (env : Env) (w : World) (v : Vault) → IsCurrent env w v → get_vault env w ≡ (ok v, w)
unfolding get_vault
get_vault-current env w v k = ground (arith, k.held, k.placed, equal_refl v.path)

-- A successful unlock leaves an open vault that is the current one.
pub unlock_vault-IsCurrent :
    (c : Crypto) (env : Env) (password : Text) (w : World)
    → (unlock_vault c env password w).0 ≡ ok tt
    → (v : Vault) × IsCurrent env (unlock_vault c env password w).1 v × (is_unlocked v ≡ true)
unfolding unlock_vault start_auto_lock_timer touch
unlock_vault-IsCurrent c env password w h =
    let (_, h1, _) = bind-eq-ok (with_vault env (unlock c password)) _ w h in
    let (v, found, k) = bind-eq-ok (get_vault env) (λ x. run_on x (unlock c password)) w h1 in
    let (placed, same) = get_vault-path env w found in
    let d : Desk = record { vault = v; host = (get_vault env w).1.host } in
    let (open_now, path, disk) = unlock-opens c password d k in
    let d' : Desk = (unlock c password d).1 in
    (
      record d'.vault { last_activity = d'.host.clock },
      record {
        held = ground (arith, found, k);
        placed = ground (arith, found, k, path, disk, placed, same);
      },
      open_now,
    )
