-- ===== src/Mcp/Auth/Laws.antt =====
-- app/mcp/auth.py: which requests get through to the tools.
use pgsentinel_mcp.Base.{
  Text, true, false, not, Option, ◌≡◌, refl, arith, lit, starts_with, is_empty, ◌∙◌, subst, sym,
}
use pgsentinel_mcp.Base.Int.{ℤ}
use pgsentinel_mcp.Base.Result.{Result, ok, err}
use pgsentinel_mcp.Base.Exec.{bind-eq-ok, bind_state, bind_next}
use pgsentinel_mcp.Vault.Data.{VaultData, is_agent_key_expired}
use pgsentinel_mcp.Vault.Crypto.{Crypto}
use pgsentinel_mcp.Vault.Store.{Fault, is_valid_agent_token_format, verify_agent_token}
use pgsentinel_mcp.Manager.Names.{Env}
use pgsentinel_mcp.Manager.State.{World, vault_exists, vault_is_locked}
use pgsentinel_mcp.Manager.{get_vault_data}
use pgsentinel_mcp.Manager.Contents.{Holds, get_vault_data-Holds}
use pgsentinel_mcp.Mcp.Auth.{
  Gate, check_key, authorize, drop, open_contents, check_header, attempt, call, deny_when,
  vault_unconfigured, open_if_locked, failed, dispatch, Request,
}

module _ (c : Crypto) (env : Env) (from_iso : Text → Option ℤ) (now : ℤ) where
  -- What the key checks establish.
  pub record IsAdmitted (token : Text) (contents : VaultData) : Type 0 where
    pub enabled : contents.agent.enabled ≡ true
    pub has_key : is_empty contents.agent.key_hash ≡ false
    pub verified : verify_agent_token c token contents.agent.key_hash ≡ true
    pub not_expired : is_agent_key_expired from_iso now contents ≡ false

  check_key-IsAdmitted :
      (token : Text) (contents : VaultData) (g : Gate)
      → (check_key c env from_iso now token contents g).0 ≡ ok tt
      → IsAdmitted token contents
  unfolding check_key
  check_key-IsAdmitted token contents g h = ground arith

  failed-ok :
      {A : Type 0} (r : Result Fault A) (g : Gate) {a : A} → (failed r g).0 ≡ ok a → r ≡ ok a
  failed-ok (ok a) g h = cc
  failed-ok (err f) g h = cc

  failed-world : {A : Type 0} (r : Result Fault A) (g : Gate) → (failed r g).1.world ≡ g.world
  failed-world (ok a) g = refl
  failed-world (err f) g = refl

  attempt-Holds :
      (g : Gate) {contents : VaultData}
      → (attempt (get_vault_data c env) g).0 ≡ ok contents
      → Holds (attempt (get_vault_data c env) g).1.world contents
  attempt-Holds g {contents} h =
      let r : Result Fault VaultData = (get_vault_data c env g.world).0 in
      let g' : Gate = record g { world = (get_vault_data c env g.world).1 } in
      subst (λ (w : World). Holds w contents) (sym (failed-world r g'))
        (get_vault_data-Holds c env g.world (failed-ok r g' h))

  open_contents-last :
      (g : Gate) {contents : VaultData}
      → (open_contents c env from_iso now g).0 ≡ ok contents
      → (g' : Gate) × (open_contents c env from_iso now g ≡ attempt (get_vault_data c env) g')
  unfolding open_contents
  open_contents-last g h =
      let (exists, g1, e1, k1) = bind_next (call (vault_exists env)) _ g h in
      let (_, g2, e2, k2) = bind_next (deny_when (not exists) vault_unconfigured) _ g1 k1 in
      let (is_locked, g3, e3, k3) = bind_next (call (vault_is_locked env)) _ g2 k2 in
      let (_, g4, e4, k4) = bind_next (open_if_locked c env from_iso now is_locked) _ g3 k3 in
      (g4, e1 ∙ e2 ∙ e3 ∙ e4)

  check_key-world :
      (token : Text) (contents : VaultData) (g : Gate)
      → (check_key c env from_iso now token contents g).1.world ≡ g.world
  unfolding check_key
  check_key-world token contents g = ground arith

  check_header-passed :
      (auth_header : Text) (g : Gate)
      → (check_header c env from_iso now auth_header g).0 ≡ ok tt
      → (starts_with auth_header (lit "Bearer ") ≡ true)
        × (is_valid_agent_token_format (drop 7 auth_header) ≡ true)
  unfolding check_header
  check_header-passed auth_header g h = ground arith

  open_contents-Holds :
      (g : Gate) {contents : VaultData}
      → (open_contents c env from_iso now g).0 ≡ ok contents
      → Holds (open_contents c env from_iso now g).1.world contents
  open_contents-Holds g {contents} h =
      let (g', e) = open_contents-last g h in rw e (attempt-Holds g' (rw e at h))

  authorize-IsAdmitted :
      (auth_header : Text) (g : Gate)
      → (authorize c env from_iso now auth_header g).0 ≡ ok tt
      → (contents : VaultData) × (starts_with auth_header (lit "Bearer ") ≡ true)
        × (is_valid_agent_token_format (drop 7 auth_header) ≡ true)
        × Holds (authorize c env from_iso now auth_header g).1.world contents
        × IsAdmitted (drop 7 auth_header) contents
  unfolding authorize
  authorize-IsAdmitted auth_header g h =
      let (_, h1, k1) = bind-eq-ok (check_header c env from_iso now auth_header) _ g h in
      let g1 : Gate = (check_header c env from_iso now auth_header g).1 in
      let (contents, h2, k2) = bind-eq-ok (open_contents c env from_iso now) _ g1 k1 in
      let g2 : Gate = (open_contents c env from_iso now g1).1 in
      let (bearer, form) = check_header-passed auth_header g h1 in
      (
        contents,
        bearer,
        form,
        rw
            (
              bind_state (check_header c env from_iso now auth_header) _ g h1,
              bind_state (open_contents c env from_iso now) _ g1 h2,
              check_key-world (drop 7 auth_header) contents g2,
            )
            (open_contents-Holds g1 h2),
        check_key-IsAdmitted (drop 7 auth_header) contents g2 k2,
      )

  -- A request to /mcp that is let through to the tools has a well-formed token behind "Bearer ";
  -- the vault is open then, agents are enabled in it, its key hash is not empty and accepts the
  -- token, and the key has not expired.
  pub dispatch-IsAdmitted :
      (request : Request) (g : Gate)
      → starts_with request.path (lit "/mcp") ≡ true
      → (dispatch c env from_iso now request g).0 ≡ ok tt
      → (contents : VaultData) × (starts_with request.authorization (lit "Bearer ") ≡ true)
        × (is_valid_agent_token_format (drop 7 request.authorization) ≡ true)
        × Holds (dispatch c env from_iso now request g).1.world contents
        × IsAdmitted (drop 7 request.authorization) contents
  unfolding dispatch
  dispatch-IsAdmitted request g here h =
      rw here (authorize-IsAdmitted request.authorization g (rw here at h))
