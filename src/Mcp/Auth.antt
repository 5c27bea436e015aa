-- ===== src/Mcp/Auth.antt =====
-- app/mcp/auth.py: `MCPAuthMiddleware.dispatch`.
pub mod Laws
mod Tests
use pgsentinel_mcp.Base.{
  ℕ, suc, zero, Text, Bool, true, false, not, Option, none, some, List, [], ◌∷◌, lit, starts_with,
  is_empty, if◌then◌else◌,
}
use pgsentinel_mcp.Base.Int.{ℤ}
use pgsentinel_mcp.Base.Result.{Result, ok, err}
use pgsentinel_mcp.Base.Exec.{Exec, pure, raise, modify, raise_when, continue, ◌>>=◌, ◌>>◌}
use pgsentinel_mcp.Vault.Data.{VaultData, is_agent_key_expired}
use pgsentinel_mcp.Vault.Crypto.{Crypto}
use pgsentinel_mcp.Vault.Store.{Fault, is_valid_agent_token_format, verify_agent_token}
use pgsentinel_mcp.Manager.Names.{Env}
use pgsentinel_mcp.Manager.State.{World, Act, vault_exists, vault_is_locked}
use pgsentinel_mcp.Manager.{try_auto_unlock, get_vault_data}

-- Why a request is turned away. `crashed` is an exception that the middleware lets through.
pub data Denial : Type 0 where
  missing_bearer invalid_format vault_unconfigured vault_locked vault_error : Denial
  agent_disabled no_key_configured invalid_key key_expired : Denial
  crashed : Fault → Denial

pub data AuditEvent : Type 0 where
  auth_failed : Denial → AuditEvent
  auto_unlock_success auto_unlock_failed auth_success : AuditEvent

-- The status code of a response.
unfoldable status : Denial → ℕ
status missing_bearer = 401
status invalid_format = 401
status vault_unconfigured = 503
status vault_locked = 503
status vault_error = 503
status agent_disabled = 403
status no_key_configured = 403
status invalid_key = 401
status key_expired = 401
status (crashed f) = 500

-- The manager's state, and the events of the audit log, the newest first.
pub record Gate : Type 0 where
  pub world : World
  pub events : List AuditEvent

abbrev Check : Type 0 → Type 0
Check = Exec Denial Gate

pub record Request : Type 0 where
  pub path : Text
  pub authorization : Text

abbrev pub audit : AuditEvent → Check Unit
audit e = modify (λ g. record g { events = e ∷ g.events })

-- if test: audit, and answer with an error
abbrev pub deny_when : Bool → Denial → Check Unit
deny_when true d g = (err d, record g { events = auth_failed d ∷ g.events })
deny_when false d g = (ok tt, g)

-- auth_header[7:]
abbrev pub drop : ℕ → Text → Text
drop zero s = s
drop (suc n) [] = []
drop (suc n) (c ∷ s) = drop n s

module _ {A : Type 0} where
  abbrev crash : Result Fault A → Result Denial A
  crash (ok a) = ok a
  crash (err f) = err (crashed f)

  -- A call of the manager whose exceptions are let through.
  abbrev call : Act A → Check A
  call m g = (crash (m g.world).0, record g { world = (m g.world).1 })

  abbrev failed : Result Fault A → Check A
  failed (ok a) g = pure a g
  failed (err f) g = (err vault_error, record g { events = auth_failed vault_error ∷ g.events })

  -- A call whose exceptions are caught.
  abbrev attempt : Act A → Check A
  attempt m g = failed (m g.world).0 (record g { world = (m g.world).1 })

module _ (c : Crypto) (env : Env) (from_iso : Text → Option ℤ) (now : ℤ) where
  abbrev unlocked_or_denied : Bool → Check Unit
  unlocked_or_denied true g = audit auto_unlock_success g
  unlocked_or_denied false g =
      (err vault_locked, record g { events = auto_unlock_failed ∷ g.events })

  abbrev open_if_locked : Bool → Check Unit
  open_if_locked false = pure tt
  open_if_locked true = do opened ← call (try_auto_unlock c env); unlocked_or_denied opened

  -- The checks on the agent's key, against the contents of the vault.
  unfoldable pub check_key : Text → VaultData → Check Unit
  check_key token contents = do
    deny_when (not contents.agent.enabled) agent_disabled
    deny_when (is_empty contents.agent.key_hash) no_key_configured
    deny_when (not (verify_agent_token c token contents.agent.key_hash)) invalid_key
    deny_when (is_agent_key_expired from_iso now contents) key_expired
    audit auth_success

  unfoldable pub check_header : Text → Check Unit
  check_header auth_header = do
    deny_when (not (starts_with auth_header (lit "Bearer "))) missing_bearer
    deny_when (not (is_valid_agent_token_format (drop 7 auth_header))) invalid_format

  unfoldable pub open_contents : Check VaultData
  open_contents = do
    exists ← call (vault_exists env)
    deny_when (not exists) vault_unconfigured
    is_locked ← call (vault_is_locked env)
    open_if_locked is_locked
    attempt (get_vault_data c env)

  unfoldable pub authorize : Text → Check Unit
  authorize auth_header = do
    check_header auth_header
    contents ← open_contents
    check_key (drop 7 auth_header) contents

  -- `ok` goes on to the application.
  unfoldable pub dispatch : Request → Check Unit
  dispatch request =
      if not (starts_with request.path (lit "/mcp"))
      then pure tt
      else authorize request.authorization
