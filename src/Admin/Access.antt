-- ===== src/Admin/Access.antt =====
-- app/admin/routes.py: sessions, login and lock.
use pgsentinel_mcp.Security.{no_items}
use pgsentinel_mcp.Base.Dict.{insert}
use pgsentinel_mcp.Manager.{lock_vault, consume_pending_recovery_key, create_vault, unlock_vault}
use pgsentinel_mcp.Base.Exec.{Exec, ◌>>=◌, pure, ◌>>◌, gets}
use pgsentinel_mcp.Manager.State.{
  Session, Act, World, get_session, vault_exists, vault_is_unlocked, destroy_session,
  create_session, catch,
}
use pgsentinel_mcp.Vault.Store.{Fault, bad_file, bad_payload}
use pgsentinel_mcp.Base.Result.{Result, err, ok}
use pgsentinel_mcp.Vault.Crypto.{Crypto}
use pgsentinel_mcp.Manager.Names.{Env, insort, any_vault_files_exist, list_vaults}
use pgsentinel_mcp.Base.{
  none, lit, Option, Text, some, ℕ, Bool, List, if◌then◌else◌, ltb, true, ◌∷◌, length, map, [],
  keep, ◌||◌, false, not, ◌==◌, ◌&&◌,
}
pub mod Laws

-- What a route raises: `UnauthorizedRedirect`, an answer 404, or an exception of the manager.
pub data Refusal : Type 0 where
  unauthorized not_found : Refusal
  crashed : Fault → Refusal

abbrev pub refuse_unless : Result Fault Bool → Result Refusal Unit
refuse_unless (err f) = err (crashed f)
refuse_unless (ok true) = ok tt
refuse_unless (ok false) = err unauthorized

-- The vault is looked at only where the session is known.
abbrev require_session : Env → Option Session → Exec Refusal World Unit
require_session env none w = (err unauthorized, w)
require_session env (some s) w =
    (refuse_unless (vault_is_unlocked env w).0, (vault_is_unlocked env w).1)

-- `_require_unlocked`, of the session cookie
unfoldable pub require_unlocked : Env → Option Text → Exec Refusal World Unit
require_unlocked env none w = (err unauthorized, w)
require_unlocked env (some []) w = (err unauthorized, w)
require_unlocked env (some (x ∷ s)) w = require_session env (get_session (x ∷ s) w) w

-- `_existing_vault_names`
unfoldable pub existing_vault_names : Env → World → List Text
existing_vault_names env w =
    map (λ item. item.name) (keep (λ item. item.exists) (list_vaults env w.host.disk))

-- An answer: the page or where it leads, the cookie that it sets, and the event that is audited.
pub data Page : Type 0 where
  form : Text → ℕ → Page
  redirect : Text → Page

pub record Response : Type 0 where
  pub page : Page
  pub cookie : Option Text
  pub event : Option Text

abbrev pub plain : Page → Response
plain page = record { page = page; cookie = none; event = none }

abbrev pub redirect_login : Response
redirect_login = plain (redirect (lit "/admin/login"))

abbrev pub if_given : Option Text → (Text → Act Unit) → Act Unit
if_given none m = pure tt
if_given (some []) m = pure tt
if_given (some (x ∷ s)) m = m (x ∷ s)

-- The keys that a new session shows once.
abbrev pub show_keys : Text → Option Text → Option Text → Act Unit
show_keys session_id agent_key recovery_key w = elim (get_session session_id w) [
  | none ↦ (ok tt, w)
  | some s ↦ (
    ok tt,
    record w {
      sessions =
          insert session_id
            (record s { show_agent_key = agent_key; show_recovery_key = recovery_key }) w.sessions;
    },
  )
]

module _ (c : Crypto) (env : Env) where
  abbrev pub welcome : Text → Text → Text → Response
  welcome where_to session_id event = record {
    page = redirect where_to;
    cookie = some session_id;
    event = some event;
  }

  abbrev pub open_panel : Act Response
  open_panel = do
    session_id ← create_session c
    pure (welcome (lit "/admin/dashboard") session_id (lit "vault_unlock_success"))

  abbrev wrong_login : Response
  wrong_login = record {
    page = form (lit "login.html.j2") 401;
    cookie = none;
    event = some (lit "vault_unlock_failed");
  }

  abbrev logged_in : Bool → Act Response
  logged_in true = open_panel
  logged_in false = pure wrong_login

  unfoldable pub try_login : Text → Act Response
  try_login master_password = do
    opened ← catch (do unlock_vault c env master_password; pure true) (pure false)
    logged_in opened

  unfoldable pub login_submit : Text → Act Response
  login_submit master_password = do
    exists ← vault_exists env
    names ← gets (existing_vault_names env)
    (if not exists && no_items names
        then pure (plain (redirect (lit "/admin/setup")))
        else try_login master_password)

  unfoldable logout : Option Text → Act Response
  logout cookie = do if_given cookie destroy_session; pure redirect_login

  unfoldable pub lock : Option Text → Act Response
  lock cookie = do
    if_given cookie destroy_session
    lock_vault c env
    pure (record redirect_login { event = some (lit "vault_lock") })

  abbrev setup_errors : Text → Text → Bool
  setup_errors master_password confirm_password =
      ltb (length master_password) 8 || not (master_password == confirm_password)

  -- Whether `create_vault` raised, and what.
  abbrev show_new : Text → Act Response
  show_new agent_key = do
    session_id ← create_session c
    recovery_key ← consume_pending_recovery_key c env
    show_keys session_id (some agent_key) (some recovery_key)
    pure (welcome (lit "/admin/agent") session_id (lit "first_run_setup_completed"))

  -- A `VaultError` answers with 400, any other exception with 500.
  abbrev setup_failed : Fault → Response
  setup_failed bad_file = plain (form (lit "setup.html.j2") 500)
  setup_failed bad_payload = plain (form (lit "setup.html.j2") 500)
  setup_failed _ = plain (form (lit "setup.html.j2") 400)

  abbrev set_up : Result Fault Text → Act Response
  set_up (ok agent_key) = show_new agent_key
  set_up (err f) = pure (setup_failed f)

  unfoldable setup_submit : Text → Text → Act Response
  setup_submit master_password confirm_password w =
      if any_vault_files_exist env w.host.disk || not (no_items (existing_vault_names env w))
      then (ok redirect_login, w)
      else if setup_errors master_password confirm_password
      then (ok (plain (form (lit "setup.html.j2") 400)), w)
      else set_up (create_vault c env master_password true none w).0
          (create_vault c env master_password true none w).1
