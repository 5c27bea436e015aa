-- ===== src/Admin/Access/Laws.antt =====
-- app/admin/routes.py: who is let into the panel.
use pgsentinel_mcp.Security.{no_items}
use pgsentinel_mcp.Base.Exec.{bind_next}
use pgsentinel_mcp.Manager.Opening.{IsCurrent, get_vault-current, unlock_vault-IsCurrent}
use pgsentinel_mcp.Vault.Store.{Fault, Vault, is_unlocked}
use pgsentinel_mcp.Base.Dict.{lookup, lookup-insert_self}
use pgsentinel_mcp.Admin.Access.{lock, try_login, open_panel, login_submit, existing_vault_names}
use pgsentinel_mcp.Base.Result.{ok, err, Result-cases}
use pgsentinel_mcp.Manager.{lock_vault, unlock_vault}
use pgsentinel_mcp.Base.{
  Option, Text, ◌≡◌, [], arith, some, ◌∷◌, true, none, Option-cases, refl, inl, inr, ℕ, ◌≢◌,
  Bool-cases, not, ◌&&◌,
}
use pgsentinel_mcp.Manager.Names.{Env}
use pgsentinel_mcp.Manager.State.{
  get_session, clear_all_sessions, World, stop_auto_lock_timer, destroy_session, Session,
  vault_is_unlocked, create_session, vault_exists,
}
use pgsentinel_mcp.Vault.Crypto.{Crypto}
use pgsentinel_mcp.Admin.Access.{require_unlocked, Response, unauthorized}

-- Whoever is let into the panel sent a cookie with the name of a known session, and the vault is
-- unlocked.
pub require_unlocked-session :
    (env : Env) (cookie : Option Text) (w : World)
    → (require_unlocked env cookie w).0 ≡ ok tt
    → (id : Text) × (s : Session) × (cookie ≡ some id)
      × (get_session id w ≡ some s)
      × ((vault_is_unlocked env w).0 ≡ ok true)
unfolding require_unlocked
require_unlocked-session env none w h = absurd (ground arith)
require_unlocked-session env (some []) w h = absurd (ground arith)
require_unlocked-session env (some (x ∷ s)) w h = elim (Option-cases (get_session (x ∷ s) w)) [
  | inl e ↦ absurd (ground (arith, e))
  | inr (t, e) ↦ (x ∷ s, t, refl, e, ground (arith, e))
]

no_session_refused :
    (env : Env) (cookie : Option Text) (w : World)
    → w.sessions ≡ []
    → require_unlocked env cookie w ≡ (err unauthorized, w)
unfolding require_unlocked get_session lookup
no_session_refused env none w nobody = refl
no_session_refused env (some []) w nobody = refl
no_session_refused env (some (x ∷ s)) w nobody = rw nobody refl

module _ (c : Crypto) (env : Env) where
  lock-sessions :
      (cookie : Option Text) (w : World) {r : Response}
      → (lock c env cookie w).0 ≡ ok r
      → (lock c env cookie w).1.sessions ≡ []
  unfolding lock lock_vault clear_all_sessions stop_auto_lock_timer destroy_session
  lock-sessions cookie w h = ground arith

  -- After the panel has been locked without an exception, every cookie is refused.
  pub require_unlocked-lock :
      (cookie any : Option Text) (w : World) {r : Response}
      → (lock c env cookie w).0 ≡ ok r
      → require_unlocked env any (lock c env cookie w).1
        ≡ (err unauthorized, (lock c env cookie w).1)
  require_unlocked-lock cookie any w h =
      no_session_refused env any (lock c env cookie w).1 (lock-sessions cookie w h)

  session_opens :
      (id : Text) (s : Session) (w : World) (v : Vault)
      → id ≢ []
      → get_session id w ≡ some s
      → IsCurrent env w v
      → is_unlocked v ≡ true
      → require_unlocked env (some id) w ≡ (ok tt, w)
  unfolding require_unlocked vault_is_unlocked
  session_opens [] s w v named found k open_now = absurd (named refl)
  session_opens (x ∷ n) s w v named found k open_now =
      ground (arith, found, get_vault-current env w v k)

  panel_opens :
      (w : World) (v : Vault)
      → c.random 48 w.host.draws ≢ []
      → IsCurrent env w v
      → is_unlocked v ≡ true
      → require_unlocked env (some (c.random 48 w.host.draws)) (create_session c w).1
        ≡ (ok tt, (create_session c w).1)
  unfolding create_session get_session
  panel_opens w v named k open_now =
      session_opens (c.random 48 w.host.draws) _ (create_session c w).1 v named
        (lookup-insert_self (c.random 48 w.host.draws) _ w.sessions)
        (record { held = k.held; placed = k.placed }) open_now

  try_login_opened :
      (password : Text) (w : World)
      → (unlock_vault c env password w).0 ≡ ok tt
      → try_login c env password w ≡ open_panel c env (unlock_vault c env password w).1
  unfolding try_login
  try_login_opened password w h = ground (arith, h)

  try_login_failed :
      (password : Text) (w : World) {f : Fault} {r : Response}
      → (unlock_vault c env password w).0 ≡ err f
      → (try_login c env password w).0 ≡ ok r
      → r.cookie ≡ none
  unfolding try_login
  try_login_failed password w h k = ground (arith, h)

  open_panel-cookie :
      (w : World) {r : Response} {id : Text}
      → (open_panel c env w).0 ≡ ok r
      → r.cookie ≡ some id
      → id ≡ c.random 48 w.host.draws
  unfolding create_session
  open_panel-cookie w h e = ground arith

  open_panel-world : (w : World) → (open_panel c env w).1 ≡ (create_session c w).1
  unfolding create_session
  open_panel-world w = refl

  try_login-lets_in :
      (password : Text) (w : World) {r : Response} {id : Text}
      → ((n : ℕ) → c.random 48 n ≢ [])
      → (try_login c env password w).0 ≡ ok r
      → r.cookie ≡ some id
      → require_unlocked env (some id) (try_login c env password w).1
        ≡ (ok tt, (try_login c env password w).1)
  try_login-lets_in password w named h e = elim (Result-cases (unlock_vault c env password w).0) [
    | inr (f, bad) ↦ absurd (ground (arith, try_login_failed password w bad h))
    | inl (_, good) ↦
        let w' : World = (unlock_vault c env password w).1 in
        let (v, k, open_now) = unlock_vault-IsCurrent c env password w good in
        let same = try_login_opened password w good in
        rw (same, open_panel-cookie w' (rw same at h) e, open_panel-world w')
          (panel_opens w' v (named w'.host.draws) k open_now)
  ]

  -- Where the names of new sessions are not empty: a login that sets a cookie leaves the panel
  -- open to that cookie, since its session is known and the vault is unlocked.
  pub login_submit-lets_in :
      (password : Text) (w : World) {r : Response} {id : Text}
      → ((n : ℕ) → c.random 48 n ≢ [])
      → (login_submit c env password w).0 ≡ ok r
      → r.cookie ≡ some id
      → require_unlocked env (some id) (login_submit c env password w).1
        ≡ (ok tt, (login_submit c env password w).1)
  unfolding login_submit
  login_submit-lets_in password w named h e =
      let (exists, w1, e1, k1) = bind_next (vault_exists env) _ w h in
      elim (Bool-cases (not exists && no_items (existing_vault_names env w1))) [
        | inl fresh ↦ absurd (ground (arith, k1, fresh))
        | inr known ↦ rw (e1, known) (try_login-lets_in password w1 named (rw known at k1) e)
      ]
