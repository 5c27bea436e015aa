-- ===== src/Admin/Routes/Gate.antt =====
-- app/admin/routes.py: the routes that ask for a session, and whom they let in.
use pgsentinel_mcp.Vault.Store.{File, Fault, load_encrypted}
use pgsentinel_mcp.Base.Int.{ℤ}
use pgsentinel_mcp.Admin.Definitions.{DefinitionForm}
use pgsentinel_mcp.Admin.Settings.{SettingsForm}
use pgsentinel_mcp.Base.Result.{Result, ok, err}
use pgsentinel_mcp.Base.Exec.{Exec, ◌>>◌}
use pgsentinel_mcp.Admin.Access.{
  require_unlocked, Refusal, Response, unauthorized, crashed, refuse_unless,
}
use pgsentinel_mcp.Admin.Routes.{
  settings_update, definitions_create, definitions_update, definitions_archive, agent_rotate,
  agent_toggle, vaults_import,
}
use pgsentinel_mcp.Manager.State.{World, Session, get_session, get_vault, vault_is_unlocked}
use pgsentinel_mcp.Base.{
  Option, Text, none, some, [], ◌∷◌, ◌≡◌, Bool, true, false, refl, ◌⊎◌, inl, inr, arith,
  Option-cases,
}
use pgsentinel_mcp.Manager.Names.{Env}
use pgsentinel_mcp.Vault.Crypto.{Crypto}

-- The cookie names a session that is known, and the vault is open.
abbrev pub IsLetIn : Env → Option Text → World → Type 0
IsLetIn env cookie w =
    (id : Text) × (s : Session) × (cookie ≡ some id)
    × (get_session id w ≡ some s)
    × ((vault_is_unlocked env w).0 ≡ ok true)

-- An exception; of the world only the cached vault may be another one.
abbrev pub IsTurnedAway : {A : Type 0} → World → Result Refusal A × World → Type 0
IsTurnedAway w r = (e : Refusal) × (r.0 ≡ err e) × (r.1 ≡ record w { vault = r.1.vault })

vault_is_unlocked-leaves :
    (env : Env) (w : World)
    → (vault_is_unlocked env w).1 ≡ record w { vault = (vault_is_unlocked env w).1.vault }
unfolding vault_is_unlocked get_vault load_encrypted
vault_is_unlocked-leaves env w = ground arith

-- Behind a look at the vault, by what it tells.
look_cases :
    (env : Env) (id : Text) (s : Session) (w : World) (r : Result Fault Bool)
    → get_session id w ≡ some s
    → (vault_is_unlocked env w).0 ≡ r
    → IsLetIn env (some id) w
      ⊎ IsTurnedAway {A = Unit} w (refuse_unless r, (vault_is_unlocked env w).1)
look_cases env id s w (err f) known e = inr (crashed f, refl, vault_is_unlocked-leaves env w)
look_cases env id s w (ok false) known e = inr (unauthorized, refl, vault_is_unlocked-leaves env w)
look_cases env id s w (ok true) known e = inl (id, s, refl, known, e)

require_unlocked_cases :
    (env : Env) (cookie : Option Text) (w : World)
    → IsLetIn env cookie w ⊎ IsTurnedAway w (require_unlocked env cookie w)
unfolding require_unlocked
require_unlocked_cases env none w = inr (unauthorized, refl, refl)
require_unlocked_cases env (some []) w = inr (unauthorized, refl, refl)
require_unlocked_cases env (some (x ∷ s)) w = elim (Option-cases (get_session (x ∷ s) w)) [
  | inl unknown ↦ inr (rw unknown (unauthorized, refl, refl))
  | inr (session, known) ↦
      rw known (look_cases env (x ∷ s) session w (vault_is_unlocked env w).0 known refl)
]

module _ (c : Crypto) (env : Env) (cookie : Option Text) (w : World) where
  behind-IsTurnedAway :
      (m : Exec Refusal World Response)
      → IsTurnedAway w (require_unlocked env cookie w)
      → IsTurnedAway w ((require_unlocked env cookie >> m) w)
  behind-IsTurnedAway m (e, refused, leaves) = rw refused (e, refl, leaves)

  -- Either the cookie names a session that is known and the vault is open, or each of the routes
  -- that save settings, create, update, archive or import a definition, rotate the agent key or
  -- switch agents on and off ends in an exception, whatever is sent, and changes nothing of the
  -- world but which vault is cached.
  pub guarded_routes-IsTurnedAway :
      (settings : SettingsForm) (f : DefinitionForm) (uuid pg_id code stamp now name : Text)
      (in_days : ℤ → Text) (days : ℤ) (flag overwrite : Bool) (body : File)
      → IsLetIn env cookie w
        ⊎ (IsTurnedAway w (settings_update c env cookie settings w)
            × IsTurnedAway w (definitions_create c env cookie uuid pg_id code f w)
            × IsTurnedAway w (definitions_update c env cookie uuid pg_id code f w)
            × IsTurnedAway w (definitions_archive c env cookie stamp code w)
            × IsTurnedAway w (agent_rotate c env cookie now in_days days flag w)
            × IsTurnedAway w (agent_toggle c env cookie flag w)
            × IsTurnedAway w (vaults_import c env cookie name flag overwrite body w))
  unfolding settings_update definitions_create definitions_update definitions_archive agent_rotate
      agent_toggle vaults_import
  guarded_routes-IsTurnedAway settings f uuid pg_id code stamp now name in_days days flag overwrite
        body =
      elim (require_unlocked_cases env cookie w) [
        | inl let_in ↦ inl let_in
        | inr away ↦ inr (
          behind-IsTurnedAway _ away,
          behind-IsTurnedAway _ away,
          behind-IsTurnedAway _ away,
          behind-IsTurnedAway _ away,
          behind-IsTurnedAway _ away,
          behind-IsTurnedAway _ away,
          behind-IsTurnedAway _ away,
        )
      ]
