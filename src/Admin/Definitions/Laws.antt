-- ===== src/Admin/Definitions/Laws.antt =====
-- app/admin/routes.py: what a saved definition means to the tools of app/mcp/tools.py.
use pgsentinel_mcp.Mcp.Targets.Laws.{resolve_server-single}
use pgsentinel_mcp.Base.Result.{ok}
use pgsentinel_mcp.Mcp.Targets.{resolve_server}
use pgsentinel_mcp.Vault.Data.{VaultData, PostgresTargetDef, ServerDef, new_server}
use pgsentinel_mcp.Base.{Text, lit, equal, Option, some, ◌≡◌, arith, true, refl, ◌∷◌, [], false}
use pgsentinel_mcp.Admin.Definitions.{
  server_of_form, apply_access_level, access_level_of, DefinitionForm, apply_definition_form,
  head_or, target_of_form,
}

pub data IsLevel : Text → Type 0 where
  readonly : IsLevel (lit "readonly")
  sql : IsLevel (lit "sql")
  write : IsLevel (lit "write")

-- Each of the three access levels, applied to a vault and its database, is read back from them.
pub access_level_of-apply_access_level :
    (d : VaultData) (pg : PostgresTargetDef) {level : Text}
    → IsLevel level
    → access_level_of
        (apply_access_level d (some pg) level).0
        (apply_access_level d (some pg) level).1
      ≡ level
unfolding access_level_of apply_access_level equal lit
access_level_of-apply_access_level d pg readonly = refl
access_level_of-apply_access_level d pg sql = refl
access_level_of-apply_access_level d pg write = refl

module _ (f : DefinitionForm) (uuid pg_id code : Text) (d : VaultData) where
  -- The server that the form describes: the stored one, or a new one, with the form's fields.
  abbrev pub form_server : ServerDef
  form_server = server_of_form f code (head_or (new_server uuid code) d.servers)

  apply_definition_form-servers :
      (apply_definition_form f uuid pg_id code d).servers ≡ form_server ∷ []
  unfolding apply_definition_form apply_access_level
  apply_definition_form-servers = ground arith

  server_of_form-enabled : form_server.enabled ≡ true
  unfolding server_of_form
  server_of_form-enabled = refl

  -- In the contents that the form of a definition is applied to, _resolve_server gives the
  -- server of that form, whatever name it is asked for, and without one.
  pub resolve_server-apply_definition_form :
      (name : Option Text)
      → resolve_server (apply_definition_form f uuid pg_id code d) name ≡ ok form_server
  resolve_server-apply_definition_form name =
      resolve_server-single (apply_definition_form f uuid pg_id code d) name
        apply_definition_form-servers server_of_form-enabled

  -- The database of a definition at level readonly, and at level sql.
  pub readonly_target :
      f.postgres_enabled ≡ true
      → f.access_level ≡ lit "readonly"
      → (t : PostgresTargetDef) × ((apply_definition_form f uuid pg_id code d).postgres_targets
          ≡ t ∷ [])
        × (t.enabled ≡ true)
        × (t.sql_query_enabled ≡ false)
  unfolding apply_definition_form apply_access_level target_of_form lit equal
  readonly_target on level = rw (on, level) (_, refl, refl, refl)

  pub sql_target :
      f.postgres_enabled ≡ true
      → f.access_level ≡ lit "sql"
      → (t : PostgresTargetDef) × ((apply_definition_form f uuid pg_id code d).postgres_targets
          ≡ t ∷ [])
        × (t.enabled ≡ true)
        × ((apply_definition_form f uuid pg_id code d).settings.sql_policy_mode
            ≡ lit "readonly_default")
  unfolding apply_definition_form apply_access_level target_of_form lit equal
  sql_target on level = rw (on, level) (_, refl, refl, refl)
