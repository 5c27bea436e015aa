-- ===== src/Admin/Definitions.antt =====
-- app/admin/routes.py: the form of a definition, its server and its database.
pub mod Laws
use pgsentinel_mcp.Base.Int.{ℤ}
use pgsentinel_mcp.Base.{
  lit, Bool, Text, if◌then◌else◌, Option, ℕ, List, some, ◌++◌, keep, ◌∷◌, [], ◌==◌, true, is_empty,
  false, strip, eqb, not, none, map,
}
use pgsentinel_mcp.Vault.Data.{
  VaultData, ServerDef, PostgresTargetDef, new_server, new_postgres_target,
}

-- The fields of the form.
pub record DefinitionForm : Type 0 where
  pub docker_mode : Text
  pub host : Text
  pub ssh_port : ℤ
  pub ssh_username : Text
  pub ssh_private_key : Text
  pub container_list : Text
  pub postgres_enabled : Bool
  pub postgres_mode : Text
  pub pg_host : Text
  pub pg_port : ℤ
  pub pg_container : Text
  pub pg_database : Text
  pub pg_username : Text
  pub pg_password : Text
  pub pg_ssl_mode : Text
  pub pg_ca_cert : Text
  pub pg_client_cert : Text
  pub pg_client_key : Text
  pub access_level : Text

unfoldable pub access_level_of : VaultData → Option PostgresTargetDef → Text
access_level_of d none = lit "readonly"
access_level_of d (some pg) =
    if not pg.sql_query_enabled
    then lit "readonly"
    else if d.settings.sql_policy_mode == lit "guarded_write"
    then lit "write"
    else lit "sql"

abbrev set_query_enabled : Bool → Option PostgresTargetDef → Option PostgresTargetDef
set_query_enabled b none = none
set_query_enabled b (some pg) = some (record pg { sql_query_enabled = b })

abbrev set_mode : Text → VaultData → VaultData
set_mode mode d = record d { settings = record d.settings { sql_policy_mode = mode } }

abbrev allow_writes : VaultData → VaultData
allow_writes d = record d {
  settings = record d.settings {
    sql_policy_mode = lit "guarded_write";
    sql_allow_insert = true;
    sql_allow_update = true;
    sql_allow_delete = true;
  };
}

-- The settings, and the target that the caller holds.
unfoldable pub apply_access_level :
    VaultData → Option PostgresTargetDef → Text → VaultData × Option PostgresTargetDef
apply_access_level d pg level =
    if level == lit "write"
    then (allow_writes d, set_query_enabled true pg)
    else if level == lit "sql"
    then (set_mode (lit "readonly_default") d, set_query_enabled true pg)
    else (set_mode (lit "readonly_default") d, set_query_enabled false pg)

-- s.split(sep), of a separator of one character
abbrev split_cons : ℕ → List Text → List Text
split_cons c [] = (c ∷ []) ∷ []
split_cons c (t ∷ ts) = (c ∷ t) ∷ ts

unfoldable pub split : ℕ → Text → List Text
split sep [] = [] ∷ []
split sep (c ∷ s) = let rest = split sep s in if eqb c sep then [] ∷ rest else split_cons c rest

-- [c.strip() for c in s.split(sep) if c.strip()]
unfoldable pub stripped_parts : ℕ → Text → List Text
stripped_parts sep s = keep (λ t. not (is_empty t)) (map strip (split sep s))

abbrev pub head_or {ℓ} : {A : Type ℓ} → A → List A → A
head_or a [] = a
head_or a (x ∷ xs) = x

-- `if text.strip(): field = text.strip()`
abbrev strip_or : Text → Text → Text
strip_or new old = if is_empty (strip new) then old else strip new

module _ (f : DefinitionForm) where
  abbrev connect : ServerDef → ServerDef
  connect s =
      if f.docker_mode == lit "ssh"
      then record s {
        host = f.host;
        ssh_port = f.ssh_port;
        ssh_username = f.ssh_username;
        ssh_private_key = strip_or f.ssh_private_key s.ssh_private_key;
      }
      else record s { host = []; ssh_username = []; ssh_private_key = [] }

  unfoldable pub server_of_form : Text → ServerDef → ServerDef
  server_of_form code s = record (connect s) {
    name = code;
    environment = lit "production";
    connection_mode = f.docker_mode;
    allowed_containers = stripped_parts b',' f.container_list;
    allow_all_containers = is_empty (strip f.container_list);
    enabled = true;
  }

  unfoldable pub target_of_form : Text → Text → PostgresTargetDef → PostgresTargetDef
  target_of_form code server_id pg = record pg {
    name = code ++ lit "-pg";
    server_id = server_id;
    connection_mode = f.postgres_mode;
    host = f.pg_host;
    port = f.pg_port;
    container_name = f.pg_container;
    database_name = f.pg_database;
    readonly_username = f.pg_username;
    readonly_password = if is_empty f.pg_password then pg.readonly_password else f.pg_password;
    ssl_mode = if is_empty f.pg_ssl_mode then lit "prefer" else f.pg_ssl_mode;
    ca_cert = strip_or f.pg_ca_cert pg.ca_cert;
    client_cert = strip_or f.pg_client_cert pg.client_cert;
    client_key = strip_or f.pg_client_key pg.client_key;
    allow_all_tables = true;
    enabled = true;
  }

  abbrev targets_of : Option PostgresTargetDef → List PostgresTargetDef
  targets_of none = []
  targets_of (some pg) = pg ∷ []

  -- The list of targets holds the target that `apply_access_level` changes.
  abbrev with_targets : VaultData × Option PostgresTargetDef → VaultData
  with_targets (d, pg) = record d { postgres_targets = targets_of pg }

  abbrev form_target : Text → Text → Text → VaultData → Option PostgresTargetDef
  form_target pg_id code server_id d =
      if f.postgres_enabled
      then some (
          target_of_form code server_id
            (head_or (new_postgres_target pg_id (code ++ lit "-pg")) d.postgres_targets))
      else none

  -- `uuid` and `pg_id` are what `uuid.uuid4()` returns, where it is called.
  unfoldable pub apply_definition_form : Text → Text → Text → VaultData → VaultData
  apply_definition_form uuid pg_id code d =
      let server : ServerDef = server_of_form code (head_or (new_server uuid code) d.servers) in
      with_targets (
        apply_access_level (record d { servers = server ∷ [] }) (form_target pg_id code server.id d)
          f.access_level)
