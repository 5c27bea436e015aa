-- ===== src/Vault/Data.antt =====
-- app/core/vault.py: the definitions that a vault holds, their defaults and their look-up.
use pgsentinel_mcp.Base.{
  Text, Bool, true, false, Option, none, some, List, [], ◌∷◌, lit, ◌==◌, keep, find, is_empty,
  if◌then◌else◌,
}
use pgsentinel_mcp.Base.Int.{ℤ, pos, leb_ℤ}

pub record ServerDef : Type 0 where
  pub id : Text
  pub name : Text
  pub environment : Text
  pub connection_mode : Text
  pub host : Text
  pub ssh_port : ℤ
  pub ssh_username : Text
  pub ssh_private_key : Text
  pub ssh_private_key_passphrase : Text
  pub allowed_containers : List Text
  pub allowed_log_sources : List Text
  pub allow_all_containers : Bool
  pub enabled : Bool
  pub notes : Text

-- ServerDef(id=id, name=name)
abbrev pub new_server : Text → Text → ServerDef
new_server id name = record {
  id = id;
  name = name;
  environment = lit "staging";
  connection_mode = lit "ssh";
  host = [];
  ssh_port = pos 22;
  ssh_username = [];
  ssh_private_key = [];
  ssh_private_key_passphrase = [];
  allowed_containers = [];
  allowed_log_sources = [];
  allow_all_containers = false;
  enabled = true;
  notes = [];
}

pub record PostgresTargetDef : Type 0 where
  pub id : Text
  pub name : Text
  pub server_id : Text
  pub connection_mode : Text
  pub host : Text
  pub port : ℤ
  pub container_name : Text
  pub database_name : Text
  pub readonly_username : Text
  pub readonly_password : Text
  pub ssl_mode : Text
  pub ca_cert : Text
  pub client_cert : Text
  pub client_key : Text
  pub allowed_schemas : List Text
  pub allowed_tables : List Text
  pub allow_all_tables : Bool
  pub sql_query_enabled : Bool
  pub sensitive_columns : List Text
  pub max_rows : ℤ
  pub enabled : Bool
  pub notes : Text

abbrev pub default_sensitive_columns : List Text
default_sensitive_columns =
    lit "password"
    ∷ lit "password_hash"
    ∷ lit "token"
    ∷ lit "secret"
    ∷ lit "api_key"
    ∷ lit "private_key"
    ∷ lit "access_token"
    ∷ lit "refresh_token"
    ∷ []

-- PostgresTargetDef(id=id, name=name)
abbrev pub new_postgres_target : Text → Text → PostgresTargetDef
new_postgres_target id name = record {
  id = id;
  name = name;
  server_id = [];
  connection_mode = lit "docker_exec_psql_over_ssh";
  host = [];
  port = pos 5432;
  container_name = [];
  database_name = [];
  readonly_username = [];
  readonly_password = [];
  ssl_mode = lit "prefer";
  ca_cert = [];
  client_cert = [];
  client_key = [];
  allowed_schemas = lit "public" ∷ [];
  allowed_tables = [];
  allow_all_tables = false;
  sql_query_enabled = false;
  sensitive_columns = default_sensitive_columns;
  max_rows = pos 100;
  enabled = true;
  notes = [];
}

pub record MonitoringTargetDef : Type 0 where
  pub id : Text
  pub name : Text
  pub environment : Text
  pub connection_mode : Text
  pub base_url : Text
  pub api_token : Text
  pub tls_verify : Bool
  pub ca_cert : Text
  pub allowed_operations : List Text
  pub enabled : Bool
  pub notes : Text

pub record AgentConfig : Type 0 where
  pub enabled : Bool
  pub key_hash : Text
  pub last_rotated : Text
  pub expires_at : Text

abbrev default_agent : AgentConfig
default_agent = record { enabled = false; key_hash = []; last_rotated = []; expires_at = [] }

pub record SecuritySettings : Type 0 where
  pub auto_lock_minutes : ℤ
  pub max_log_lines : ℤ
  pub max_query_rows : ℤ
  pub command_timeout_seconds : ℤ
  pub sql_policy_mode : Text
  pub sql_allow_insert : Bool
  pub sql_allow_update : Bool
  pub sql_allow_delete : Bool
  pub sql_allow_create : Bool
  pub sql_allow_alter : Bool
  pub sql_allow_drop : Bool
  pub sql_allow_truncate : Bool
  pub sql_allow_maintenance : Bool
  pub sql_allow_privilege : Bool
  pub sql_allow_transaction : Bool
  pub sql_hard_max_query_rows : ℤ

abbrev pub default_settings : SecuritySettings
default_settings = record {
  auto_lock_minutes = pos 30;
  max_log_lines = pos 300;
  max_query_rows = pos 100;
  command_timeout_seconds = pos 20;
  sql_policy_mode = lit "readonly_default";
  sql_allow_insert = false;
  sql_allow_update = false;
  sql_allow_delete = false;
  sql_allow_create = false;
  sql_allow_alter = false;
  sql_allow_drop = false;
  sql_allow_truncate = false;
  sql_allow_maintenance = false;
  sql_allow_privilege = false;
  sql_allow_transaction = false;
  sql_hard_max_query_rows = pos 1000;
}

pub record VaultData : Type 0 where
  pub version : ℤ
  pub servers : List ServerDef
  pub postgres_targets : List PostgresTargetDef
  pub monitoring_targets : List MonitoringTargetDef
  pub agent : AgentConfig
  pub settings : SecuritySettings
  pub masking_patterns : List Text

abbrev default_masking_patterns : List Text
default_masking_patterns =
    lit "password="
    ∷ lit "PASSWORD="
    ∷ lit "token="
    ∷ lit "TOKEN="
    ∷ lit "Authorization:"
    ∷ lit "Bearer "
    ∷ lit "DB_PASSWORD="
    ∷ lit "APP_KEY="
    ∷ lit "SECRET="
    ∷ lit "PRIVATE_KEY"
    ∷ lit "AWS_SECRET_ACCESS_KEY="
    ∷ lit "DATABASE_URL="
    ∷ lit "SECRET_KEY="
    ∷ lit "BEGIN OPENSSH PRIVATE KEY"
    ∷ lit "BEGIN RSA PRIVATE KEY"
    ∷ []

-- VaultData()
abbrev pub new_vault_data : VaultData
new_vault_data = record {
  version = pos 1;
  servers = [];
  postgres_targets = [];
  monitoring_targets = [];
  agent = default_agent;
  settings = default_settings;
  masking_patterns = default_masking_patterns;
}

-- The only element of a list that has one.
abbrev pub only {ℓ} : {A : Type ℓ} → List A → Option A
only (x ∷ []) = some x
only _ = none

unfoldable pub get_default_server : VaultData → Option ServerDef
get_default_server d = only (keep (λ s. s.enabled) d.servers)

unfoldable pub get_default_postgres_target : VaultData → Option PostgresTargetDef
get_default_postgres_target d = only (keep (λ p. p.enabled) d.postgres_targets)

unfoldable pub get_server : VaultData → Text → Option ServerDef
get_server d server_id = find (λ s. s.id == server_id) d.servers

unfoldable pub get_postgres_target : VaultData → Text → Option PostgresTargetDef
get_postgres_target d target_id = find (λ p. p.id == target_id) d.postgres_targets

unfoldable get_monitoring_target : VaultData → Text → Option MonitoringTargetDef
get_monitoring_target d target_id = find (λ m. m.id == target_id) d.monitoring_targets

-- `from_iso` stands for `datetime.fromisoformat` of the text with "Z" replaced, as a point in
-- time: `none` where it raises. A key whose expiry cannot be read has expired.
unfoldable pub is_agent_key_expired : (Text → Option ℤ) → ℤ → VaultData → Bool
is_agent_key_expired from_iso now d =
    if is_empty d.agent.expires_at
    then false
    else elim (from_iso d.agent.expires_at) [ none ↦ true | some expires ↦ leb_ℤ expires now ]
