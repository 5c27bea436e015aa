-- ===== src/Vault/Codec/Targets.antt =====
-- app/core/vault.py: the dicts of servers and of PostgreSQL and monitoring targets. A keyword that
-- the dataclass lacks raises, and a value of another type than the annotation is refused, too.
use pgsentinel_mcp.Base.{
  Text, true, false, not, Option, none, some, List, [], ◌∷◌, lit, if◌then◌else◌,
}
use pgsentinel_mcp.Base.Int.{pos}
use pgsentinel_mcp.Base.Json.{Json, bool, num, str, arr, obj, end, field, keys_among, texts}
use pgsentinel_mcp.Vault.Data.{
  ServerDef, PostgresTargetDef, MonitoringTargetDef, default_sensitive_columns,
}
use pgsentinel_mcp.Vault.Codec.Read.{◌>>=◌, text_at, required_text, int_at, bool_at, texts_at}

-- asdict of a `ServerDef`
unfoldable pub server_to_dict : ServerDef → Json
server_to_dict s = obj (
    field (lit "id") (str s.id) (
      field (lit "name") (str s.name) (
        field (lit "environment") (str s.environment) (
          field (lit "connection_mode") (str s.connection_mode) (
            field (lit "host") (str s.host) (
              field (lit "ssh_port") (num s.ssh_port) (
                field (lit "ssh_username") (str s.ssh_username) (
                  field (lit "ssh_private_key") (str s.ssh_private_key) (
                    field (lit "ssh_private_key_passphrase") (str s.ssh_private_key_passphrase) (
                      field (lit "allowed_containers") (arr (texts s.allowed_containers)) (
                        field (lit "allowed_log_sources") (arr (texts s.allowed_log_sources)) (
                          field (lit "allow_all_containers") (bool s.allow_all_containers) (
                            field (lit "enabled") (bool s.enabled)
                              (field (lit "notes") (str s.notes) end))))))))))))))

abbrev server_names : List Text
server_names =
    lit "id"
    ∷ lit "name"
    ∷ lit "environment"
    ∷ lit "connection_mode"
    ∷ lit "host"
    ∷ lit "ssh_port"
    ∷ lit "ssh_username"
    ∷ lit "ssh_private_key"
    ∷ lit "ssh_private_key_passphrase"
    ∷ lit "allowed_containers"
    ∷ lit "allowed_log_sources"
    ∷ lit "allow_all_containers"
    ∷ lit "enabled"
    ∷ lit "notes"
    ∷ []

-- ServerDef(**s)
unfoldable pub server_from_dict : Json → Option ServerDef
server_from_dict (obj fs) = if not (keys_among server_names fs) then none else do
  id ← required_text (lit "id") fs
  name ← required_text (lit "name") fs
  environment ← text_at (lit "environment") (lit "staging") fs
  connection_mode ← text_at (lit "connection_mode") (lit "ssh") fs
  host ← text_at (lit "host") [] fs
  ssh_port ← int_at (lit "ssh_port") (pos 22) fs
  ssh_username ← text_at (lit "ssh_username") [] fs
  ssh_private_key ← text_at (lit "ssh_private_key") [] fs
  ssh_private_key_passphrase ← text_at (lit "ssh_private_key_passphrase") [] fs
  allowed_containers ← texts_at (lit "allowed_containers") [] fs
  allowed_log_sources ← texts_at (lit "allowed_log_sources") [] fs
  allow_all_containers ← bool_at (lit "allow_all_containers") false fs
  enabled ← bool_at (lit "enabled") true fs
  notes ← text_at (lit "notes") [] fs
  some (record {
    id = id;
    name = name;
    environment = environment;
    connection_mode = connection_mode;
    host = host;
    ssh_port = ssh_port;
    ssh_username = ssh_username;
    ssh_private_key = ssh_private_key;
    ssh_private_key_passphrase = ssh_private_key_passphrase;
    allowed_containers = allowed_containers;
    allowed_log_sources = allowed_log_sources;
    allow_all_containers = allow_all_containers;
    enabled = enabled;
    notes = notes;
  })
server_from_dict _ = none

-- asdict of a `PostgresTargetDef`
unfoldable pub postgres_target_to_dict : PostgresTargetDef → Json
postgres_target_to_dict s = obj (
    field (lit "id") (str s.id) (
      field (lit "name") (str s.name) (
        field (lit "server_id") (str s.server_id) (
          field (lit "connection_mode") (str s.connection_mode) (
            field (lit "host") (str s.host) (
              field (lit "port") (num s.port) (
                field (lit "container_name") (str s.container_name) (
                  field (lit "database_name") (str s.database_name) (
                    field (lit "readonly_username") (str s.readonly_username) (
                      field (lit "readonly_password") (str s.readonly_password) (
                        field (lit "ssl_mode") (str s.ssl_mode) (
                          field (lit "ca_cert") (str s.ca_cert) (
                            field (lit "client_cert") (str s.client_cert) (
                              field (lit "client_key") (str s.client_key) (
                                field (lit "allowed_schemas") (arr (texts s.allowed_schemas)) (
                                  field (lit "allowed_tables") (arr (texts s.allowed_tables)) (
                                    field (lit "allow_all_tables") (bool s.allow_all_tables) (
                                      field (lit "sql_query_enabled") (bool s.sql_query_enabled) (
                                        field (lit "sensitive_columns")
                                          (arr (texts s.sensitive_columns))
                                          (field (lit "max_rows") (num s.max_rows) (
                                            field (lit "enabled") (bool s.enabled) (
                                              field (lit "notes") (str s.notes)
                                                end))))))))))))))))))))))

abbrev postgres_target_names : List Text
postgres_target_names =
    lit "id"
    ∷ lit "name"
    ∷ lit "server_id"
    ∷ lit "connection_mode"
    ∷ lit "host"
    ∷ lit "port"
    ∷ lit "container_name"
    ∷ lit "database_name"
    ∷ lit "readonly_username"
    ∷ lit "readonly_password"
    ∷ lit "ssl_mode"
    ∷ lit "ca_cert"
    ∷ lit "client_cert"
    ∷ lit "client_key"
    ∷ lit "allowed_schemas"
    ∷ lit "allowed_tables"
    ∷ lit "allow_all_tables"
    ∷ lit "sql_query_enabled"
    ∷ lit "sensitive_columns"
    ∷ lit "max_rows"
    ∷ lit "enabled"
    ∷ lit "notes"
    ∷ []

-- PostgresTargetDef(**s)
unfoldable pub postgres_target_from_dict : Json → Option PostgresTargetDef
postgres_target_from_dict (obj fs) = if not (keys_among postgres_target_names fs) then none else do
  id ← required_text (lit "id") fs
  name ← required_text (lit "name") fs
  server_id ← text_at (lit "server_id") [] fs
  connection_mode ← text_at (lit "connection_mode") (lit "docker_exec_psql_over_ssh") fs
  host ← text_at (lit "host") [] fs
  port ← int_at (lit "port") (pos 5432) fs
  container_name ← text_at (lit "container_name") [] fs
  database_name ← text_at (lit "database_name") [] fs
  readonly_username ← text_at (lit "readonly_username") [] fs
  readonly_password ← text_at (lit "readonly_password") [] fs
  ssl_mode ← text_at (lit "ssl_mode") (lit "prefer") fs
  ca_cert ← text_at (lit "ca_cert") [] fs
  client_cert ← text_at (lit "client_cert") [] fs
  client_key ← text_at (lit "client_key") [] fs
  allowed_schemas ← texts_at (lit "allowed_schemas") (lit "public" ∷ []) fs
  allowed_tables ← texts_at (lit "allowed_tables") [] fs
  allow_all_tables ← bool_at (lit "allow_all_tables") false fs
  sql_query_enabled ← bool_at (lit "sql_query_enabled") false fs
  sensitive_columns ← texts_at (lit "sensitive_columns") default_sensitive_columns fs
  max_rows ← int_at (lit "max_rows") (pos 100) fs
  enabled ← bool_at (lit "enabled") true fs
  notes ← text_at (lit "notes") [] fs
  some (record {
    id = id;
    name = name;
    server_id = server_id;
    connection_mode = connection_mode;
    host = host;
    port = port;
    container_name = container_name;
    database_name = database_name;
    readonly_username = readonly_username;
    readonly_password = readonly_password;
    ssl_mode = ssl_mode;
    ca_cert = ca_cert;
    client_cert = client_cert;
    client_key = client_key;
    allowed_schemas = allowed_schemas;
    allowed_tables = allowed_tables;
    allow_all_tables = allow_all_tables;
    sql_query_enabled = sql_query_enabled;
    sensitive_columns = sensitive_columns;
    max_rows = max_rows;
    enabled = enabled;
    notes = notes;
  })
postgres_target_from_dict _ = none

-- asdict of a `MonitoringTargetDef`
unfoldable pub monitoring_target_to_dict : MonitoringTargetDef → Json
monitoring_target_to_dict s = obj (
    field (lit "id") (str s.id) (
      field (lit "name") (str s.name) (
        field (lit "environment") (str s.environment) (
          field (lit "connection_mode") (str s.connection_mode) (
            field (lit "base_url") (str s.base_url) (
              field (lit "api_token") (str s.api_token) (
                field (lit "tls_verify") (bool s.tls_verify) (
                  field (lit "ca_cert") (str s.ca_cert) (
                    field (lit "allowed_operations") (arr (texts s.allowed_operations)) (
                      field (lit "enabled") (bool s.enabled)
                        (field (lit "notes") (str s.notes) end)))))))))))

abbrev monitoring_target_names : List Text
monitoring_target_names =
    lit "id"
    ∷ lit "name"
    ∷ lit "environment"
    ∷ lit "connection_mode"
    ∷ lit "base_url"
    ∷ lit "api_token"
    ∷ lit "tls_verify"
    ∷ lit "ca_cert"
    ∷ lit "allowed_operations"
    ∷ lit "enabled"
    ∷ lit "notes"
    ∷ []

-- MonitoringTargetDef(**s)
unfoldable pub monitoring_target_from_dict : Json → Option MonitoringTargetDef
monitoring_target_from_dict (obj fs) =
    if not (keys_among monitoring_target_names fs) then none else do
      id ← required_text (lit "id") fs
      name ← required_text (lit "name") fs
      environment ← text_at (lit "environment") (lit "staging") fs
      connection_mode ← text_at (lit "connection_mode") (lit "https_api") fs
      base_url ← text_at (lit "base_url") [] fs
      api_token ← text_at (lit "api_token") [] fs
      tls_verify ← bool_at (lit "tls_verify") true fs
      ca_cert ← text_at (lit "ca_cert") [] fs
      allowed_operations ← texts_at (lit "allowed_operations") [] fs
      enabled ← bool_at (lit "enabled") true fs
      notes ← text_at (lit "notes") [] fs
      some (record {
        id = id;
        name = name;
        environment = environment;
        connection_mode = connection_mode;
        base_url = base_url;
        api_token = api_token;
        tls_verify = tls_verify;
        ca_cert = ca_cert;
        allowed_operations = allowed_operations;
        enabled = enabled;
        notes = notes;
      })
monitoring_target_from_dict _ = none
