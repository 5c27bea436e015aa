-- ===== src/Vault/Codec/Settings.antt =====
-- app/core/vault.py: the dicts of the agent configuration and of the security settings.
use pgsentinel_mcp.Base.{Text, false, not, Option, none, some, List, [], ◌∷◌, lit, if◌then◌else◌}
use pgsentinel_mcp.Base.Int.{pos}
use pgsentinel_mcp.Base.Json.{Json, bool, num, str, obj, end, field, keys_among}
use pgsentinel_mcp.Vault.Data.{AgentConfig, SecuritySettings}
use pgsentinel_mcp.Vault.Codec.Read.{◌>>=◌, text_at, int_at, bool_at}

-- asdict of a `AgentConfig`
unfoldable pub agent_to_dict : AgentConfig → Json
agent_to_dict s = obj (
    field (lit "enabled") (bool s.enabled) (
      field (lit "key_hash") (str s.key_hash) (
        field (lit "last_rotated") (str s.last_rotated)
          (field (lit "expires_at") (str s.expires_at) end))))

abbrev agent_names : List Text
agent_names = lit "enabled" ∷ lit "key_hash" ∷ lit "last_rotated" ∷ lit "expires_at" ∷ []

-- AgentConfig(**s)
unfoldable pub agent_from_dict : Json → Option AgentConfig
agent_from_dict (obj fs) = if not (keys_among agent_names fs) then none else do
  enabled ← bool_at (lit "enabled") false fs
  key_hash ← text_at (lit "key_hash") [] fs
  last_rotated ← text_at (lit "last_rotated") [] fs
  expires_at ← text_at (lit "expires_at") [] fs
  some (record {
    enabled = enabled;
    key_hash = key_hash;
    last_rotated = last_rotated;
    expires_at = expires_at;
  })
agent_from_dict _ = none

-- asdict of a `SecuritySettings`
unfoldable pub settings_to_dict : SecuritySettings → Json
settings_to_dict s = obj (
    field (lit "auto_lock_minutes") (num s.auto_lock_minutes) (
      field (lit "max_log_lines") (num s.max_log_lines) (
        field (lit "max_query_rows") (num s.max_query_rows) (
          field (lit "command_timeout_seconds") (num s.command_timeout_seconds) (
            field (lit "sql_policy_mode") (str s.sql_policy_mode) (
              field (lit "sql_allow_insert") (bool s.sql_allow_insert) (
                field (lit "sql_allow_update") (bool s.sql_allow_update) (
                  field (lit "sql_allow_delete") (bool s.sql_allow_delete) (
                    field (lit "sql_allow_create") (bool s.sql_allow_create) (
                      field (lit "sql_allow_alter") (bool s.sql_allow_alter) (
                        field (lit "sql_allow_drop") (bool s.sql_allow_drop) (
                          field (lit "sql_allow_truncate") (bool s.sql_allow_truncate) (
                            field (lit "sql_allow_maintenance") (bool s.sql_allow_maintenance) (
                              field (lit "sql_allow_privilege") (bool s.sql_allow_privilege) (
                                field (lit "sql_allow_transaction") (bool s.sql_allow_transaction) (
                                  field (lit "sql_hard_max_query_rows")
                                    (num s.sql_hard_max_query_rows) end))))))))))))))))

abbrev settings_names : List Text
settings_names =
    lit "auto_lock_minutes"
    ∷ lit "max_log_lines"
    ∷ lit "max_query_rows"
    ∷ lit "command_timeout_seconds"
    ∷ lit "sql_policy_mode"
    ∷ lit "sql_allow_insert"
    ∷ lit "sql_allow_update"
    ∷ lit "sql_allow_delete"
    ∷ lit "sql_allow_create"
    ∷ lit "sql_allow_alter"
    ∷ lit "sql_allow_drop"
    ∷ lit "sql_allow_truncate"
    ∷ lit "sql_allow_maintenance"
    ∷ lit "sql_allow_privilege"
    ∷ lit "sql_allow_transaction"
    ∷ lit "sql_hard_max_query_rows"
    ∷ []

-- SecuritySettings(**s)
unfoldable pub settings_from_dict : Json → Option SecuritySettings
settings_from_dict (obj fs) = if not (keys_among settings_names fs) then none else do
  auto_lock_minutes ← int_at (lit "auto_lock_minutes") (pos 30) fs
  max_log_lines ← int_at (lit "max_log_lines") (pos 300) fs
  max_query_rows ← int_at (lit "max_query_rows") (pos 100) fs
  command_timeout_seconds ← int_at (lit "command_timeout_seconds") (pos 20) fs
  sql_policy_mode ← text_at (lit "sql_policy_mode") (lit "readonly_default") fs
  sql_allow_insert ← bool_at (lit "sql_allow_insert") false fs
  sql_allow_update ← bool_at (lit "sql_allow_update") false fs
  sql_allow_delete ← bool_at (lit "sql_allow_delete") false fs
  sql_allow_create ← bool_at (lit "sql_allow_create") false fs
  sql_allow_alter ← bool_at (lit "sql_allow_alter") false fs
  sql_allow_drop ← bool_at (lit "sql_allow_drop") false fs
  sql_allow_truncate ← bool_at (lit "sql_allow_truncate") false fs
  sql_allow_maintenance ← bool_at (lit "sql_allow_maintenance") false fs
  sql_allow_privilege ← bool_at (lit "sql_allow_privilege") false fs
  sql_allow_transaction ← bool_at (lit "sql_allow_transaction") false fs
  sql_hard_max_query_rows ← int_at (lit "sql_hard_max_query_rows") (pos 1000) fs
  some (record {
    auto_lock_minutes = auto_lock_minutes;
    max_log_lines = max_log_lines;
    max_query_rows = max_query_rows;
    command_timeout_seconds = command_timeout_seconds;
    sql_policy_mode = sql_policy_mode;
    sql_allow_insert = sql_allow_insert;
    sql_allow_update = sql_allow_update;
    sql_allow_delete = sql_allow_delete;
    sql_allow_create = sql_allow_create;
    sql_allow_alter = sql_allow_alter;
    sql_allow_drop = sql_allow_drop;
    sql_allow_truncate = sql_allow_truncate;
    sql_allow_maintenance = sql_allow_maintenance;
    sql_allow_privilege = sql_allow_privilege;
    sql_allow_transaction = sql_allow_transaction;
    sql_hard_max_query_rows = sql_hard_max_query_rows;
  })
settings_from_dict _ = none
