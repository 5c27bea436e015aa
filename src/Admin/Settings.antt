-- ===== src/Admin/Settings.antt =====
-- app/admin/routes.py: the form of the settings.
use pgsentinel_mcp.Base.{Text, Bool, if◌then◌else◌, ◌==◌, lit}
use pgsentinel_mcp.Admin.Definitions.{stripped_parts}
use pgsentinel_mcp.Base.Int.{ℤ, pos, max_ℤ, min_ℤ}
use pgsentinel_mcp.Vault.Data.{SecuritySettings, VaultData}
pub mod Bounds

-- The fields of the form, with `sql_allow_*` as they are kept.
pub record SettingsForm : Type 0 where
  pub auto_lock_minutes : ℤ
  pub max_log_lines : ℤ
  pub max_query_rows : ℤ
  pub command_timeout_seconds : ℤ
  pub sql_policy_mode : Text
  pub sql_hard_max_query_rows : ℤ
  pub sql_allow_insert : Bool
  pub sql_allow_update : Bool
  pub sql_allow_delete : Bool
  pub sql_allow_create : Bool
  pub sql_allow_alter : Bool
  pub sql_allow_drop : Bool
  pub sql_allow_truncate : Bool
  pub sql_allow_maintenance : Bool
  pub sql_allow_privilege : Bool
  pub sql_allow_transaction : Bool
  pub masking_patterns_text : Text

-- max(1, min(value, hi))
abbrev clamp : ℤ → ℤ → ℤ
clamp value hi = max_ℤ (pos 1) (min_ℤ value hi)

unfoldable pub settings_of_form : SettingsForm → SecuritySettings
settings_of_form f = record {
  auto_lock_minutes = clamp f.auto_lock_minutes (pos 1440);
  max_log_lines = clamp f.max_log_lines (pos 5000);
  max_query_rows = clamp f.max_query_rows (pos 1000);
  command_timeout_seconds = clamp f.command_timeout_seconds (pos 300);
  sql_policy_mode =
      if f.sql_policy_mode == lit "guarded_write"
      then lit "guarded_write"
      else lit "readonly_default";
  sql_allow_insert = f.sql_allow_insert;
  sql_allow_update = f.sql_allow_update;
  sql_allow_delete = f.sql_allow_delete;
  sql_allow_create = f.sql_allow_create;
  sql_allow_alter = f.sql_allow_alter;
  sql_allow_drop = f.sql_allow_drop;
  sql_allow_truncate = f.sql_allow_truncate;
  sql_allow_maintenance = f.sql_allow_maintenance;
  sql_allow_privilege = f.sql_allow_privilege;
  sql_allow_transaction = f.sql_allow_transaction;
  sql_hard_max_query_rows = clamp f.sql_hard_max_query_rows (pos 5000);
}

unfoldable pub apply_settings_form : SettingsForm → VaultData → VaultData
apply_settings_form f d = record d {
  settings = settings_of_form f;
  masking_patterns = stripped_parts b'\n' f.masking_patterns_text;
}
