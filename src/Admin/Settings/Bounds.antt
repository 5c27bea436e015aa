-- ===== src/Admin/Settings/Bounds.antt =====
-- app/admin/routes.py: the settings that the form can leave behind.
use pgsentinel_mcp.Base.{arith, ◌≡◌, lit, ◌⊎◌}
use pgsentinel_mcp.Base.Int.{pos, ◌≤ℤ◌, clamp_bounds}
use pgsentinel_mcp.Admin.Settings.{apply_settings_form, settings_of_form, SettingsForm}
use pgsentinel_mcp.Vault.Data.{SecuritySettings, VaultData}

pub record IsBounded (s : SecuritySettings) : Type 0 where
  pub lock_minutes : (pos 1 ≤ℤ s.auto_lock_minutes) × (s.auto_lock_minutes ≤ℤ pos 1440)
  pub log_lines : (pos 1 ≤ℤ s.max_log_lines) × (s.max_log_lines ≤ℤ pos 5000)
  pub query_rows : (pos 1 ≤ℤ s.max_query_rows) × (s.max_query_rows ≤ℤ pos 1000)
  pub timeout : (pos 1 ≤ℤ s.command_timeout_seconds) × (s.command_timeout_seconds ≤ℤ pos 300)
  pub hard_rows : (pos 1 ≤ℤ s.sql_hard_max_query_rows) × (s.sql_hard_max_query_rows ≤ℤ pos 5000)
  pub mode :
      (s.sql_policy_mode ≡ lit "guarded_write") ⊎ (s.sql_policy_mode ≡ lit "readonly_default")

-- Whatever a settings form holds, the minutes, lines, rows and seconds that are kept are within
-- their bounds, and the SQL mode is one of the two.
pub apply_settings_form-IsBounded :
    (f : SettingsForm) (d : VaultData) → IsBounded (apply_settings_form f d).settings
unfolding apply_settings_form settings_of_form
apply_settings_form-IsBounded f d = record {
  lock_minutes = clamp_bounds (pos 1) (pos 1440) f.auto_lock_minutes (omega arith);
  log_lines = clamp_bounds (pos 1) (pos 5000) f.max_log_lines (omega arith);
  query_rows = clamp_bounds (pos 1) (pos 1000) f.max_query_rows (omega arith);
  timeout = clamp_bounds (pos 1) (pos 300) f.command_timeout_seconds (omega arith);
  hard_rows = clamp_bounds (pos 1) (pos 5000) f.sql_hard_max_query_rows (omega arith);
  mode = ground arith;
}
