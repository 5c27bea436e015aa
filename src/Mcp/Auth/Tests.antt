-- ===== src/Mcp/Auth/Tests.antt =====
-- A request that passes app/mcp/auth.py, and the theorems at it.
use pgsentinel_mcp.Mcp.Auth.{drop, dispatch, Request}
use pgsentinel_mcp.Manager.Contents.{Holds}
use pgsentinel_mcp.Manager.{get_vault_data}
use pgsentinel_mcp.Base.Dict.{lookup}
use pgsentinel_mcp.Mcp.Auth.Laws.{IsAdmitted, dispatch-IsAdmitted}
use pgsentinel_mcp.Base.Result.{ok, err}
use pgsentinel_mcp.Vault.Store.{
  new_vault, is_valid_agent_token_format, text, touch, verify_agent_token,
}
use pgsentinel_mcp.Base.Int.{pos, ℤ}
use pgsentinel_mcp.Base.{
  Text, lit, some, ◌≡◌, Option, starts_with, ◌++◌, [], true, strip, none, lstrip, rstrip, is_space,
  equal, ◌∷◌, refl,
}
use pgsentinel_mcp.Manager.State.{get_vault, vault_exists, vault_is_locked}
use pgsentinel_mcp.Vault.Data.{VaultData, new_vault_data, is_agent_key_expired}
use pgsentinel_mcp.Mcp.Auth.{
  authorize, Gate, missing_bearer, check_header, open_contents, check_key,
}
use pgsentinel_mcp.Manager.Names.{Env, resolve_current_vault_path, get_vault_dir}
use pgsentinel_mcp.Vault.Store.Tests.{toy}

abbrev env : Env
env = record {
  vault_path = lit "v";
  vault_dir = [];
  active_vault_file = [];
  vault_marker = [];
  master_password = [];
  master_password_file = [];
}

abbrev token : Text
token = lit "pgs_ai_0123456789012345678901234567890123456789"

abbrev header : Text
header = lit "Bearer " ++ token

abbrev contents : VaultData
contents = record new_vault_data {
  agent = record new_vault_data.agent { enabled = true; key_hash = token };
}

abbrev open_gate : Gate
open_gate = record {
  world = record {
    vault = some (record (new_vault (lit "v")) { contents = some contents });
    host = record { disk = (lit "v", text []) ∷ []; clock = 0; draws = 0 };
    sessions = [];
    auto_lock = true;
    runtime_master_password = none;
    pending_recovery_key = none;
  };
  events = [];
}

abbrev never : Text → Option ℤ
never s = none

runs : Unit {0}
unfolding get_vault resolve_current_vault_path get_vault_dir strip lstrip rstrip is_space equal lit
    lookup authorize check_header open_contents check_key vault_exists vault_is_locked
    get_vault_data touch is_agent_key_expired verify_agent_token is_valid_agent_token_format
    starts_with
runs = tt

abbrev request : Request
request = record { path = lit "/mcp"; authorization = header }

admitted : (dispatch toy env never (pos 0) request open_gate).0 ≡ ok tt
unfolding runs dispatch
admitted = refl

no_bearer : (authorize toy env never (pos 0) token open_gate).0 ≡ err missing_bearer
unfolding runs
no_bearer = refl

on_path : starts_with request.path (lit "/mcp") ≡ true
unfolding runs
on_path = refl

dispatch-IsAdmitted_example :
    (d : VaultData) × (starts_with header (lit "Bearer ") ≡ true)
    × (is_valid_agent_token_format (drop 7 header) ≡ true)
    × Holds (dispatch toy env never (pos 0) request open_gate).1.world d
    × IsAdmitted toy env never (pos 0) (drop 7 header) d
dispatch-IsAdmitted_example =
    dispatch-IsAdmitted toy env never (pos 0) request open_gate on_path admitted
