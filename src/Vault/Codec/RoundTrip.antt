-- ===== src/Vault/Codec/RoundTrip.antt =====
-- app/core/vault.py: `VaultData.from_dict` on what `VaultData.to_dict` returns.
use pgsentinel_mcp.Base.{Option, some, List, [], ◌∷◌, ◌≡◌, refl, lit, equal, contains}
use pgsentinel_mcp.Base.Json.{Json, read_texts-texts}
use pgsentinel_mcp.Vault.Data.{
  ServerDef, PostgresTargetDef, MonitoringTargetDef, AgentConfig, SecuritySettings, VaultData,
}
use pgsentinel_mcp.Vault.Codec.{
  items_of, list_from, to_dict, from_dict, server_to_dict, server_from_dict,
  postgres_target_to_dict, postgres_target_from_dict, monitoring_target_to_dict,
  monitoring_target_from_dict, agent_to_dict, agent_from_dict, settings_to_dict, settings_from_dict,
}

agent_round_trip : (a : AgentConfig) → agent_from_dict (agent_to_dict a) ≡ some a
unfolding agent_from_dict agent_to_dict lit equal contains
agent_round_trip a = refl

settings_round_trip : (s : SecuritySettings) → settings_from_dict (settings_to_dict s) ≡ some s
unfolding settings_from_dict settings_to_dict lit equal contains
settings_round_trip s = refl

server_round_trip : (s : ServerDef) → server_from_dict (server_to_dict s) ≡ some s
unfolding server_from_dict server_to_dict lit equal contains
server_round_trip s =
    rw (read_texts-texts s.allowed_containers, read_texts-texts s.allowed_log_sources)

postgres_target_round_trip :
    (p : PostgresTargetDef) → postgres_target_from_dict (postgres_target_to_dict p) ≡ some p
unfolding postgres_target_from_dict postgres_target_to_dict lit equal contains
postgres_target_round_trip p = rw (
  read_texts-texts p.allowed_schemas,
  read_texts-texts p.allowed_tables,
  read_texts-texts p.sensitive_columns,
)

monitoring_target_round_trip :
    (m : MonitoringTargetDef) → monitoring_target_from_dict (monitoring_target_to_dict m) ≡ some m
unfolding monitoring_target_from_dict monitoring_target_to_dict lit equal contains
monitoring_target_round_trip m = rw (read_texts-texts m.allowed_operations)

list_round_trip :
    {A : Type 0} (to : A → Json) (of : Json → Option A)
    → ((a : A) → of (to a) ≡ some a)
    → (xs : List A) → list_from of (items_of to xs) ≡ some xs
unfolding list_from items_of
list_round_trip to of h [] = refl
list_round_trip to of h (x ∷ xs) = rw (h x, list_round_trip to of h xs)

-- The dict that a vault is written as is read back as the same vault: its servers, databases,
-- monitoring targets, agent, settings and masking patterns.
pub from_dict-to_dict : (d : VaultData) → from_dict (to_dict d) ≡ some d
unfolding from_dict to_dict lit equal
from_dict-to_dict d = rw (
  list_round_trip server_to_dict server_from_dict server_round_trip d.servers,
  list_round_trip postgres_target_to_dict postgres_target_from_dict postgres_target_round_trip
      d.postgres_targets,
  list_round_trip monitoring_target_to_dict monitoring_target_from_dict monitoring_target_round_trip
      d.monitoring_targets,
  agent_round_trip d.agent,
  settings_round_trip d.settings,
  read_texts-texts d.masking_patterns,
)
