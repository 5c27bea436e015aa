-- ===== src/Vault/Codec.antt =====
-- app/core/vault.py: `VaultData.to_dict` and `VaultData.from_dict`.
mod Read
mod Targets
mod Settings
pub mod RoundTrip
unfoldable pub use Targets.{
  server_to_dict, server_from_dict, postgres_target_to_dict, postgres_target_from_dict,
  monitoring_target_to_dict, monitoring_target_from_dict,
}
unfoldable pub use Settings.{agent_to_dict, agent_from_dict, settings_to_dict, settings_from_dict}
use Read.{◌>>=◌, int_at, texts_at}
use pgsentinel_mcp.Base.{
  Text, Option, none, some, List, [], ◌∷◌, lit, equal, contains, Bool, true, false,
}
use pgsentinel_mcp.Base.Int.{ℤ, pos}
use pgsentinel_mcp.Base.Json.{
  Json, num, arr, obj, Items, nil, item, Fields, end, field, get, texts, read_texts,
}
use pgsentinel_mcp.Vault.Data.{VaultData}

module _ {A : Type 0} where
  -- [to(x) for x in xs]
  unfoldable pub items_of : (A → Json) → List A → Items
  items_of to [] = nil
  items_of to (x ∷ xs) = item (to x) (items_of to xs)

  unfoldable pub list_from : (Json → Option A) → Items → Option (List A)
  list_from of nil = some []
  list_from of (item j js) = do x ← of j; xs ← list_from of js; some (x ∷ xs)

  -- [of(x) for x in data.get(key, [])]
  abbrev list_at : (Json → Option A) → Option Json → Option (List A)
  list_at of none = some []
  list_at of (some (arr js)) = list_from of js
  list_at of _ = none

  -- of(data.get(key, {}))
  abbrev part_at : (Json → Option A) → Option Json → Option A
  part_at of none = of (obj end)
  part_at of (some j) = of j

unfoldable pub to_dict : VaultData → Json
unfolding items_of
to_dict d = obj (
    field (lit "version") (num d.version) (
      field (lit "servers") (arr (items_of server_to_dict d.servers)) (
        field (lit "postgres_targets") (arr (items_of postgres_target_to_dict d.postgres_targets)) (
          field (lit "monitoring_targets")
            (arr (items_of monitoring_target_to_dict d.monitoring_targets))
            (field (lit "agent") (agent_to_dict d.agent) (
              field (lit "settings") (settings_to_dict d.settings)
                (field (lit "masking_patterns") (arr (texts d.masking_patterns)) end)))))))

unfoldable pub from_dict : Json → Option VaultData
from_dict (obj fs) = do
  version ← int_at (lit "version") (pos 1) fs
  servers ← list_at server_from_dict (get (lit "servers") fs)
  postgres_targets ← list_at postgres_target_from_dict (get (lit "postgres_targets") fs)
  monitoring_targets ← list_at monitoring_target_from_dict (get (lit "monitoring_targets") fs)
  agent ← part_at agent_from_dict (get (lit "agent") fs)
  settings ← part_at settings_from_dict (get (lit "settings") fs)
  masking_patterns ← texts_at (lit "masking_patterns") [] fs
  some (record {
    version = version;
    servers = servers;
    postgres_targets = postgres_targets;
    monitoring_targets = monitoring_targets;
    agent = agent;
    settings = settings;
    masking_patterns = masking_patterns;
  })
from_dict _ = none
