-- ===== src/Config/Tests.antt =====
-- Runs of app/core/config.py, and the theorems at inputs that meet their hypotheses.
use pgsentinel_mcp.Base.Int.{pos}
use pgsentinel_mcp.Base.Result.{ok, err}
use pgsentinel_mcp.Base.{
  none, some, Bool, Text, lit, contains, ◌≡◌, [], true, equal, false, strip, lower, ◌∷◌, refl,
}
use pgsentinel_mcp.Config.{
  PgSentinelConfig, Environ, Source, Parser, load_config, legacy_config_allowed, content,
  disabled_in_production, RawConfig, resolved_path, no_tables,
}
use pgsentinel_mcp.Config.Valid.{IsValid, IsRead, load_config-IsValid}

-- A configuration with one log, whose container is on the list.
abbrev pub sample : PgSentinelConfig
sample = record {
  project = record { name = lit "p"; environment = lit "staging" };
  server = record {
    mode = lit "local";
    host = none;
    port = pos 22;
    username = none;
    ssh_private_key_path = none;
    ssh_private_key_passphrase = none;
  };
  security = record {
    default_readonly = true;
    allow_write_tools = false;
    allow_raw_sql = true;
    allow_raw_shell = false;
    max_log_lines = pos 300;
    max_query_rows = pos 100;
    command_timeout_seconds = pos 20;
  };
  docker = record { allowed_containers = lit "db" ∷ lit "web" ∷ [] };
  postgres = record {
    container_name = lit "db";
    database = lit "app";
    username = lit "reader";
    password = [];
    host_inside_container = lit "localhost";
    port_inside_container = pos 5432;
    allowed_schemas = lit "public" ∷ [];
    allowed_tables = lit "users" ∷ [];
    sensitive_columns = [];
  };
  logs = record {
    allowed_logs = (lit "app", record { container = lit "web"; max_lines = some (pos 50) }) ∷ [];
  };
  masking = record { patterns = [] };
}

-- As it is read from a file that gives all three lists.
abbrev raw_sample : RawConfig
raw_sample = record {
  config = sample;
  fields_set = record { allowed_containers = true; allowed_tables = true; allowed_logs = true };
}

-- A file without tables is refused where it says so, and loaded where it says nothing of them.
abbrev without_tables : Bool → RawConfig
without_tables is_set = record raw_sample {
  config = record sample { postgres = record sample.postgres { allowed_tables = [] } };
  fields_set = record raw_sample.fields_set { allowed_tables = is_set };
}

abbrev development : Environ
development = record { pgsentinel_env = none; allow_legacy_config = none; pgsentinel_config = none }

abbrev parse : Parser
parse s = ok raw_sample

abbrev files : Text → Source
files path = content []

config_runs : Unit {0}
unfolding load_config lit contains equal strip lower
config_runs = tt

loaded : load_config parse files development none ≡ ok sample
unfolding config_runs
loaded = refl

tables_refused : load_config (λ s. ok (without_tables true)) files development none ≡ err no_tables
unfolding config_runs
tables_refused = refl

tables_missing :
    load_config (λ s. ok (without_tables false)) files development none
    ≡ ok (record sample { postgres = record sample.postgres { allowed_tables = [] } })
unfolding config_runs
tables_missing = refl

abbrev production : Environ
production = record development { pgsentinel_env = some (lit " Production ") }

refused_in_production : load_config parse files production none ≡ err disabled_in_production
unfolding config_runs
refused_in_production = refl

load_config-IsValid_example :
    (legacy_config_allowed development ≡ true)
    × IsRead parse (files (resolved_path development none)) sample
    × IsValid sample
load_config-IsValid_example = load_config-IsValid parse files development none loaded

-- It is valid.
pub sample-IsValid : IsValid sample
sample-IsValid = (load_config-IsValid parse files development none loaded).2
