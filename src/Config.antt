-- ===== src/Config.antt =====
-- app/core/config.py: the configuration file of the legacy mode, its validation and its loading.
pub mod Checks
pub mod Valid
pub mod Tests
use pgsentinel_mcp.Base.Int.{ℤ, pos, leb_ℤ}
use pgsentinel_mcp.Base.Dict.{Dict}
use pgsentinel_mcp.Base.Result.{Result, ok, err, ◌>>=◌, ◌>>◌, raise_if}
use pgsentinel_mcp.Security.{no_items}
use pgsentinel_mcp.Base.{
  Text, ℕ, Bool, true, false, not, ◌&&◌, ◌||◌, Option, none, some, List, [], ◌∷◌, ◌++◌, lit, ◌==◌,
  if◌then◌else◌, contains, is_empty, strip, lower, lstrip, rstrip,
}

pub record ProjectConfig : Type 0 where
  pub name : Text
  pub environment : Text

pub record ServerConfig : Type 0 where
  pub mode : Text
  pub host : Option Text
  pub port : ℤ
  pub username : Option Text
  pub ssh_private_key_path : Option Text
  pub ssh_private_key_passphrase : Option Text

pub record SecurityConfig : Type 0 where
  pub default_readonly : Bool
  pub allow_write_tools : Bool
  pub allow_raw_sql : Bool
  pub allow_raw_shell : Bool
  pub max_log_lines : ℤ
  pub max_query_rows : ℤ
  pub command_timeout_seconds : ℤ

pub record DockerConfig : Type 0 where
  pub allowed_containers : List Text

pub record PostgresConfig : Type 0 where
  pub container_name : Text
  pub database : Text
  pub username : Text
  pub password : Text
  pub host_inside_container : Text
  pub port_inside_container : ℤ
  pub allowed_schemas : List Text
  pub allowed_tables : List Text
  pub sensitive_columns : List Text

-- `type` is always docker.
pub record LogConfig : Type 0 where
  pub container : Text
  pub max_lines : Option ℤ

pub record LogsConfig : Type 0 where
  pub allowed_logs : Dict LogConfig

pub record MaskingConfig : Type 0 where
  pub patterns : List Text

pub record PgSentinelConfig : Type 0 where
  pub project : ProjectConfig
  pub server : ServerConfig
  pub security : SecurityConfig
  pub docker : DockerConfig
  pub postgres : PostgresConfig
  pub logs : LogsConfig
  pub masking : MaskingConfig

-- What `model_fields_set` tells of three lists: whether the file gives a value for
-- docker.allowed_containers, postgres.allowed_tables and logs.allowed_logs. A field validator does
-- not run on the default of a field.
pub record FieldsSet : Type 0 where
  pub allowed_containers : Bool
  pub allowed_tables : Bool
  pub allowed_logs : Bool

-- A file as it is read, with the defaults filled in.
pub record RawConfig : Type 0 where
  pub config : PgSentinelConfig
  pub fields_set : FieldsSet

-- Why a file is refused. Where a file has several faults, the model names the first one.
pub data ConfigError : Type 0 where
  disabled_in_production : ConfigError
  not_found : Text → ConfigError
  unreadable invalid_yaml wrong_types : ConfigError
  server_mode : ConfigError
  out_of_range : Text → ConfigError
  ssh_fields_required : List Text → ConfigError
  readonly_required write_tools raw_shell : ConfigError
  no_containers no_tables no_logs : ConfigError
  postgres_container : ConfigError
  log_container : Text → ConfigError

abbrev pub Valid : Type 0 → Type 0
Valid = Result ConfigError

-- Field(ge=low, le=high)
abbrev pub within : ℤ → ℤ → ℤ → Bool
within low high n = leb_ℤ low n && leb_ℤ n high

abbrev check_range : Text → ℤ → ℤ → ℤ → Valid Unit
check_range field low high n = raise_if (not (within low high n)) (out_of_range field)

-- `not getattr(self, field)`
abbrev pub is_missing : Option Text → Bool
is_missing none = true
is_missing (some s) = is_empty s

abbrev missing_name : Text → Option Text → List Text
missing_name name value = if is_missing value then name ∷ [] else []

-- The fields that are missing, of those that the mode ssh requires.
abbrev missing_fields : ServerConfig → List Text
missing_fields s =
    missing_name (lit "host") s.host
    ++ (missing_name (lit "username") s.username
        ++ missing_name (lit "ssh_private_key_path") s.ssh_private_key_path)

unfoldable pub check_server : ServerConfig → Valid Unit
check_server s = do
  raise_if (not (s.mode == lit "ssh" || s.mode == lit "local")) server_mode
  check_range (lit "port") (pos 1) (pos 65535) s.port
  raise_if (s.mode == lit "ssh" && not (no_items (missing_fields s)))
      (ssh_fields_required (missing_fields s))

unfoldable pub check_security : SecurityConfig → Valid Unit
check_security s = do
  check_range (lit "max_log_lines") (pos 1) (pos 5000) s.max_log_lines
  check_range (lit "max_query_rows") (pos 1) (pos 1000) s.max_query_rows
  check_range (lit "command_timeout_seconds") (pos 1) (pos 300) s.command_timeout_seconds
  raise_if (not s.default_readonly) readonly_required
  raise_if s.allow_write_tools write_tools
  raise_if s.allow_raw_shell raw_shell

unfoldable pub check_docker : Bool → DockerConfig → Valid Unit
check_docker is_set d = raise_if (is_set && no_items d.allowed_containers) no_containers

unfoldable pub check_postgres : Bool → PostgresConfig → Valid Unit
check_postgres is_set p = do
  check_range (lit "port_inside_container") (pos 1) (pos 65535) p.port_inside_container
  raise_if (is_set && no_items p.allowed_tables) no_tables

abbrev check_max_lines : Option ℤ → Valid Unit
check_max_lines none = ok tt
check_max_lines (some n) = check_range (lit "max_lines") (pos 1) (pos 5000) n

-- The ranges of the logs, in the order of the dict.
unfoldable pub check_log_ranges : Dict LogConfig → Valid Unit
check_log_ranges [] = ok tt
check_log_ranges ((name, log) ∷ logs) = do check_max_lines log.max_lines; check_log_ranges logs

abbrev no_logs_in : Dict LogConfig → Bool
no_logs_in [] = true
no_logs_in (l ∷ ls) = false

unfoldable pub check_logs : Bool → LogsConfig → Valid Unit
unfolding check_log_ranges
check_logs is_set l = do
  check_log_ranges l.allowed_logs
  raise_if (is_set && no_logs_in l.allowed_logs) no_logs

-- The containers of the logs are all on the list.
unfoldable pub check_log_containers : List Text → Dict LogConfig → Valid Unit
check_log_containers allowed [] = ok tt
check_log_containers allowed ((name, log) ∷ logs) = do
  raise_if (not (contains allowed log.container)) (log_container name)
  check_log_containers allowed logs

-- validate_cross_references
unfoldable pub check_references : PgSentinelConfig → Valid Unit
unfolding check_log_containers
check_references c = do
  raise_if (not (contains c.docker.allowed_containers c.postgres.container_name)) postgres_container
  check_log_containers c.docker.allowed_containers c.logs.allowed_logs

-- What `PgSentinelConfig.model_validate` checks, once the values have the types of the fields.
unfoldable pub validate : RawConfig → Valid PgSentinelConfig
unfolding check_server check_security check_docker check_postgres check_logs check_references
validate raw = do
  let c = raw.config
  check_server c.server
  check_security c.security
  check_docker raw.fields_set.allowed_containers c.docker
  check_postgres raw.fields_set.allowed_tables c.postgres
  check_logs raw.fields_set.allowed_logs c.logs
  check_references c
  ok c

-- os.environ.get(name), for the variables that are read
pub record Environ : Type 0 where
  pub pgsentinel_env : Option Text
  pub allow_legacy_config : Option Text
  pub pgsentinel_config : Option Text

abbrev pub or_default : Text → Option Text → Text
or_default d none = d
or_default d (some s) = s

unfoldable pub runtime_env : Environ → Text
unfolding strip lower
runtime_env e = lower (strip (or_default (lit "development") e.pgsentinel_env))

unfoldable pub is_production : Environ → Bool
unfolding runtime_env
is_production e = runtime_env e == lit "production"

abbrev affirmative : List Text
affirmative = lit "1" ∷ lit "true" ∷ lit "yes" ∷ lit "on" ∷ []

unfoldable pub legacy_config_allowed : Environ → Bool
unfolding is_production strip lower
legacy_config_allowed e =
    contains affirmative (lower (strip (or_default [] e.allow_legacy_config)))
    || not (is_production e)

unfoldable pub config_path_from_env : Environ → Text
config_path_from_env e = or_default (lit "/secrets/pgsentinel.secrets.yml") e.pgsentinel_config

-- A file: absent, unreadable, or a text.
pub data Source : Type 0 where
  absent denied : Source
  content : Text → Source

-- What `yaml.safe_load` and the conversion of the values to the types of the fields make of a text.
abbrev pub Parser : Type 0
Parser = Text → Valid RawConfig

abbrev parsed : Parser → Text → Source → Valid PgSentinelConfig
parsed parse path absent = err (not_found path)
parsed parse path denied = err unreadable
parsed parse path (content s) = parse s >>= validate

-- `path or config_path_from_env()`
abbrev pub resolved_path : Environ → Option Text → Text
resolved_path e none = config_path_from_env e
resolved_path e (some []) = config_path_from_env e
resolved_path e (some (c ∷ s)) = c ∷ s

unfoldable pub load_config :
    Parser → (Text → Source) → Environ → Option Text → Valid PgSentinelConfig
unfolding validate legacy_config_allowed config_path_from_env
load_config parse files e path = do
  raise_if (not (legacy_config_allowed e)) disabled_in_production
  parsed parse (resolved_path e path) (files (resolved_path e path))

-- get_config and clear_config_cache: the value that was loaded last is kept; an exception is not.
abbrev pub Cache : Type 0
Cache = Option PgSentinelConfig

abbrev remember : Valid PgSentinelConfig → Cache
remember (ok c) = some c
remember (err e) = none

unfoldable pub get_config : Valid PgSentinelConfig → Cache → Valid PgSentinelConfig × Cache
get_config load none = (load, remember load)
get_config load (some c) = (ok c, some c)
