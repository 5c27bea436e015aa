-- ===== src/Config/Valid.antt =====
-- app/core/config.py: what a configuration that was loaded keeps to.
use pgsentinel_mcp.Security.{no_items}
use pgsentinel_mcp.Base.Int.{ℤ, pos, ◌≤ℤ◌}
use pgsentinel_mcp.Base.Dict.{lookup}
use pgsentinel_mcp.Base.{
  ◌≡◌, true, Text, false, some, refl, contains, lit, not, arith, Option, subst,
}
use pgsentinel_mcp.Base.Result.{raise_if, ok, >>=-eq-ok}
use pgsentinel_mcp.Config.{
  is_missing, PgSentinelConfig, RawConfig, validate, check_log_ranges, LogConfig, check_range,
  check_security, check_server, check_docker, check_postgres, check_logs, check_references, Parser,
  postgres_container, load_config, Source, no_tables, Environ, parsed, legacy_config_allowed,
  content, disabled_in_production, resolved_path, absent, denied,
}
use pgsentinel_mcp.Config.Checks.{
  raise_if-ok, >>-eq-ok, check_log_containers-listed, check_log_ranges-bounded, check_security-ok,
  check_server-ok,
}

-- What holds of every configuration that is in use.
pub record IsValid (c : PgSentinelConfig) : Type 0 where
  pub readonly : c.security.default_readonly ≡ true
  pub no_writes : c.security.allow_write_tools ≡ false
  pub no_shell : c.security.allow_raw_shell ≡ false
  pub log_lines : (pos 1 ≤ℤ c.security.max_log_lines) × (c.security.max_log_lines ≤ℤ pos 5000)
  pub query_rows : (pos 1 ≤ℤ c.security.max_query_rows) × (c.security.max_query_rows ≤ℤ pos 1000)
  pub timeout :
      (pos 1 ≤ℤ c.security.command_timeout_seconds)
      × (c.security.command_timeout_seconds ≤ℤ pos 300)
  pub database_listed : contains c.docker.allowed_containers c.postgres.container_name ≡ true
  pub logs_listed :
      (name : Text) (log : LogConfig)
      → lookup name c.logs.allowed_logs ≡ some log
      → contains c.docker.allowed_containers log.container ≡ true
  pub logs_bounded :
      (name : Text) (log : LogConfig) (n : ℤ)
      → lookup name c.logs.allowed_logs ≡ some log
      → log.max_lines ≡ some n
      → (pos 1 ≤ℤ n) × (n ≤ℤ pos 5000)
  pub ssh_named :
      c.server.mode ≡ lit "ssh"
      → (is_missing c.server.host ≡ false)
        × (is_missing c.server.username ≡ false)
        × (is_missing c.server.ssh_private_key_path ≡ false)

pub validate-IsValid :
    (raw : RawConfig) {d : PgSentinelConfig}
    → validate raw ≡ ok d
    → (raw.config ≡ d)
      × IsValid raw.config
      × (raw.fields_set.allowed_tables ≡ true → no_items raw.config.postgres.allowed_tables ≡ false)
unfolding validate check_postgres check_logs check_references
validate-IsValid raw h =
    let c = raw.config in
    let ((_, server), h1) = >>-eq-ok (check_server c.server) _ h in
    let ((_, security), h2) = >>-eq-ok (check_security c.security) _ h1 in
    let ((_, docker), h3) =
      >>-eq-ok (check_docker raw.fields_set.allowed_containers c.docker) _ h2 in
    let ((_, postgres), h4) =
      >>-eq-ok (check_postgres raw.fields_set.allowed_tables c.postgres) _ h3 in
    let ((_, logs), h5) = >>-eq-ok (check_logs raw.fields_set.allowed_logs c.logs) _ h4 in
    let ((_, references), h6) = >>-eq-ok (check_references c) _ h5 in
    let (readonly, writes, shell, lines, rows, seconds) = check_security-ok c.security security in
    let (_, some_tables) =
      >>-eq-ok
        (check_range (lit "port_inside_container") (pos 1) (pos 65535)
          c.postgres.port_inside_container)
        _ postgres in
    let ((_, listed), containers) =
      >>-eq-ok
        (raise_if (not (contains c.docker.allowed_containers c.postgres.container_name))
          postgres_container)
        _ references in
    let ((_, ranges), _) = >>-eq-ok (check_log_ranges c.logs.allowed_logs) _ logs in
    (
      ground (arith, h6),
      record {
        readonly = readonly;
        no_writes = writes;
        no_shell = shell;
        log_lines = lines;
        query_rows = rows;
        timeout = seconds;
        database_listed = ground (
          arith,
          raise_if-ok (not (contains c.docker.allowed_containers c.postgres.container_name))
              postgres_container listed,
        );
        logs_listed = λ name log found.
            check_log_containers-listed c.docker.allowed_containers c.logs.allowed_logs name log
              containers found;
        logs_bounded = λ name log n found m.
            check_log_ranges-bounded c.logs.allowed_logs name log n ranges found m;
        ssh_named = check_server-ok c.server server;
      },
      λ is_set. ground (arith, raise_if-ok _ no_tables some_tables, is_set),
    )

-- What a configuration was read from. Tables that the file lists are not none at all.
pub record IsRead (parse : Parser) (source : Source) (c : PgSentinelConfig) : Type 0 where
  pub text : Text
  pub raw : RawConfig
  pub read_from : source ≡ content text
  pub parsed_as : parse text ≡ ok raw
  pub config_in : raw.config ≡ c
  pub set_tables : raw.fields_set.allowed_tables ≡ true → no_items c.postgres.allowed_tables ≡ false

parsed-IsValid :
    (parse : Parser) (path : Text) (source : Source) {c : PgSentinelConfig}
    → parsed parse path source ≡ ok c
    → IsRead parse source c × IsValid c
parsed-IsValid parse path absent h = cc
parsed-IsValid parse path denied h = cc
parsed-IsValid parse path (content s) h =
    let (raw, as_raw, valid) = >>=-eq-ok (parse s) validate h in
    let (same, v, tables) = validate-IsValid raw valid in
    (
      record {
        text = s;
        raw = raw;
        read_from = refl;
        parsed_as = as_raw;
        config_in = same;
        set_tables =
            λ is_set. subst (λ d. no_items d.postgres.allowed_tables ≡ false) same (tables is_set);
      },
      subst IsValid same v,
    )

-- A configuration is loaded only where the legacy mode is allowed, from the text of the file
-- that was asked for, and then it is read-only, without write tools and shells, its limits are
-- in their ranges, it has tables where the file gives a list of tables, the containers of its
-- database and of all its logs are on the list of containers, and the SSH fields are there where
-- the mode is ssh.
pub load_config-IsValid :
    (parse : Parser) (files : Text → Source) (e : Environ) (path : Option Text)
    {c : PgSentinelConfig}
    → load_config parse files e path ≡ ok c
    → (legacy_config_allowed e ≡ true) × IsRead parse (files (resolved_path e path)) c × IsValid c
unfolding load_config
load_config-IsValid parse files e path h =
    let ((_, allowed), h1) =
      >>-eq-ok (raise_if (not (legacy_config_allowed e)) disabled_in_production) _ h in
    let (read, valid) =
      parsed-IsValid parse (resolved_path e path) (files (resolved_path e path)) h1 in
    (
      ground (arith, raise_if-ok (not (legacy_config_allowed e)) disabled_in_production allowed),
      read,
      valid,
    )
