-- ===== src/Remote/Direct.antt =====
-- app/remote/direct_postgres.py: `DirectPostgresClient`, up to the driver. The threads that forward
-- the bytes of a tunnel are left out.
pub mod Clean
mod Tests
use pgsentinel_mcp.Base.Int.{ℤ, pos, max_ℤ}
use pgsentinel_mcp.Base.Dict.{Dict, insert, erase}
use pgsentinel_mcp.Base.Exec.{Exec, pure, raise, modify, raise_when, ◌>>=◌, ◌>>◌}
use pgsentinel_mcp.Base.Result.{Result, ok, err}
use pgsentinel_mcp.Vault.Data.{PostgresTargetDef, ServerDef}
use pgsentinel_mcp.Remote.Connection.{CommandResult, finally}
use pgsentinel_mcp.Base.{
  Text, ℕ, ◌+◌, ◌-◌, Bool, true, false, not, ◌||◌, Option, none, some, List, [], ◌∷◌, ◌++◌, ◌==◌,
  lit, strip, is_empty, contains, if◌then◌else◌, join_with, ltb, ◌*◌,
}

-- DIRECT_POSTGRES_MODES
abbrev pub direct_postgres_modes : List Text
direct_postgres_modes =
    lit "postgres_direct_tcp" ∷ lit "postgres_direct_tls" ∷ lit "ssh_tunnel_direct_postgres" ∷ []

abbrev pub strict_modes : List Text
strict_modes = lit "require" ∷ lit "verify-ca" ∷ lit "verify-full" ∷ []

-- `s or default`
abbrev or_else : Text → Text → Text
or_else s default = if is_empty s then default else s

unfoldable pub ssl_mode : PostgresTargetDef → Text
unfolding strip
ssl_mode t =
    let mode = strip t.ssl_mode in
    if t.connection_mode == lit "postgres_direct_tls"
    then (if contains strict_modes mode then mode else lit "require")
    else or_else mode (lit "prefer")

-- The arguments of `psycopg.connect`; the time limits are in seconds and in milliseconds.
pub record ConnectArgs : Type 0 where
  pub host : Text
  pub port : ℤ
  pub dbname : Text
  pub user : Text
  pub password : Text
  pub connect_timeout : ℕ
  pub statement_timeout : ℕ
  pub sslmode : Text
  pub sslrootcert : Option Text
  pub sslcert : Option Text
  pub sslkey : Option Text

-- The temporary files, the SSH clients that are open, and the connections that were tried.
pub record Local : Type 0 where
  pub files : Dict Text
  pub open_clients : ℕ
  pub tried : List ConnectArgs

-- The texts of the exceptions.
abbrev pub Direct : Type 0 → Type 0
Direct = Exec Text Local

-- The names of the temporary files that one run may make.
pub record TempNames : Type 0 where
  pub ca : Text
  pub cert : Text
  pub key : Text
  pub ssh_key : Text

abbrev pub write_unless : Bool → Text → Text → Local → Local
write_unless true name value h = h
write_unless false name value h = record h { files = insert name value h.files }

abbrev pub remove_unless : Bool → Text → Local → Local
remove_unless true name h = h
remove_unless false name h = record h { files = erase name h.files }

abbrev pub blank : Text → Bool
blank s = is_empty (strip s)

abbrev path_unless : Bool → Text → Option Text
path_unless true name = none
path_unless false name = some name

-- What the driver answers to a connection and a statement: a row of JSON text each, or the text
-- of an exception.
abbrev pub Driver : Type 0
Driver = ConnectArgs → Text → Result Text (List Text)

abbrev psycopg_json : Text
psycopg_json = lit "postgres_psycopg_json"

module _ (t : PostgresTargetDef) (names : TempNames) where
  abbrev pub write_ssl_files : Local → Local
  write_ssl_files h = write_unless (blank t.client_key) names.key t.client_key (
      write_unless (blank t.client_cert) names.cert t.client_cert
        (write_unless (blank t.ca_cert) names.ca t.ca_cert h))

  -- for path in paths: path.unlink()
  abbrev pub remove_ssl_files : Local → Local
  remove_ssl_files h =
      remove_unless (blank t.client_key) names.key (
        remove_unless (blank t.client_cert) names.cert (remove_unless (blank t.ca_cert) names.ca h))

  -- `with self._ssl_files() as ssl_kwargs`; the names of the files are `names`, where they are made.
  unfoldable pub with_ssl_files : {A : Type 0} → Direct A → Direct A
  unfolding strip
  with_ssl_files body = modify write_ssl_files >> finally body remove_ssl_files

  unfoldable pub connect_args : Text → ℤ → ℕ → ConnectArgs
  unfolding ssl_mode strip
  connect_args host port timeout = record {
    host = host;
    port = port;
    dbname = or_else t.database_name (lit "postgres");
    user = t.readonly_username;
    password = t.readonly_password;
    connect_timeout = timeout;
    statement_timeout = (if ltb timeout 1 then 1 else timeout) * 1000;
    sslmode = ssl_mode t;
    sslrootcert = path_unless (blank t.ca_cert) names.ca;
    sslcert = path_unless (blank t.client_cert) names.cert;
    sslkey = path_unless (blank t.client_key) names.key;
  }

  unfoldable pub fetch_json_lines : Driver → Text → Text → ℤ → ℕ → Direct (List Text)
  unfolding connect_args
  fetch_json_lines driver sql host port timeout h = (
    driver (connect_args host port timeout) sql,
    record h { tried = h.tried ++ (connect_args host port timeout ∷ []) },
  )

  abbrev pub remote_host : Text
  remote_host = or_else t.host (lit "127.0.0.1")

  abbrev pub joined_rows : List Text → CommandResult
  joined_rows rows = record {
    command_label = psycopg_json;
    exit_code = pos 0;
    stdout = join_with (b'\n' ∷ []) rows;
    stderr = [];
  }

  unfoldable pub run_direct : Driver → Text → ℕ → Direct CommandResult
  unfolding with_ssl_files fetch_json_lines join_with
  run_direct driver sql timeout = do
    rows ← with_ssl_files (fetch_json_lines driver sql remote_host t.port timeout)
    pure (joined_rows rows)

  -- The server's answers: an exception of `connect`, and whether the transport is active. The port
  -- of the forwarder is one that the machine gives.
  module _ (refused : Option Text) (active : Bool) (port : ℤ) where
    abbrev pub open_tunnel : ServerDef → Local → Local
    open_tunnel srv h =
        write_unless (is_empty srv.ssh_private_key) names.ssh_key srv.ssh_private_key
          (record h { open_clients = h.open_clients + 1 })

    -- `finally: client.close()`, and the key file
    abbrev pub close_tunnel : ServerDef → Local → Local
    close_tunnel srv h =
        remove_unless (is_empty srv.ssh_private_key) names.ssh_key
          (record h { open_clients = h.open_clients - 1 })

    abbrev connected : Option Text → Direct (Unit {0})
    connected none = pure tt
    connected (some message) = raise message

    abbrev pub tunnel : Driver → Text → ℕ → Direct CommandResult
    tunnel driver sql timeout = do
      connected refused
      raise_when (not active) (lit "SSH transport is not active")
      rows ← with_ssl_files (fetch_json_lines driver sql (lit "127.0.0.1") port timeout)
      pure (joined_rows rows)

    unfoldable pub run_via_ssh_tunnel : Option ServerDef → Driver → Text → ℕ → Direct CommandResult
    unfolding with_ssl_files fetch_json_lines join_with
    run_via_ssh_tunnel none driver sql timeout =
        raise (lit "ssh_tunnel_direct_postgres requires a linked server")
    run_via_ssh_tunnel (some srv) driver sql timeout =
        modify (open_tunnel srv) >> finally (tunnel driver sql timeout) (close_tunnel srv)

    abbrev caught : Result Text CommandResult → CommandResult
    caught (ok r) = r
    caught (err message) = record {
      command_label = psycopg_json;
      exit_code = pos 1;
      stdout = [];
      stderr = message;
    }

    abbrev pub chosen : Option ServerDef → Driver → Text → ℕ → Direct CommandResult
    chosen server driver sql timeout =
        if t.connection_mode == lit "ssh_tunnel_direct_postgres"
        then run_via_ssh_tunnel server driver sql timeout
        else run_direct driver sql timeout

    -- Every exception becomes a result.
    unfoldable pub run_json_sql :
        Option ServerDef → Driver → Text → ℕ → Local → CommandResult × Local
    unfolding run_via_ssh_tunnel run_direct
    run_json_sql server driver sql timeout h =
        (caught (chosen server driver sql timeout h).0, (chosen server driver sql timeout h).1)
