-- ===== src/Remote/Direct/Tests.antt =====
-- Runs of app/remote/direct_postgres.py, and the theorems at inputs that meet their hypotheses.
use pgsentinel_mcp.Base.Int.{pos}
use pgsentinel_mcp.Base.Dict.{lookup}
use pgsentinel_mcp.Base.Result.{err}
use pgsentinel_mcp.Base.{none, [], lit, true, equal, refl, some}
use pgsentinel_mcp.Vault.Data.{new_server, new_postgres_target, PostgresTargetDef, ServerDef}
use pgsentinel_mcp.Remote.Direct.{TempNames, Local, Driver, run_json_sql}
use pgsentinel_mcp.Remote.Direct.Clean.{IsFresh, IsClean, run_json_sql-IsClean}

abbrev tunnelled : PostgresTargetDef
tunnelled = record (new_postgres_target (lit "i") (lit "n")) {
  connection_mode = lit "ssh_tunnel_direct_postgres";
  ca_cert = lit "ca";
  client_key = lit "key";
}

abbrev linked : ServerDef
linked = record (new_server (lit "i") (lit "n")) { ssh_private_key = lit "k" }

abbrev names : TempNames
names = record { ca = lit "a"; cert = lit "b"; key = lit "c"; ssh_key = lit "d" }

abbrev empty_host : Local
empty_host = record { files = []; open_clients = 0; tried = [] }

abbrev failing : Driver
failing args sql = err (lit "server closed the connection")

names-IsFresh : IsFresh names empty_host.files
unfolding lookup equal lit
names-IsFresh = record {
  ca_new = refl;
  cert_new = refl;
  key_new = refl;
  ssh_new = refl;
  ca_cert_differ = refl;
  ca_key_differ = refl;
  cert_key_differ = refl;
  ssh_ca_differ = refl;
  ssh_cert_differ = refl;
  ssh_key_differ = refl;
}

run_json_sql-IsClean_example :
    IsClean tunnelled names empty_host
      (run_json_sql tunnelled names none true
        (pos 5001)
        (some linked)
        failing
        (lit "select 1")
        20
        empty_host).1
run_json_sql-IsClean_example =
    run_json_sql-IsClean tunnelled names none true (pos 5001) (some linked) failing (lit "select 1")
      20 empty_host names-IsFresh
