-- ===== src/Remote/Client/Tests.antt =====
-- Runs of the clients in app/remote, and the theorems at inputs that meet their hypotheses.
use pgsentinel_mcp.Base.Json.{Json}
use pgsentinel_mcp.Base.Int.{pos}
use pgsentinel_mcp.Base.{Text, lit, Option, [], none, ◌≡◌, refl}
use pgsentinel_mcp.Base.Result.{ok}
use pgsentinel_mcp.Config.Tests.{sample, sample-IsValid}
use pgsentinel_mcp.Remote.Client.{Runner}
use pgsentinel_mcp.Remote.Client.Asked.{AsksOnly}
use pgsentinel_mcp.Remote.Client.Bounds.{IsLogRead, log_reader-reads}
use pgsentinel_mcp.Remote.Client.Queries.{IsGuardedQuery, query_readonly_sql-asks}
use pgsentinel_mcp.Remote.Client.Logs.{get_container_logs, search_logs, get_recent_errors}
use pgsentinel_mcp.Remote.Client.Postgres.{query_readonly_sql, render_sql}

abbrev answering : Runner
answering args check = ok (record {
  command_label = [];
  exit_code = pos 0;
  stdout = lit "GET /\nERROR one\nerror one\n";
  stderr = [];
})

abbrev no_json : Text → Option Json
no_json s = none

log_reader-reads_example :
    AsksOnly (IsLogRead sample) (get_container_logs answering sample (lit "web") none none) []
    × AsksOnly (IsLogRead sample) (search_logs answering sample (lit "web") (lit "error") none) []
    × AsksOnly (IsLogRead sample) (get_recent_errors answering sample (lit "web") none) []
log_reader-reads_example =
    log_reader-reads answering sample sample-IsValid (lit "web") (lit "error") none none []

query_readonly_sql-asks_example :
    AsksOnly
      (IsGuardedQuery answering no_json sample (lit "select 1"))
      (query_readonly_sql answering no_json sample (lit "select 1"))
      []
query_readonly_sql-asks_example =
    query_readonly_sql-asks answering no_json sample (lit "select 1") []

-- Two blanks inside a literal become one.
blanks_collapse : render_sql (lit "select 'a  b'") [] ≡ lit "select 'a b'"
unfolding render_sql lit
blanks_collapse = refl
