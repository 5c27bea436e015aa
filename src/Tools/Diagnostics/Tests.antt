-- ===== src/Tools/Diagnostics/Tests.antt =====
-- Runs of the diagnostic tools and of the tools on a server, and the theorems at inputs.
use pgsentinel_mcp.Base.Int.{pos}
use pgsentinel_mcp.Base.{
  List, [], lit, ◌∷◌, ◌≡◌, Text, contains, true, some, equal, ◌⊎◌, strip, lower, refl,
}
use pgsentinel_mcp.Base.Result.{ok}
use pgsentinel_mcp.Base.Dict.{Dict, lookup}
use pgsentinel_mcp.Vault.Data.{new_server, ServerDef}
use pgsentinel_mcp.Remote.Client.{Runner}
use pgsentinel_mcp.Remote.Client.Asked.{AsksOnly}
use pgsentinel_mcp.Remote.Connection.{is_zero}
use pgsentinel_mcp.Tools.Logs.{log_access_error}
use pgsentinel_mcp.Tools.Containers.{
  container_logs, search_logs, get_recent_errors, docker_containers, Containers, health_overview,
}
use pgsentinel_mcp.Tools.Containers.Laws.{log_tools-IsAllowed, docker_containers-listed}
use pgsentinel_mcp.Tools.Diagnostics.{
  get_container_image_info, container_status, get_container_restart_count, get_logs_since_deploy,
  ensure_allowed_log_name, get_deployment_info, int_or_zero,
}
use pgsentinel_mcp.Tools.Diagnostics.Laws.{
  IsAllowed, diagnostics-IsAllowed, ensure_allowed_log_name-log_access_error, verdict,
}
use pgsentinel_mcp.Tools.Diagnostics.Groups.{ErrorGroups, most_common, normalize_error}

abbrev one_allowed : ServerDef
one_allowed = record (new_server (lit "i") (lit "n")) { allowed_containers = lit "web" ∷ [] }

abbrev listing : Runner
listing args check = ok (record {
  command_label = [];
  exit_code = pos 0;
  stdout = lit "web|Up 2 days|nginx\ndb|Exited|pg\n";
  stderr = [];
})

server_runs : Unit {0}
unfolding is_zero docker_containers health_overview lit contains equal lookup get_deployment_info
    int_or_zero strip normalize_error lower most_common
server_runs = tt

abbrev seen : Containers
seen = record { server = lit "n"; containers = (lit "web", lit "Up 2 days") ∷ [] }

only_web : (docker_containers listing [] one_allowed []).0 ≡ ok seen
unfolding server_runs
only_web = refl

web_found : lookup (lit "web") seen.containers ≡ some (lit "Up 2 days")
unfolding server_runs
web_found = refl

docker_containers-listed_example :
    (one_allowed.allow_all_containers ≡ true)
    ⊎ (contains one_allowed.allowed_containers (lit "web") ≡ true)
docker_containers-listed_example =
    docker_containers-listed listing [] one_allowed (lit "web") [] (lit "Up 2 days") only_web
      web_found

log_tools-IsAllowed_example :
    AsksOnly (IsAllowed one_allowed) (container_logs listing [] one_allowed (lit "web") (pos 9)) []
    × AsksOnly
        (IsAllowed one_allowed)
        (search_logs listing [] one_allowed (lit "web") (lit "x") (pos 9))
        []
    × AsksOnly
        (IsAllowed one_allowed)
        (get_recent_errors listing [] one_allowed (lit "web") (pos 9))
        []
log_tools-IsAllowed_example =
    log_tools-IsAllowed listing [] one_allowed (lit "web") (lit "x") (pos 9) []

diagnostics-IsAllowed_example :
    AsksOnly (IsAllowed one_allowed) (get_container_image_info listing one_allowed (lit "web")) []
    × AsksOnly (IsAllowed one_allowed) (container_status listing one_allowed (lit "web")) []
    × AsksOnly
        (IsAllowed one_allowed)
        (get_container_restart_count listing one_allowed (lit "web"))
        []
    × AsksOnly
        (IsAllowed one_allowed)
        (get_logs_since_deploy listing one_allowed (lit "web") (pos 9))
        []
diagnostics-IsAllowed_example = diagnostics-IsAllowed listing one_allowed (lit "web") (pos 9) []

ensure_allowed_log_name-log_access_error_example :
    ensure_allowed_log_name one_allowed (lit "db") []
    ≡ (verdict (log_access_error one_allowed (lit "db")), [])
ensure_allowed_log_name-log_access_error_example =
    ensure_allowed_log_name-log_access_error one_allowed (lit "db") []

abbrev repeated : List Text
repeated = lit "a" ∷ lit "b" ∷ lit "b" ∷ []

-- A log of three lines, two of them the same error.
abbrev failing : Runner
failing args check = ok (record {
  command_label = [];
  exit_code = pos 0;
  stdout = lit "error a\nerror b\nerror  b";
  stderr = [];
})

abbrev grouped : ErrorGroups
grouped = record {
  log_name = lit "web";
  total = 3;
  groups = (lit "error b", 2) ∷ (lit "error a", 1) ∷ [];
}

ranked : most_common repeated ≡ (lit "b", 2) ∷ (lit "a", 1) ∷ []
unfolding server_runs
ranked = refl

-- A container that is not allowed is listed here.
all_deployed :
    (health_overview listing [] one_allowed []).0
    ≡ ok (record {
      ok = true;
      server = lit "n";
      connection_mode = lit "ssh";
      container_count = 2;
      containers = lit "web" ∷ lit "db" ∷ [];
    })
unfolding server_runs
all_deployed = refl

traceback : normalize_error (lit "boom  Traceback (most)") ≡ lit "boom "
unfolding server_runs
traceback = refl
