-- ===== src/Remote/Adapter.antt =====
-- app/remote/connection.py: what `ConnectionAdapter` asks a server, each time without `check`.
use pgsentinel_mcp.Base.Int.{ℤ}
use pgsentinel_mcp.Base.Dict.{Dict, insert}
use pgsentinel_mcp.Base.Exec.{pure, ◌>>=◌}
use pgsentinel_mcp.Vault.Data.{ServerDef}
use pgsentinel_mcp.Remote.Command.{Arg, text, number}
use pgsentinel_mcp.Remote.Connection.{CommandResult, result_ok}
use pgsentinel_mcp.Remote.Client.{Runner, Asks, ask}
use pgsentinel_mcp.Remote.Client.Docker.{words_of}
use pgsentinel_mcp.Base.{
  Text, ℕ, Bool, true, false, Option, none, some, List, [], ◌∷◌, ◌++◌, ◌==◌, lit, eqb, leb, strip,
  is_empty, if◌then◌else◌, split_on, split_max, nth_or, length, ◌&&◌,
}

-- The answer of `get_container_status`; `image` and `started_at` are missing for one that is
-- not known.
pub record AdapterStatus : Type 0 where
  pub name : Text
  pub status : Text
  pub image : Option Text
  pub started_at : Option Text

abbrev newline : ℕ → Bool
newline c = eqb c b'\n'

-- A line of `docker ps`: the name and the status, where it has both.
abbrev add_container : List Text → Dict Text → Dict Text
add_container (name ∷ status ∷ rest) containers = insert name status containers
add_container _ containers = containers

unfoldable pub containers_of : Dict Text → List Text → Dict Text
unfolding split_max strip insert
containers_of containers [] = containers
containers_of containers (line ∷ lines) =
    containers_of
      (if is_empty (strip line)
        then containers
        else add_container (split_max 2 b'|' line) containers)
      lines

-- The fields of `docker inspect`, where there are three at least.
unfoldable pub adapter_status : Text → CommandResult → AdapterStatus
unfolding split_max strip
adapter_status container r =
    let parts = split_max 3 b'|' (strip r.stdout) in
    if result_ok r && leb 3 (length parts)
    then record {
      name = container;
      status = nth_or [] 2 parts;
      image = some (nth_or [] 1 parts);
      started_at = some (nth_or [] 3 parts);
    }
    else record { name = container; status = lit "unknown"; image = none; started_at = none }

-- `server is None or connection_mode == "local"`
abbrev is_local : Option ServerDef → Bool
is_local none = true
is_local (some srv) = srv.connection_mode == lit "local"

-- The arguments that run psql in a container.
unfoldable pub psql_args : Text → Text → ℤ → Text → Text → Text → List Arg
psql_args container host port user db sql =
    words_of (
      lit "docker"
      ∷ lit "exec"
      ∷ lit "-e"
      ∷ lit "PGPASSWORD"
      ∷ container
      ∷ lit "psql"
      ∷ lit "-h"
      ∷ host
      ∷ lit "-p"
      ∷ [])
    ++ (number port
        ∷ words_of (
            lit "-U" ∷ user ∷ lit "-d" ∷ db ∷ lit "-X" ∷ lit "-A" ∷ lit "-t" ∷ lit "-c" ∷ sql ∷ []))

abbrev pub status_args : Text → List Arg
status_args container = words_of (
    lit "docker"
    ∷ lit "inspect"
    ∷ lit "--format"
    ∷ lit "{{.Name}}|{{.Config.Image}}|{{.State.Status}}|{{.State.StartedAt}}"
    ∷ container
    ∷ [])

abbrev pub tail_args : ℤ → Text → List Arg
tail_args lines container =
    text (lit "docker")
    ∷ text (lit "logs")
    ∷ text (lit "--tail")
    ∷ number lines
    ∷ text container
    ∷ []

module _ (runner : Runner) where
  abbrev pub answer : List Arg → Asks CommandResult
  answer args = ask runner args false

  unfoldable pub test_connection : Option ServerDef → Asks Bool
  test_connection server = do
    result ← answer (
        if is_local server
        then words_of
            (lit "docker" ∷ lit "version" ∷ lit "--format" ∷ lit "{{.Server.Version}}" ∷ [])
        else words_of (lit "true" ∷ []))
    pure (result_ok result)

  unfoldable pub get_docker_containers : Asks (Dict Text)
  unfolding containers_of split_on strip
  get_docker_containers = do
    result ← answer (
        words_of (
          lit "docker"
          ∷ lit "ps"
          ∷ lit "--format"
          ∷ lit "{{.Names}}|{{.Status}}|{{.Image}}"
          ∷ lit "--no-trunc"
          ∷ []))
    pure (containers_of [] (split_on newline (strip result.stdout)))

  unfoldable pub get_container_status : Text → Asks AdapterStatus
  unfolding adapter_status
  get_container_status container = do
    result ← answer (status_args container)
    pure (adapter_status container result)

  unfoldable pub get_container_logs : Text → ℤ → Asks Text
  get_container_logs container lines = do
    result ← answer (tail_args lines container)
    pure result.stdout

  abbrev stdout_of : List Text → Asks Text
  stdout_of args = answer (words_of args) >>= λ result. pure result.stdout

  unfoldable pub get_disk_usage : Asks Text
  get_disk_usage = stdout_of (lit "df" ∷ lit "-P" ∷ lit "-h" ∷ lit "/" ∷ [])

  unfoldable pub get_memory_usage : Asks Text
  get_memory_usage = stdout_of (lit "free" ∷ lit "-m" ∷ [])

  unfoldable pub get_uptime : Asks Text
  get_uptime = stdout_of (lit "uptime" ∷ lit "-p" ∷ [])
