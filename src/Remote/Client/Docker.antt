-- ===== src/Remote/Client/Docker.antt =====
-- app/remote/docker_client.py: `RemoteDockerClient`. The share of memory in use is left out.
use pgsentinel_mcp.Base.Int.{ℤ}
use pgsentinel_mcp.Base.Exec.{pure, ◌>>=◌, ◌>>◌}
use pgsentinel_mcp.Config.{PgSentinelConfig}
use pgsentinel_mcp.Masking.{mask_text}
use pgsentinel_mcp.Security.{ensure_allowed_container, clamp_limit}
use pgsentinel_mcp.Remote.Command.{Arg, text, number}
use pgsentinel_mcp.Remote.Connection.{CommandResult, result_ok}
use pgsentinel_mcp.Remote.Client.{Runner, Asks, ask, secure}
use pgsentinel_mcp.Base.{
  Text, Bool, false, true, Option, List, [], ◌∷◌, ◌++◌, lit, strip, is_empty, eqb, if◌then◌else◌,
  split_lines, split_max, split_words, nth_or,
}

pub record ContainerStatus : Type 0 where
  pub name : Text
  pub status : Text
  pub image : Text
  pub started_at : Text

-- s.lstrip("/")
unfoldable lstrip_slash : Text → Text
lstrip_slash [] = []
lstrip_slash (c ∷ s) = let rest = lstrip_slash s in if eqb c b'/' then rest else c ∷ s

-- `s or default`
abbrev or_else : Text → Text → Text
or_else s default = if is_empty s then default else s

abbrev pub words_of : List Text → List Arg
words_of [] = []
words_of (w ∷ ws) = text w ∷ words_of ws

abbrev inspect_args : Text → List Arg
inspect_args container = words_of (
    lit "docker"
    ∷ lit "inspect"
    ∷ lit "--format"
    ∷ lit "{{.Name}}|{{.Config.Image}}|{{.State.Status}}|{{.State.StartedAt}}"
    ∷ container
    ∷ [])

-- The fields of the first line, padded with empty texts.
unfoldable status_of : Text → CommandResult → ContainerStatus
unfolding lstrip_slash split_lines split_max strip
status_of container r =
    if result_ok r
    then (let parts = split_max 3 b'|' (nth_or [] 0 (split_lines (strip r.stdout))) in
        record {
          name = or_else (lstrip_slash (nth_or [] 0 parts)) container;
          status = or_else (nth_or [] 2 parts) (lit "unknown");
          image = nth_or [] 1 parts;
          started_at = nth_or [] 3 parts;
        })
    else record { name = container; status = lit "missing"; image = []; started_at = [] }

abbrev pub log_args : ℤ → Text → List Arg
log_args limit container =
    text (lit "docker")
    ∷ text (lit "logs")
    ∷ text (lit "--tail")
    ∷ number limit
    ∷ text container
    ∷ []

module _ (runner : Runner) (c : PgSentinelConfig) where
  unfoldable docker_available : Asks Bool
  docker_available = do
    result ←
        ask runner
          (words_of
            (lit "docker" ∷ lit "version" ∷ lit "--format" ∷ lit "{{.Server.Version}}" ∷ []))
          false
    pure (result_ok result)

  unfoldable pub container_status : Text → Asks ContainerStatus
  unfolding status_of ensure_allowed_container
  container_status container = do
    secure (ensure_allowed_container c.docker.allowed_containers container)
    result ← ask runner (inspect_args container) false
    pure (status_of container result)

  -- The containers of the list, in their order.
  unfoldable statuses : List Text → Asks (List ContainerStatus)
  unfolding container_status
  statuses [] = pure []
  statuses (container ∷ rest) = do
    status ← container_status container
    others ← statuses rest
    pure (status ∷ others)

  unfoldable pub allowed_container_status : Asks (List ContainerStatus)
  unfolding statuses
  allowed_container_status = statuses c.docker.allowed_containers

  unfoldable pub logs : Text → Option ℤ → Asks Text
  unfolding ensure_allowed_container clamp_limit mask_text
  logs container lines = do
    secure (ensure_allowed_container c.docker.allowed_containers container)
    limit ← secure (clamp_limit lines c.security.max_log_lines c.security.max_log_lines)
    result ← ask runner (log_args limit container) true
    pure (mask_text (result.stdout ++ result.stderr) c.masking.patterns)

  -- The fifth column of the second line.
  unfoldable disk_of : CommandResult → Text
  unfolding split_lines split_words strip
  disk_of r =
      if result_ok r
      then or_else (nth_or [] 4 (split_words (nth_or [] 1 (split_lines (strip r.stdout)))))
          (lit "unknown")
      else lit "unknown"

  unfoldable disk_usage : Asks Text
  unfolding disk_of
  disk_usage = do
    result ← ask runner (words_of (lit "df" ∷ lit "-P" ∷ lit "-h" ∷ lit "/" ∷ [])) false
    pure (disk_of result)

  unfoldable uptime : Asks Text
  unfolding strip
  uptime = do
    result ← ask runner (words_of (lit "uptime" ∷ lit "-p" ∷ [])) false
    pure (if result_ok result then or_else (strip result.stdout) (lit "unknown") else lit "unknown")
