-- ===== src/Tools/Diagnostics.antt =====
-- app/tools/safe_diagnostics.py: the diagnostic tools that ask a server. `patterns` are the masking
-- patterns in use. The two tools that read the program's own files are left out but for their
-- checks.
pub mod Groups
pub mod Database
pub mod Laws
mod Tests
use pgsentinel_mcp.Base.Int.{ℤ, pos, negsuc}
use pgsentinel_mcp.Base.Dict.{Dict, insert, lookup}
use pgsentinel_mcp.Base.Exec.{pure, raise, raise_when, ◌>>=◌, ◌>>◌}
use pgsentinel_mcp.Vault.Data.{ServerDef}
use pgsentinel_mcp.Security.{no_items, clamp_limit}
use pgsentinel_mcp.Masking.{mask_text}
use pgsentinel_mcp.Remote.Command.{Arg, text, number}
use pgsentinel_mcp.Remote.Connection.{CommandResult, result_ok}
use pgsentinel_mcp.Remote.Client.{
  Runner, Asks, Fault, container_refused, log_refused, module_refused, source_refused,
  source_missing, secure,
}
use pgsentinel_mcp.Remote.Client.Docker.{words_of}
use pgsentinel_mcp.Remote.Adapter.{
  answer, AdapterStatus, get_docker_containers, get_container_status, get_disk_usage,
  get_memory_usage, get_uptime,
}
use pgsentinel_mcp.Base.{
  Text, ℕ, zero, suc, ◌+◌, ◌*◌, ◌-◌, Bool, true, false, not, ◌&&◌, Option, none, some, List, [],
  ◌∷◌, ◌++◌, lit, contains, is_empty, strip, eqb, all, is_digit, keep, if◌then◌else◌, split_max,
  split_lines, nth_or, length,
}

-- ALLOWED_SOURCE_FILES
abbrev allowed_source_files : List Text
allowed_source_files =
    lit "README.md"
    ∷ lit "docs/specs.md"
    ∷ lit "docs/deployment.md"
    ∷ lit "docs/testing.md"
    ∷ lit "app/main.py"
    ∷ lit "app/mcp/tools.py"
    ∷ []

-- ALLOWED_PY_MODULES
abbrev allowed_py_modules : List Text
allowed_py_modules =
    lit "app.main"
    ∷ lit "app.mcp.tools"
    ∷ lit "app.tools.diagnostics"
    ∷ lit "app.tools.logs"
    ∷ lit "app.tools.postgres"
    ∷ []

unfoldable pub ensure_allowed_container : ServerDef → Text → Asks (Unit {0})
ensure_allowed_container t container =
    if t.allow_all_containers
    then pure tt
    else (raise_when
          (not (no_items t.allowed_containers) && not (contains t.allowed_containers container))
          (container_refused container)
        >> raise_when (no_items t.allowed_containers) (container_refused container))

unfoldable pub ensure_allowed_log_name : ServerDef → Text → Asks (Unit {0})
unfolding ensure_allowed_container
ensure_allowed_log_name t log_name = do
  raise_when (not (no_items t.allowed_log_sources) && not (contains t.allowed_log_sources log_name))
      (log_refused log_name)
  ensure_allowed_container t log_name

-- `norm` is `os.path.normpath` of the path, with `/` for `\`; `exists` tells which files there are.
unfoldable pub ensure_allowed_source_file : (Text → Text) → (Text → Bool) → Text → Asks (Unit {0})
ensure_allowed_source_file norm exists path = do
  raise_when (not (contains allowed_source_files (norm path))) (source_refused path)
  raise_when (not (exists (norm path))) (source_missing path)

unfoldable pub ensure_allowed_module : Text → Asks (Unit {0})
ensure_allowed_module name =
    raise_when (not (contains allowed_py_modules name)) (module_refused name)

pub record Deployment : Type 0 where
  pub server : Text
  pub connection_mode : Text
  pub container_count : ℕ
  pub containers : Dict Text
  pub uptime : Text
  pub disk_usage : Text
  pub memory_usage : Text

pub record ImageInfo : Type 0 where
  pub container : Text
  pub configured_image : Text
  pub image_id : Text
  pub ok : Bool

pub record RestartCount : Type 0 where
  pub container : Text
  pub restart_count : ℤ
  pub ok : Bool

pub record DeployLogs : Type 0 where
  pub container : Text
  pub started_at : Text
  pub limit : ℤ
  pub lines : List Text
  pub ok : Bool

unfoldable digits_value : ℕ → Text → ℕ
digits_value a [] = a
digits_value a (c ∷ s) = digits_value (a * 10 + (c - b'0')) s

abbrev natural : Text → Option ℕ
natural s = if not (is_empty s) && all is_digit s then some (digits_value 0 s) else none

abbrev negated : Option ℕ → ℤ
negated none = pos 0
negated (some zero) = pos 0
negated (some (suc n)) = negsuc n

abbrev counted : Option ℕ → ℤ
counted none = pos 0
counted (some n) = pos n

-- `int(s)`, or 0 where it raises: blanks around it, one sign, and digits without `_` between them
unfoldable pub int_or_zero : Text → ℤ
unfolding digits_value is_digit strip
int_or_zero s = elim (strip s) [
  | [] ↦ pos 0
  | c ∷ rest ↦
      if eqb c b'-'
      then negated (natural rest)
      else if eqb c b'+'
      then counted (natural rest)
      else counted (natural (c ∷ rest))
]

abbrev or_empty : Option Text → Text
or_empty none = []
or_empty (some s) = s

unfoldable pub started_at_of : AdapterStatus → Text
unfolding strip
started_at_of status = strip (or_empty status.started_at)

-- The patterns of `_mask_and_split`
abbrev log_patterns : List Text
log_patterns =
    lit "password=" ∷ lit "token=" ∷ lit "Bearer " ∷ lit "Authorization:" ∷ lit "DB_PASSWORD=" ∷ []

unfoldable pub mask_and_split : Text → List Text
unfolding mask_text split_lines strip
mask_and_split raw =
    keep (λ line. not (is_empty (strip line))) (split_lines (mask_text raw log_patterns))

abbrev pub since_args : Text → ℤ → Text → List Arg
since_args started_at capped container =
    if is_empty started_at
    then (text (lit "docker")
        ∷ text (lit "logs")
        ∷ text (lit "--tail")
        ∷ number capped
        ∷ text container
        ∷ [])
    else (text (lit "docker")
        ∷ text (lit "logs")
        ∷ text (lit "--since")
        ∷ text started_at
        ∷ text (lit "--tail")
        ∷ number capped
        ∷ text container
        ∷ [])

abbrev pub image_args : Text → List Arg
image_args container = words_of (
    lit "docker"
    ∷ lit "inspect"
    ∷ lit "--format"
    ∷ lit "{{.Name}}|{{.Config.Image}}|{{.Image}}"
    ∷ container
    ∷ [])

abbrev pub restart_args : Text → List Arg
restart_args container = words_of (
    lit "docker"
    ∷ lit "inspect"
    ∷ lit "--format"
    ∷ lit "{{.Name}}|{{.RestartCount}}"
    ∷ container
    ∷ [])

module _ (runner : Runner) (t : ServerDef) where
  -- The containers are not restricted to those that are allowed.
  unfoldable pub get_deployment_info : Asks Deployment
  unfolding get_docker_containers get_uptime get_disk_usage get_memory_usage strip
  get_deployment_info = do
    containers ← get_docker_containers runner
    uptime ← get_uptime runner
    disk_usage ← get_disk_usage runner
    memory_usage ← get_memory_usage runner
    pure (record {
      server = t.name;
      connection_mode = t.connection_mode;
      container_count = length containers;
      containers = containers;
      uptime = strip uptime;
      disk_usage = strip disk_usage;
      memory_usage = strip memory_usage;
    })

  unfoldable pub get_container_image_info : Text → Asks ImageInfo
  unfolding ensure_allowed_container split_max strip
  get_container_image_info container = do
    ensure_allowed_container t container
    result ← answer runner (image_args container)
    let parts = split_max 2 b'|' (strip result.stdout)
    pure (record {
      container = container;
      configured_image = nth_or [] 1 parts;
      image_id = nth_or [] 2 parts;
      ok = result_ok result;
    })

  unfoldable pub container_status : Text → Asks AdapterStatus
  unfolding ensure_allowed_container get_container_status
  container_status container = do
    ensure_allowed_container t container
    get_container_status runner container

  unfoldable pub get_container_restart_count : Text → Asks RestartCount
  unfolding ensure_allowed_container split_max strip int_or_zero
  get_container_restart_count container = do
    ensure_allowed_container t container
    result ← answer runner (restart_args container)
    let parts = split_max 1 b'|' (strip result.stdout)
    pure (record {
      container = container;
      restart_count = int_or_zero (nth_or [] 1 parts);
      ok = result_ok result;
    })

  unfoldable pub get_logs_since_deploy : Text → ℤ → Asks DeployLogs
  unfolding ensure_allowed_container get_container_status clamp_limit mask_and_split started_at_of
  get_logs_since_deploy container limit = do
    ensure_allowed_container t container
    status ← get_container_status runner container
    let started_at = started_at_of status
    capped ← secure (clamp_limit (some limit) (pos 1000) (pos 200))
    result ← answer runner (since_args started_at capped container)
    pure (record {
      container = container;
      started_at = started_at;
      limit = capped;
      lines = mask_and_split result.stdout;
      ok = result_ok result;
    })
