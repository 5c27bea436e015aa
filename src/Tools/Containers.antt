-- ===== src/Tools/Containers.antt =====
-- app/tools/docker.py, app/tools/health.py and app/tools/logs.py: the tools on a server, with a
-- target. `patterns` are the masking patterns in use.
pub mod Laws
use pgsentinel_mcp.Base.Int.{ℤ, pos}
use pgsentinel_mcp.Base.Dict.{Dict}
use pgsentinel_mcp.Base.Exec.{pure, ◌>>=◌}
use pgsentinel_mcp.Vault.Data.{ServerDef}
use pgsentinel_mcp.Security.{no_items}
use pgsentinel_mcp.Masking.{mask_text}
use pgsentinel_mcp.Regex.{search_in}
use pgsentinel_mcp.Tools.Logs.{LogError, log_access_error}
use pgsentinel_mcp.Remote.Client.{Runner, Asks}
use pgsentinel_mcp.Remote.Client.Logs.{error_re, mentions, drop, last_of}
use pgsentinel_mcp.Remote.Adapter.{
  answer, test_connection, get_docker_containers, get_container_logs,
}
use pgsentinel_mcp.Base.{
  Text, ℕ, zero, suc, Bool, Option, none, some, List, [], ◌∷◌, lit, contains, keep, length, eqb,
  if◌then◌else◌, split_on, join_with, map,
}

-- {c: s for c, s in d.items() if c in allowed}
unfoldable pub allowed_entries : List Text → Dict Text → Dict Text
allowed_entries allowed [] = []
allowed_entries allowed ((c, s) ∷ d) =
    let rest = allowed_entries allowed d in if contains allowed c then (c, s) ∷ rest else rest

abbrev pub visible : ServerDef → Dict Text → Dict Text
visible t containers =
    if t.allow_all_containers
    then containers
    else if no_items t.allowed_containers
    then []
    else allowed_entries t.allowed_containers containers

pub record Containers : Type 0 where
  pub server : Text
  pub containers : Dict Text

abbrev keys : Dict Text → List Text
keys [] = []
keys ((k, v) ∷ d) = k ∷ keys d

-- xs[:n]
abbrev take : ℕ → List Text → List Text
take zero xs = []
take (suc n) [] = []
take (suc n) (x ∷ xs) = x ∷ take n xs

pub record HealthOverview : Type 0 where
  pub ok : Bool
  pub server : Text
  pub connection_mode : Text
  pub container_count : ℕ
  pub containers : List Text

-- What a log tool answers: a refusal, or how many lines it found, and its text.
pub data LogAnswer : Type 0 where
  refused : LogError → LogAnswer
  output : ℤ → Text → LogAnswer
  found : ℕ → Text → LogAnswer

abbrev pub text_lines : Text → List Text
text_lines = split_on (λ c. eqb c b'\n')

-- errors[-limit:], for a limit of any sign: 0 keeps all, and -n drops the first n
abbrev pub errors_end : ℤ → List Text → List Text
errors_end (pos zero) errors = errors
errors_end (pos (suc n)) errors = last_of (suc n) errors
errors_end (ℤ.negsuc n) errors = drop (suc n) errors

module _ (runner : Runner) (patterns : List Text) (t : ServerDef) where
  unfoldable pub docker_containers : Asks Containers
  unfolding get_docker_containers allowed_entries
  docker_containers = do
    all_containers ← get_docker_containers runner
    pure (record { server = t.name; containers = visible t all_containers })

  -- The containers are not restricted to those that are allowed.
  unfoldable pub health_overview : Asks HealthOverview
  unfolding test_connection get_docker_containers
  health_overview = do
    connected ← test_connection runner (some t)
    containers ← get_docker_containers runner
    pure (record {
      ok = connected;
      server = t.name;
      connection_mode = t.connection_mode;
      container_count = length containers;
      containers = take 20 (keys containers);
    })

  unfoldable pub container_logs : Text → ℤ → Asks LogAnswer
  unfolding log_access_error mask_text get_container_logs
  container_logs container lines = elim (log_access_error t container) [
    | some e ↦ pure (refused e)
    | none ↦ get_container_logs runner container lines >>= λ raw.
        pure (output lines (mask_text raw patterns))
  ]

  unfoldable pub search_logs : Text → Text → ℤ → Asks LogAnswer
  unfolding log_access_error mask_text get_container_logs mentions split_on join_with
  search_logs log_name keyword lines = elim (log_access_error t log_name) [
    | some e ↦ pure (refused e)
    | none ↦ get_container_logs runner log_name lines >>= λ raw.
        let matched = keep (mentions keyword) (text_lines raw) in
        pure (found (length matched) (mask_text (join_with (b'\n' ∷ []) matched) patterns))
  ]

  unfoldable pub get_recent_errors : Text → ℤ → Asks LogAnswer
  unfolding log_access_error mask_text get_container_logs error_re search_in split_on join_with
      last_of
  get_recent_errors log_name limit = elim (log_access_error t log_name) [
    | some e ↦ pure (refused e)
    | none ↦ get_container_logs runner log_name (pos 500) >>= λ raw.
        let errors = keep (search_in error_re) (text_lines raw) in
        pure (
          found (length errors)
            (mask_text (join_with (b'\n' ∷ []) (errors_end limit errors)) patterns))
  ]
