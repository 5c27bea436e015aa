-- ===== src/Remote/Client/Bounds.antt =====
-- app/remote/log_reader.py and app/remote/postgres_client.py: the commands that are asked for.
use pgsentinel_mcp.Security.Limits.{clamp_limit-pos, clamp_limit-le_maximum}
use pgsentinel_mcp.Remote.Client.Asked.{AsksOnly, last-AsksOnly, guard-AsksOnly, ask-AsksOnly}
use pgsentinel_mcp.Base.Result.{ok}
use pgsentinel_mcp.Remote.Client.Docker.{logs, log_args}
use pgsentinel_mcp.Remote.Client.Logs.{
  search_logs, get_container_logs, get_recent_errors, max_lines_of,
}
use pgsentinel_mcp.Base.Int.{ℤ, pos, ◌≤ℤ◌, min_ℤ}
use pgsentinel_mcp.Remote.Command.{Arg}
use pgsentinel_mcp.Config.Valid.{IsValid}
use pgsentinel_mcp.Base.{
  List, Text, ◌≡◌, Option, contains, true, Bool-cases, inl, some, inr, arith, refl,
}
use pgsentinel_mcp.Security.{ensure_allowed_container, ensure_allowed_log, clamp_limit}
use pgsentinel_mcp.Config.{PgSentinelConfig}
use pgsentinel_mcp.Remote.Client.{Runner, ask}

-- One read of the logs of a container that the configuration lists, of as many lines as it allows.
pub record IsLogRead (c : PgSentinelConfig) (args : List Arg) : Type 0 where
  pub container : Text
  pub limit : ℤ
  pub text : args ≡ log_args limit container
  pub listed : contains c.docker.allowed_containers container ≡ true
  pub bounded : (pos 1 ≤ℤ limit) × (limit ≤ℤ c.security.max_log_lines)

ensure_allowed_container-listed :
    (allowed : List Text) (container : Text) {r : Text}
    → ensure_allowed_container allowed container ≡ ok r
    → contains allowed container ≡ true
unfolding ensure_allowed_container
ensure_allowed_container-listed allowed container h =
    elim (Bool-cases (contains allowed container)) [
      | inl e ↦ e
      | inr e ↦ absurd (ground (arith, e, h))
    ]

module _ (runner : Runner) (c : PgSentinelConfig) (valid : IsValid c) where
  logs-reads :
      (container : Text) (lines : Option ℤ) (s : List (List Arg))
      → AsksOnly (IsLogRead c) (logs runner c container lines) s
  unfolding logs
  logs-reads container lines s =
      guard-AsksOnly _ (ensure_allowed_container c.docker.allowed_containers container) _ s
        (λ r listed.
          guard-AsksOnly _ (clamp_limit lines c.security.max_log_lines c.security.max_log_lines) _ s
            (λ limit clamped.
              last-AsksOnly _ (ask runner (log_args limit container) true) _ s
                (ask-AsksOnly _ runner (log_args limit container) true s (record {
                  container = container;
                  limit = limit;
                  text = refl;
                  listed =
                      ensure_allowed_container-listed c.docker.allowed_containers container listed;
                  bounded = (
                    clamp_limit-pos lines _ _ clamped valid.log_lines.0 valid.log_lines.0,
                    clamp_limit-le_maximum lines _ _ clamped,
                  );
                }))
                (λ _ _. refl)))

  get_container_logs-reads :
      (container : Text) (lines : Option ℤ) (level_filter : Option Text) (s : List (List Arg))
      → AsksOnly (IsLogRead c) (get_container_logs runner c container lines level_filter) s
  unfolding get_container_logs
  get_container_logs-reads container lines level_filter s =
      last-AsksOnly _ (logs runner c container lines) _ s (logs-reads container lines s)
        (λ _ _. refl)

  search_logs-reads :
      (log_name keyword : Text) (lines : Option ℤ) (s : List (List Arg))
      → AsksOnly (IsLogRead c) (search_logs runner c log_name keyword lines) s
  unfolding search_logs
  search_logs-reads log_name keyword lines s =
      guard-AsksOnly _ (ensure_allowed_log c.logs.allowed_logs log_name) _ s (λ log _.
        guard-AsksOnly _ (clamp_limit lines (max_lines_of c log) (max_lines_of c log)) _ s
          (λ limit _.
            last-AsksOnly _ (logs runner c log.container (some limit)) _ s
              (logs-reads log.container (some limit) s) (λ _ _. refl)))

  get_recent_errors-reads :
      (log_name : Text) (limit : Option ℤ) (s : List (List Arg))
      → AsksOnly (IsLogRead c) (get_recent_errors runner c log_name limit) s
  unfolding get_recent_errors
  get_recent_errors-reads log_name limit s =
      guard-AsksOnly _ (ensure_allowed_log c.logs.allowed_logs log_name) _ s (λ log _.
        guard-AsksOnly _
          (clamp_limit limit (max_lines_of c log) (min_ℤ (pos 100) (max_lines_of c log))) _ s
          (λ n _.
            last-AsksOnly _ (logs runner c log.container (some (max_lines_of c log))) _ s
              (logs-reads log.container (some (max_lines_of c log)) s) (λ _ _. refl)))

  -- For a valid configuration, whatever is asked of the log reader and however it ends: the only
  -- commands that it runs read the log of a container on the list, and between 1 line and the
  -- maximum of the configuration.
  pub log_reader-reads :
      (name text : Text) (n : Option ℤ) (level : Option Text) (s : List (List Arg))
      → AsksOnly (IsLogRead c) (get_container_logs runner c name n level) s
        × AsksOnly (IsLogRead c) (search_logs runner c name text n) s
        × AsksOnly (IsLogRead c) (get_recent_errors runner c name n) s
  log_reader-reads name text n level s = (
    get_container_logs-reads name n level s,
    search_logs-reads name text n s,
    get_recent_errors-reads name n s,
  )
