-- ===== src/Remote/Client/Logs.antt =====
-- app/remote/log_reader.py: `RemoteLogReader`.
use pgsentinel_mcp.Base.Int.{ℤ, pos, min_ℤ}
use pgsentinel_mcp.Base.Exec.{pure, ◌>>=◌}
use pgsentinel_mcp.Config.{PgSentinelConfig, LogConfig}
use pgsentinel_mcp.Masking.{mask_text}
use pgsentinel_mcp.Regex.{Regex, seq, alt, boundary, word, any_word, search_in}
use pgsentinel_mcp.Security.{ensure_allowed_log, clamp_limit}
use pgsentinel_mcp.Remote.Client.{Runner, Asks, secure, seconds}
use pgsentinel_mcp.Remote.Client.Docker.{logs}
use pgsentinel_mcp.Base.{
  Text, ℕ, zero, suc, ◌-◌, Bool, Option, none, some, List, [], ◌∷◌, lit, lower, has_substring, keep,
  contains, map, length, split_lines, is_empty, if◌then◌else◌,
}

-- ERROR_RE
unfoldable pub error_re : Regex
unfolding any_word word lit
error_re =
    alt
      (any_word
        (lit "error" ∷ lit "exception" ∷ lit "traceback" ∷ lit "sqlstate" ∷ lit "fatal" ∷ []))
      (alt (seq boundary (seq (word (lit "500")) boundary))
        (any_word (lit "timeout" ∷ lit "connection refused" ∷ lit "permission denied" ∷ [])))

pub record LogLines : Type 0 where
  pub source : Text
  pub lines : List Text
  pub count : ℕ

-- needle in line.lower()
unfoldable pub mentions : Text → Text → Bool
unfolding lower has_substring
mentions needle line = has_substring (lower needle) (lower line)

-- list(dict.fromkeys(xs)): each text at its first place
unfoldable pub deduped_from : List Text → List Text → List Text
deduped_from seen [] = []
deduped_from seen (x ∷ xs) =
    let rest = deduped_from seen xs in
    let new = x ∷ deduped_from (x ∷ seen) xs in if contains seen x then rest else new

abbrev pub drop {ℓ} : {A : Type ℓ} → ℕ → List A → List A
drop zero xs = xs
drop (suc n) [] = []
drop (suc n) (x ∷ xs) = drop n xs

-- xs[-n:], for a positive n
unfoldable pub last_of {ℓ} : {A : Type ℓ} → ℕ → List A → List A
last_of n xs = drop (length xs - n) xs

-- `max_lines or max_log_lines`, where a number that is present is positive
abbrev pub own_limit : ℤ → Option ℤ → ℤ
own_limit maximum none = maximum
own_limit maximum (some (pos zero)) = maximum
own_limit maximum (some n) = n

abbrev pub max_lines_of : PgSentinelConfig → LogConfig → ℤ
max_lines_of c log =
    min_ℤ (own_limit c.security.max_log_lines log.max_lines) c.security.max_log_lines

abbrev filtered : Option Text → List Text → List Text
filtered none lines = lines
filtered (some needle) lines = if is_empty needle then lines else keep (mentions needle) lines

module _ (runner : Runner) (c : PgSentinelConfig) where
  abbrev masked : List Text → List Text
  masked = map (λ line. mask_text line c.masking.patterns)

  unfoldable pub get_container_logs : Text → Option ℤ → Option Text → Asks LogLines
  unfolding logs split_lines mentions
  get_container_logs container lines level_filter = do
    output ← logs runner c container lines
    let entries = filtered level_filter (split_lines output)
    pure (record { source = container; lines = entries; count = length entries })

  unfoldable pub search_logs : Text → Text → Option ℤ → Asks LogLines
  unfolding logs split_lines mentions deduped_from ensure_allowed_log clamp_limit min_ℤ
  search_logs log_name keyword lines = do
    log ← secure (ensure_allowed_log c.logs.allowed_logs log_name)
    limit ← secure (clamp_limit lines (max_lines_of c log) (max_lines_of c log))
    output ← logs runner c log.container (some limit)
    let found = deduped_from [] (keep (mentions keyword) (split_lines output))
    pure (record { source = log_name; lines = masked found; count = length found })

  unfoldable pub get_recent_errors : Text → Option ℤ → Asks LogLines
  unfolding logs split_lines error_re search_in last_of ensure_allowed_log clamp_limit min_ℤ
  get_recent_errors log_name limit = do
    log ← secure (ensure_allowed_log c.logs.allowed_logs log_name)
    search_limit ←
        secure (clamp_limit limit (max_lines_of c log) (min_ℤ (pos 100) (max_lines_of c log)))
    output ← logs runner c log.container (some (max_lines_of c log))
    let found = last_of (seconds search_limit) (keep (search_in error_re) (split_lines output))
    pure (record { source = log_name; lines = masked found; count = length found })
