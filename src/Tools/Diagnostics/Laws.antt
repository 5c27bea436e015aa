-- ===== src/Tools/Diagnostics/Laws.antt =====
-- app/tools/safe_diagnostics.py: what the checks of the diagnostic tools let pass.
use pgsentinel_mcp.Base.Int.{ℤ, pos}
use mathlib.Core.List.{append-nil}
use pgsentinel_mcp.Security.{no_items, clamp_limit}
use pgsentinel_mcp.Base.Result.{Result, ok, err}
use pgsentinel_mcp.Base.{
  Option, List, Text, ◌≡◌, false, ◌++◌, lit, Bool, true, some, not, ◌⊎◌, ◌∷◌, ◌&&◌, [], contains,
  none, refl, if◌then◌else◌, inl, arith, sym, inr,
}
use pgsentinel_mcp.Vault.Data.{ServerDef}
use pgsentinel_mcp.Tools.Logs.{
  LogError, source_not_allowlisted, container_not_allowlisted, log_access_error,
}
use pgsentinel_mcp.Remote.Command.{Arg, text, number}
use pgsentinel_mcp.Remote.Adapter.{status_args, get_container_status}
use pgsentinel_mcp.Base.Exec.{◌>>◌, pure, raise_when}
use pgsentinel_mcp.Tools.Diagnostics.{
  ensure_allowed_container, ensure_allowed_log_name, get_container_image_info, container_status,
  get_container_restart_count, get_logs_since_deploy, since_args, image_args, restart_args,
  started_at_of,
}
use pgsentinel_mcp.Remote.Client.Asked.{
  AsksOnly, ask-AsksOnly, last-AsksOnly, bind-AsksOnly, guard-AsksOnly,
}
use pgsentinel_mcp.Remote.Client.{Runner, Asks, Fault, log_refused, container_refused, ask}

-- How a tool of app/tools/logs.py and one of app/tools/safe_diagnostics.py refuse a log.
abbrev pub verdict : Option LogError → Result Fault (Unit {0})
verdict none = ok tt
verdict (some (source_not_allowlisted name)) = err (log_refused name)
verdict (some (container_not_allowlisted name)) = err (container_refused name)

-- The check of a log in the diagnostic tools decides as the check in the log tools does: it
-- passes where that one has no error, and otherwise refuses the source or the container that it
-- names; it runs nothing.
pub ensure_allowed_log_name-log_access_error :
    (t : ServerDef) (name : Text) (s : List (List Arg))
    → ensure_allowed_log_name t name s ≡ (verdict (log_access_error t name), s)
unfolding ensure_allowed_log_name ensure_allowed_container log_access_error
ensure_allowed_log_name-log_access_error t name s =
    same_check (no_items t.allowed_log_sources) (contains t.allowed_log_sources name)
      t.allow_all_containers (no_items t.allowed_containers) (contains t.allowed_containers name)
  where
    same_check :
        (a b c d e : Bool)
        → (raise_when (not a && not b) (log_refused name)
              >> (if c
                  then pure tt
                  else (raise_when (not d && not e) (container_refused name)
                      >> raise_when d (container_refused name))))
            s
          ≡ (
            verdict (
                if not a && not b
                then some (source_not_allowlisted name)
                else if c
                then none
                else if not d && not e
                then some (container_not_allowlisted name)
                else if d
                then some (container_not_allowlisted name)
                else none),
            s,
          )
    same_check false false c d e = refl
    same_check true b true d e = refl
    same_check false true true d e = refl
    same_check true b false true e = ground arith
    same_check true b false false true = refl
    same_check true b false false false = refl
    same_check false true false true e = ground arith
    same_check false true false false true = refl
    same_check false true false false false = refl

-- A command whose last argument is a container that the target allows.
pub record IsAllowed (t : ServerDef) (args : List Arg) : Type 0 where
  pub container : Text
  pub front : List Arg
  pub ends : args ≡ front ++ (text container ∷ [])
  pub allowed : (t.allow_all_containers ≡ true) ⊎ (contains t.allowed_containers container ≡ true)

since-IsAllowed :
    (t : ServerDef) (started_at : Text) (n : ℤ) (container : Text)
    → (t.allow_all_containers ≡ true) ⊎ (contains t.allowed_containers container ≡ true)
    → IsAllowed t (since_args started_at n container)
since-IsAllowed t [] n container h = record {
  container = container;
  front = text (lit "docker") ∷ text (lit "logs") ∷ text (lit "--tail") ∷ number n ∷ [];
  ends = refl;
  allowed = h;
}
since-IsAllowed t (c ∷ s) n container h = record {
  container = container;
  front =
      text (lit "docker")
      ∷ text (lit "logs")
      ∷ text (lit "--since")
      ∷ text (c ∷ s)
      ∷ text (lit "--tail")
      ∷ number n
      ∷ [];
  ends = refl;
  allowed = h;
}

-- What follows the check of a container may rely on it.
allowed-AsksOnly :
    (P : List Arg → Type 0) {B : Type 0} (t : ServerDef) (container : Text) (k : Asks B)
    (s : List (List Arg))
    → ((t.allow_all_containers ≡ true) ⊎ (contains t.allowed_containers container ≡ true)
        → AsksOnly P k s)
    → AsksOnly P (ensure_allowed_container t container >> k) s
unfolding ensure_allowed_container
allowed-AsksOnly P t container k s h =
    branches t.allow_all_containers (no_items t.allowed_containers)
      (contains t.allowed_containers container) h
  where
    branches :
        (a b c : Bool)
        → ((a ≡ true) ⊎ (c ≡ true) → AsksOnly P k s)
        → AsksOnly P
            ((if a
                then pure tt
                else (raise_when (not b && not c) (container_refused container)
                    >> raise_when b (container_refused container)))
              >> k)
            s
    branches true b c h = h (inl refl)
    branches false true c h = ([], sym (append-nil s), tt)
    branches false false true h = h (inr refl)
    branches false false false h = ([], sym (append-nil s), tt)

module _ (runner : Runner) (t : ServerDef) where
  restart-IsAllowed :
      (container : Text) (s : List (List Arg))
      → AsksOnly (IsAllowed t) (get_container_restart_count runner t container) s
  unfolding get_container_restart_count
  restart-IsAllowed container s = allowed-AsksOnly _ t container _ s (λ allowed.
      last-AsksOnly _ (ask runner (restart_args container) false) _ s
        (ask-AsksOnly _ runner (restart_args container) false s (record {
          container = container;
          front =
              text (lit "docker")
              ∷ text (lit "inspect")
              ∷ text (lit "--format")
              ∷ text (lit "{{.Name}}|{{.RestartCount}}")
              ∷ [];
          ends = refl;
          allowed = allowed;
        }))
        (λ _ _. refl))

  image-IsAllowed :
      (container : Text) (s : List (List Arg))
      → AsksOnly (IsAllowed t) (get_container_image_info runner t container) s
  unfolding get_container_image_info
  image-IsAllowed container s = allowed-AsksOnly _ t container _ s (λ allowed.
      last-AsksOnly _ (ask runner (image_args container) false) _ s
        (ask-AsksOnly _ runner (image_args container) false s (record {
          container = container;
          front =
              text (lit "docker")
              ∷ text (lit "inspect")
              ∷ text (lit "--format")
              ∷ text (lit "{{.Name}}|{{.Config.Image}}|{{.Image}}")
              ∷ [];
          ends = refl;
          allowed = allowed;
        }))
        (λ _ _. refl))

  status-IsAllowed :
      (container : Text) (s : List (List Arg))
      → (t.allow_all_containers ≡ true) ⊎ (contains t.allowed_containers container ≡ true)
      → AsksOnly (IsAllowed t) (get_container_status runner container) s
  unfolding get_container_status
  status-IsAllowed container s allowed =
      last-AsksOnly _ (ask runner (status_args container) false) _ s
        (ask-AsksOnly _ runner (status_args container) false s (record {
          container = container;
          front =
              text (lit "docker")
              ∷ text (lit "inspect")
              ∷ text (lit "--format")
              ∷ text (lit "{{.Name}}|{{.Config.Image}}|{{.State.Status}}|{{.State.StartedAt}}")
              ∷ [];
          ends = refl;
          allowed = allowed;
        }))
        (λ _ _. refl)

  container_status-IsAllowed :
      (container : Text) (s : List (List Arg))
      → AsksOnly (IsAllowed t) (container_status runner t container) s
  unfolding container_status
  container_status-IsAllowed container s =
      allowed-AsksOnly _ t container _ s (λ allowed. status-IsAllowed container s allowed)

  logs_since-IsAllowed :
      (container : Text) (limit : ℤ) (s : List (List Arg))
      → AsksOnly (IsAllowed t) (get_logs_since_deploy runner t container limit) s
  unfolding get_logs_since_deploy
  logs_since-IsAllowed container limit s = allowed-AsksOnly _ t container _ s (λ allowed.
      bind-AsksOnly _ (get_container_status runner container) _ s
        (status-IsAllowed container s allowed)
        (λ status _.
          guard-AsksOnly _ (clamp_limit (some limit) (pos 1000) (pos 200)) _ _ (λ capped _.
            last-AsksOnly _ (ask runner (since_args (started_at_of status) capped container) false)
              _ _
              (ask-AsksOnly _ runner (since_args (started_at_of status) capped container) false _
                (since-IsAllowed t (started_at_of status) capped container allowed))
              (λ _ _. refl))))

  -- However they end, the tools that look at the image, the status, the restarts or the log
  -- since the start of a container only run commands whose last argument is a container that the
  -- target allows.
  pub diagnostics-IsAllowed :
      (container : Text) (limit : ℤ) (s : List (List Arg))
      → AsksOnly (IsAllowed t) (get_container_image_info runner t container) s
        × AsksOnly (IsAllowed t) (container_status runner t container) s
        × AsksOnly (IsAllowed t) (get_container_restart_count runner t container) s
        × AsksOnly (IsAllowed t) (get_logs_since_deploy runner t container limit) s
  diagnostics-IsAllowed container limit s = (
    image-IsAllowed container s,
    container_status-IsAllowed container s,
    restart-IsAllowed container s,
    logs_since-IsAllowed container limit s,
  )
