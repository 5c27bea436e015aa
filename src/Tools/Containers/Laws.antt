-- ===== src/Tools/Containers/Laws.antt =====
-- app/tools: the containers that the tools touch.
use pgsentinel_mcp.Security.{no_items}
use mathlib.Core.List.{append-nil}
use pgsentinel_mcp.Base.Exec.{pure, ◌>>=◌, bind-eq-ok}
use pgsentinel_mcp.Base.Result.{ok}
use pgsentinel_mcp.Base.Int.{ℤ, pos}
use pgsentinel_mcp.Vault.Data.{ServerDef}
use pgsentinel_mcp.Base.{
  List, Text, Option, ◌≡◌, none, some, true, false, contains, lit, ◌⊎◌, arith, refl, ◌∷◌, [], sym,
  equal_iff, Bool, Bool-cases, inr, if◌then◌else◌, subst, inl, ◌==◌,
}
use pgsentinel_mcp.Base.Dict.{lookup, Dict}
use pgsentinel_mcp.Remote.Command.{Arg, text, number}
use pgsentinel_mcp.Remote.Client.Asked.{AsksOnly, ask-AsksOnly, last-AsksOnly}
use pgsentinel_mcp.Remote.Client.{Runner, ask}
use pgsentinel_mcp.Remote.Adapter.{tail_args, get_container_logs, get_docker_containers}
use pgsentinel_mcp.Tools.Logs.{LogError, log_access_error, log_access_error-none}
use pgsentinel_mcp.Tools.Containers.{
  container_logs, search_logs, get_recent_errors, docker_containers, allowed_entries, LogAnswer,
  refused, Containers, visible,
}
use pgsentinel_mcp.Tools.Diagnostics.Laws.{IsAllowed}

-- Of the entries that are kept, each has a name on the list.
lookup-allowed_entries :
    (allowed : List Text) (d : Dict Text) (c v : Text)
    → lookup c (allowed_entries allowed d) ≡ some v
    → contains allowed c ≡ true
unfolding lookup allowed_entries
lookup-allowed_entries allowed [] c v h = cc
lookup-allowed_entries allowed ((j, w) ∷ d) c v h = elim (Bool-cases (contains allowed j)) [
  | inr e ↦ lookup-allowed_entries allowed d c v (
      subst
        (λ b.
          lookup c (if b then (j, w) ∷ allowed_entries allowed d else allowed_entries allowed d)
          ≡ some v)
        e h)
  | inl e ↦
      let k : (if j == c then some w else lookup c (allowed_entries allowed d)) ≡ some v =
        subst
          (λ b.
            lookup c (if b then (j, w) ∷ allowed_entries allowed d else allowed_entries allowed d)
            ≡ some v)
          e h in
      elim (Bool-cases (j == c)) [
        | inl same ↦ subst (λ x. contains allowed x ≡ true) ((equal_iff j c).0 same) e
        | inr differ ↦ lookup-allowed_entries allowed d c v (ground (arith, differ, k))
      ]
]

visible-listed :
    (t : ServerDef) (d : Dict Text) (c v : Text)
    → lookup c (visible t d) ≡ some v
    → (t.allow_all_containers ≡ true) ⊎ (contains t.allowed_containers c ≡ true)
unfolding lookup
visible-listed t d c v h = elim (Bool-cases t.allow_all_containers) [
  | inl e ↦ inl e
  | inr e ↦ inr (
      listed_name (no_items t.allowed_containers) (
        subst
          (λ b.
            lookup c (
              if b
              then d
              else if no_items t.allowed_containers
              then []
              else allowed_entries t.allowed_containers d)
            ≡ some v)
          e h))
]
  where
    listed_name :
        (b : Bool)
        → lookup c (if b then [] else allowed_entries t.allowed_containers d) ≡ some v
        → contains t.allowed_containers c ≡ true
    listed_name true k = cc
    listed_name false k = lookup-allowed_entries t.allowed_containers d c v k

module _ (runner : Runner) (patterns : List Text) (t : ServerDef) where
  read-IsAllowed :
      (container : Text) (lines : ℤ) (s : List (List Arg))
      → log_access_error t container ≡ none
      → AsksOnly (IsAllowed t) (get_container_logs runner container lines) s
  unfolding get_container_logs
  read-IsAllowed container lines s e =
      last-AsksOnly _ (ask runner (tail_args lines container) false) _ s
        (ask-AsksOnly _ runner (tail_args lines container) false s (record {
          container = container;
          front = text (lit "docker") ∷ text (lit "logs") ∷ text (lit "--tail") ∷ number lines ∷ [];
          ends = refl;
          allowed = ((log_access_error-none t container).0 e).1;
        }))
        (λ _ _. refl)

  -- A tool that first looks whether the log may be read.
  checked-IsAllowed :
      (container : Text) (lines : ℤ) (found : Text → LogAnswer) (s : List (List Arg))
      → (o : Option LogError) → log_access_error t container ≡ o
      → AsksOnly
          (IsAllowed t)
          (elim o [
            | some e ↦ pure (refused e)
            | none ↦ get_container_logs runner container lines >>= λ raw. pure (found raw)
          ])
          s
  checked-IsAllowed container lines found s none e =
      last-AsksOnly _ (get_container_logs runner container lines) _ s
        (read-IsAllowed container lines s e) (λ _ _. refl)
  checked-IsAllowed container lines found s (some x) e = ([], sym (append-nil s), tt)

  -- However they end, the log tools on a target only run commands whose last argument is a
  -- container that the target allows.
  pub log_tools-IsAllowed :
      (name keyword : Text) (n : ℤ) (s : List (List Arg))
      → AsksOnly (IsAllowed t) (container_logs runner patterns t name n) s
        × AsksOnly (IsAllowed t) (search_logs runner patterns t name keyword n) s
        × AsksOnly (IsAllowed t) (get_recent_errors runner patterns t name n) s
  unfolding container_logs search_logs get_recent_errors
  log_tools-IsAllowed name keyword n s = (
    checked-IsAllowed name n _ s (log_access_error t name) refl,
    checked-IsAllowed name n _ s (log_access_error t name) refl,
    checked-IsAllowed name (pos 500) _ s (log_access_error t name) refl,
  )

  -- Where the list of containers is returned, each container on it is one that the target
  -- allows.
  pub docker_containers-listed :
      (c : Text) (s : List (List Arg)) (v : Text) {r : Containers}
      → (docker_containers runner patterns t s).0 ≡ ok r
      → lookup c r.containers ≡ some v
      → (t.allow_all_containers ≡ true) ⊎ (contains t.allowed_containers c ≡ true)
  unfolding docker_containers
  docker_containers-listed c s v h k =
      let (all_containers, _, e) = bind-eq-ok (get_docker_containers runner) _ s h in
      visible-listed t all_containers c v (ground (arith, e, k))
