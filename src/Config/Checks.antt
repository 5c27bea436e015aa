-- ===== src/Config/Checks.antt =====
-- app/core/config.py: what each check of a section leaves behind where it passes.
use mathlib.Core.Path.{ap}
use pgsentinel_mcp.Security.{no_items}
use pgsentinel_mcp.Base.Int.{ℤ, pos, ◌≤ℤ◌}
use pgsentinel_mcp.Base.Dict.{lookup, Dict}
use pgsentinel_mcp.Base.{
  ◌∷◌, Bool, ◌≡◌, List, true, Text, false, some, refl, contains, lit, not, arith, Bool-cases, [],
  ◌==◌, inl, ◌||◌, if◌then◌else◌, Option, ◌∙◌, ◌++◌, none, ◌&&◌, inr, equal_iff,
}
use pgsentinel_mcp.Base.Result.{◌>>◌, Result, raise_if, ok, err}
use pgsentinel_mcp.Config.{
  within, is_missing, check_log_ranges, check_log_containers, LogConfig, check_range,
  check_security, check_server, SecurityConfig, ServerConfig, out_of_range, log_container,
  readonly_required, check_max_lines, write_tools, raw_shell, server_mode, missing_fields,
}

pub raise_if-ok : {E : Type 0} (b : Bool) (e : E) {u : Unit {0}} → raise_if b e ≡ ok u → b ≡ false
raise_if-ok true e h = cc
raise_if-ok false e h = refl

pub >>-eq-ok :
    {E A B : Type 0} (m : Result E A) (k : Result E B) {b : B}
    → (m >> k) ≡ ok b
    → ((a : A) × (m ≡ ok a)) × (k ≡ ok b)
>>-eq-ok (err e) k h = cc
>>-eq-ok (ok a) k h = ((a, refl), h)

pub check_log_containers-listed :
    (allowed : List Text) (logs : Dict LogConfig) (name : Text) (log : LogConfig) {u : Unit {0}}
    → check_log_containers allowed logs ≡ ok u
    → lookup name logs ≡ some log
    → contains allowed log.container ≡ true
unfolding check_log_containers lookup
check_log_containers-listed allowed [] name log h k = cc
check_log_containers-listed allowed ((key, first) ∷ logs) name log h k =
    let (first_listed, rest) =
      >>-eq-ok (raise_if (not (contains allowed first.container)) (log_container key)) _ h in
    let listed = raise_if-ok _ _ first_listed.1 in
    ground (arith, listed, k, check_log_containers-listed allowed logs name log rest)

check_range-within :
    (field : Text) (low high n : ℤ) {u : Unit {0}}
    → check_range field low high n ≡ ok u
    → (low ≤ℤ n) × (n ≤ℤ high)
check_range-within field low high n h =
    let e = raise_if-ok (not (within low high n)) (out_of_range field) h in ground (arith, e)

check_max_lines-bounded :
    (m : Option ℤ) (n : ℤ) {u : Unit {0}}
    → check_max_lines m ≡ ok u
    → m ≡ some n
    → (pos 1 ≤ℤ n) × (n ≤ℤ pos 5000)
check_max_lines-bounded none n h e = cc
check_max_lines-bounded (some k) n h e =
    let b = check_range-within (lit "max_lines") (pos 1) (pos 5000) k h in ground (arith, e, b)

pub check_log_ranges-bounded :
    (logs : Dict LogConfig) (name : Text) (log : LogConfig) (n : ℤ) {u : Unit {0}}
    → check_log_ranges logs ≡ ok u
    → lookup name logs ≡ some log
    → log.max_lines ≡ some n
    → (pos 1 ≤ℤ n) × (n ≤ℤ pos 5000)
unfolding check_log_ranges lookup
check_log_ranges-bounded [] name log n h k m = cc
check_log_ranges-bounded ((key, first) ∷ logs) name log n h k m =
    let (first_bounded, rest) = >>-eq-ok (check_max_lines first.max_lines) _ h in
    elim (Bool-cases (key == name)) [
      | inl e ↦
          let same : first ≡ log = ground (arith, e, k) in
          check_max_lines-bounded first.max_lines n first_bounded.1 (ap (λ l. l.max_lines) same ∙ m)
      | inr e ↦ check_log_ranges-bounded logs name log n rest (ground (arith, e, k)) m
    ]

pub check_security-ok :
    (s : SecurityConfig) {u : Unit {0}}
    → check_security s ≡ ok u
    → (s.default_readonly ≡ true)
      × (s.allow_write_tools ≡ false)
      × (s.allow_raw_shell ≡ false)
      × ((pos 1 ≤ℤ s.max_log_lines) × (s.max_log_lines ≤ℤ pos 5000))
      × ((pos 1 ≤ℤ s.max_query_rows) × (s.max_query_rows ≤ℤ pos 1000))
      × ((pos 1 ≤ℤ s.command_timeout_seconds) × (s.command_timeout_seconds ≤ℤ pos 300))
unfolding check_security
check_security-ok s h =
    let (a, h1) =
      >>-eq-ok (check_range (lit "max_log_lines") (pos 1) (pos 5000) s.max_log_lines) _ h in
    let (b, h2) =
      >>-eq-ok (check_range (lit "max_query_rows") (pos 1) (pos 1000) s.max_query_rows) _ h1 in
    let (c, h3) =
      >>-eq-ok
        (check_range (lit "command_timeout_seconds") (pos 1) (pos 300) s.command_timeout_seconds) _
        h2 in
    let (d, h4) = >>-eq-ok (raise_if (not s.default_readonly) readonly_required) _ h3 in
    let (e, h5) = >>-eq-ok (raise_if s.allow_write_tools write_tools) _ h4 in
    let writes = raise_if-ok s.allow_write_tools write_tools e.1 in
    let shell = raise_if-ok s.allow_raw_shell raw_shell h5 in
    let readonly = raise_if-ok (not s.default_readonly) readonly_required d.1 in
    (
      ground (arith, readonly),
      writes,
      shell,
      check_range-within _ (pos 1) (pos 5000) s.max_log_lines a.1,
      check_range-within _ (pos 1) (pos 1000) s.max_query_rows b.1,
      check_range-within _ (pos 1) (pos 300) s.command_timeout_seconds c.1,
    )

no_missing :
    (x y z : Text) (a b c : Bool)
    → no_items
        ((if a then x ∷ [] else []) ++ ((if b then y ∷ [] else []) ++ (if c then z ∷ [] else [])))
      ≡ true
    → (a ≡ false) × (b ≡ false) × (c ≡ false)
no_missing x y z true b c h = cc
no_missing x y z false true c h = cc
no_missing x y z false false true h = cc
no_missing x y z false false false h = (refl, refl, refl)

pub check_server-ok :
    (s : ServerConfig) {u : Unit {0}}
    → check_server s ≡ ok u
    → s.mode ≡ lit "ssh"
    → (is_missing s.host ≡ false)
      × (is_missing s.username ≡ false)
      × (is_missing s.ssh_private_key_path ≡ false)
unfolding check_server
check_server-ok s h e =
    let (_, h1) =
      >>-eq-ok (raise_if (not (s.mode == lit "ssh" || s.mode == lit "local")) server_mode) _ h in
    let (_, h2) = >>-eq-ok (check_range (lit "port") (pos 1) (pos 65535) s.port) _ h1 in
    let named = raise_if-ok (s.mode == lit "ssh" && not (no_items (missing_fields s))) _ h2 in
    let ssh = (equal_iff s.mode (lit "ssh")).1 e in
    no_missing (lit "host") (lit "username") (lit "ssh_private_key_path") (is_missing s.host)
      (is_missing s.username) (is_missing s.ssh_private_key_path) (ground (arith, named, ssh))
