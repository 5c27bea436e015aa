-- ===== src/Remote/Direct/Clean.antt =====
-- app/remote/direct_postgres.py: what is left behind after a run, and how it connects.
use pgsentinel_mcp.Base.Exec.{◌>>=◌, pure, bind_keeps}
use pgsentinel_mcp.Base.Int.{ℤ}
use mathlib.Core.Path.{ap}
use pgsentinel_mcp.Base.{
  Bool, List, Text, ◌==◌, ◌≡◌, none, false, true, ◌⊎◌, ◌∙◌, arith, ◌++◌, refl, ◌∷◌, [], equal_iff,
  ℕ, inr, Option, is_empty, subst, lit, some, ◌+◌, inl, ◌-◌, Bool-cases, contains, sym, strip,
  equal,
}
use pgsentinel_mcp.Remote.Direct.{
  TempNames, Local, ConnectArgs, write_unless, write_ssl_files, blank, remove_unless,
  remove_ssl_files, ssl_mode, with_ssl_files, fetch_json_lines, connect_args, Driver, tunnel,
  close_tunnel, joined_rows, open_tunnel, run_json_sql, run_via_ssh_tunnel, run_direct, remote_host,
  strict_modes,
}
use pgsentinel_mcp.Base.Dict.{erase, insert, Dict, lookup, lookup-insert}
use pgsentinel_mcp.Vault.Data.{PostgresTargetDef, ServerDef}
use pgsentinel_mcp.Base.Dict.{erase-insert}

-- The names of the temporary files are new, and differ.
pub record IsFresh (names : TempNames) (files : Dict Text) : Type 0 where
  pub ca_new : lookup names.ca files ≡ none
  pub cert_new : lookup names.cert files ≡ none
  pub key_new : lookup names.key files ≡ none
  pub ssh_new : lookup names.ssh_key files ≡ none
  pub ca_cert_differ : (names.cert == names.ca) ≡ false
  pub ca_key_differ : (names.key == names.ca) ≡ false
  pub cert_key_differ : (names.key == names.cert) ≡ false
  pub ssh_ca_differ : (names.ssh_key == names.ca) ≡ false
  pub ssh_cert_differ : (names.ssh_key == names.cert) ≡ false
  pub ssh_key_differ : (names.ssh_key == names.key) ≡ false

erase-insert_other :
    (k j : Text) (v : Text) (d : Dict Text)
    → (j == k) ≡ false
    → erase k (insert j v d) ≡ insert j v (erase k d)
unfolding erase insert
erase-insert_other k j v [] h = ground (arith, h)
erase-insert_other k j v ((i, w) ∷ d) h =
    ground (arith, h, equal_iff i j, equal_iff i k, equal_iff j k, erase-insert_other k j v d h)

remove-write :
    (b : Bool) (n v : Text) (h : Local)
    → lookup n h.files ≡ none
    → remove_unless b n (write_unless b n v h) ≡ h
remove-write true n v h new = refl
remove-write false n v h new = ap (λ d. record h { files = d }) (erase-insert n v h.files new)

remove-write_other :
    (b c : Bool) (n m v : Text) (h : Local)
    → (m == n) ≡ false
    → remove_unless b n (write_unless c m v h) ≡ write_unless c m v (remove_unless b n h)
remove-write_other true c n m v h differ = refl
remove-write_other false true n m v h differ = refl
remove-write_other false false n m v h differ =
    ap (λ d. record h { files = d }) (erase-insert_other n m v h.files differ)

write_keeps : (b : Bool) (n v : Text) (h : Local) → (write_unless b n v h).tried ≡ h.tried
write_keeps true n v h = refl
write_keeps false n v h = refl

write_tried :
    (b : Bool) (n v : Text) (h : Local) (tried : List ConnectArgs)
    → record (write_unless b n v h) { tried = tried }
      ≡ write_unless b n v (record h { tried = tried })
write_tried true n v h tried = refl
write_tried false n v h tried = refl

lookup-write :
    (b : Bool) (n m v : Text) (h : Local)
    → (n == m) ≡ false
    → lookup m h.files ≡ none
    → lookup m (write_unless b n v h).files ≡ none
lookup-write true n m v h differ new = new
lookup-write false n m v h differ new = ground (arith, lookup-insert n m v h.files, differ, new)

-- The connections that were tried: none, or one with the TLS mode of the target.
pub TriedOnce : PostgresTargetDef → List ConnectArgs → List ConnectArgs → Type 0
TriedOnce t before after =
    (after ≡ before) ⊎ ((a : ConnectArgs) × (after ≡ before ++ (a ∷ [])) × (a.sslmode ≡ ssl_mode t))

-- The state after a run: as before, but for the connections that were tried.
Leaves : PostgresTargetDef → Local → Local → Type 0
Leaves t before after =
    (tried : List ConnectArgs) × (after ≡ record before { tried = tried })
    × TriedOnce t before.tried tried

module _ (t : PostgresTargetDef) (names : TempNames) where
  remove-write_ssl :
      (h : Local)
      (fresh : (lookup names.ca h.files ≡ none)
        × (lookup names.cert h.files ≡ none)
        × (lookup names.key h.files ≡ none))
      → (names.cert == names.ca) ≡ false
      → (names.key == names.ca) ≡ false
      → (names.key == names.cert) ≡ false
      → remove_ssl_files t names (write_ssl_files t names h) ≡ h
  remove-write_ssl h (ca, cert, key) cert_ca key_ca key_cert =
      ap
        (λ x.
          remove_unless (blank t.client_key) names.key
            (remove_unless (blank t.client_cert) names.cert x))
        (remove-write_other (blank t.ca_cert) (blank t.client_key) names.ca names.key t.client_key _
            key_ca
          ∙ ap (write_unless (blank t.client_key) names.key t.client_key) (
              remove-write_other (blank t.ca_cert) (blank t.client_cert) names.ca names.cert
                t.client_cert _ cert_ca
              ∙ ap (write_unless (blank t.client_cert) names.cert t.client_cert)
                  (remove-write (blank t.ca_cert) names.ca t.ca_cert h ca)))
      ∙ ap (remove_unless (blank t.client_key) names.key) (
          remove-write_other (blank t.client_cert) (blank t.client_key) names.cert names.key
            t.client_key _ key_cert
          ∙ ap (write_unless (blank t.client_key) names.key t.client_key)
              (remove-write (blank t.client_cert) names.cert t.client_cert h cert))
      ∙ remove-write (blank t.client_key) names.key t.client_key h key

  write_ssl_tried :
      (h : Local) (tried : List ConnectArgs)
      → record (write_ssl_files t names h) { tried = tried }
        ≡ write_ssl_files t names (record h { tried = tried })
  write_ssl_tried h tried =
      write_tried (blank t.client_key) names.key t.client_key _ tried
      ∙ ap (write_unless (blank t.client_key) names.key t.client_key) (
          write_tried (blank t.client_cert) names.cert t.client_cert _ tried
          ∙ ap (write_unless (blank t.client_cert) names.cert t.client_cert)
              (write_tried (blank t.ca_cert) names.ca t.ca_cert h tried))

  write_ssl_keeps : (h : Local) → (write_ssl_files t names h).tried ≡ h.tried
  write_ssl_keeps h =
      write_keeps (blank t.client_key) names.key t.client_key _
      ∙ write_keeps (blank t.client_cert) names.cert t.client_cert _
      ∙ write_keeps (blank t.ca_cert) names.ca t.ca_cert h

  with_ssl_files-Leaves :
      (driver : Driver) (sql host : Text) (port : ℤ) (timeout : ℕ) (h : Local)
      (fresh : (lookup names.ca h.files ≡ none)
        × (lookup names.cert h.files ≡ none)
        × (lookup names.key h.files ≡ none))
      → (names.cert == names.ca) ≡ false
      → (names.key == names.ca) ≡ false
      → (names.key == names.cert) ≡ false
      → Leaves t h
          (with_ssl_files t names (fetch_json_lines t names driver sql host port timeout) h).1
  unfolding with_ssl_files fetch_json_lines connect_args TriedOnce Leaves
  with_ssl_files-Leaves driver sql host port timeout h fresh cert_ca key_ca key_cert = (
    _,
    ap (remove_ssl_files t names) (write_ssl_tried h _)
        ∙ remove-write_ssl (record h { tried = _ }) fresh cert_ca key_ca key_cert,
    inr (
      connect_args t names host port timeout,
      ap (λ l. l ++ (connect_args t names host port timeout ∷ [])) (write_ssl_keeps h),
      refl,
    ),
  )

  rows-Leaves :
      (driver : Driver) (sql host : Text) (port : ℤ) (timeout : ℕ) (h : Local)
      → (lookup names.ca h.files ≡ none)
        × (lookup names.cert h.files ≡ none)
        × (lookup names.key h.files ≡ none)
      → (names.cert == names.ca) ≡ false
      → (names.key == names.ca) ≡ false
      → (names.key == names.cert) ≡ false
      → Leaves t h
          ((with_ssl_files t names (fetch_json_lines t names driver sql host port timeout)
              >>= λ rows. pure (joined_rows t names rows))
            h).1
  rows-Leaves driver sql host port timeout h fresh a b c =
      rw
        (bind_keeps (with_ssl_files t names (fetch_json_lines t names driver sql host port timeout))
          (λ rows. pure (joined_rows t names rows)) h (λ _ _. refl))
        (with_ssl_files-Leaves driver sql host port timeout h fresh a b c)

  unchanged : (h : Local) → Leaves t h h
  unfolding Leaves TriedOnce
  unchanged h = (h.tried, refl, inl refl)

  -- A connection through a tunnel that stands.
  tunnel-Leaves :
      (refused : Option Text) (active : Bool) (port : ℤ) (driver : Driver) (sql : Text)
      (timeout : ℕ) (h : Local)
      → (lookup names.ca h.files ≡ none)
        × (lookup names.cert h.files ≡ none)
        × (lookup names.key h.files ≡ none)
      → (names.cert == names.ca) ≡ false
      → (names.key == names.ca) ≡ false
      → (names.key == names.cert) ≡ false
      → Leaves t h (tunnel t names refused active port driver sql timeout h).1
  tunnel-Leaves (some message) active port driver sql timeout h fresh a b c = unchanged h
  tunnel-Leaves none false port driver sql timeout h fresh a b c = unchanged h
  tunnel-Leaves none true port driver sql timeout h fresh a b c =
      rows-Leaves driver sql (lit "127.0.0.1") port timeout h fresh a b c

  closed :
      (b : Bool) (n v : Text) (h : Local) (tried : List ConnectArgs)
      → lookup n h.files ≡ none
      → remove_unless b n
          (record (write_unless b n v (record h { open_clients = h.open_clients + 1 })) {
            open_clients =
                (write_unless b n v (record h { open_clients = h.open_clients + 1 })).open_clients
                - 1;
            tried = tried;
          })
        ≡ record h { tried = tried }
  closed true n v h tried new = ap (λ k. record h { open_clients = k; tried = tried }) (omega arith)
  closed false n v h tried new =
      ap (λ k. record h { files = erase n (insert n v h.files); open_clients = k; tried = tried })
        (omega arith)
      ∙ ap (λ d. record h { files = d; tried = tried }) (erase-insert n v h.files new)

  opened_fresh :
      (srv : ServerDef) (h : Local) (names_new : IsFresh names h.files)
      → (refused : Option Text) (active : Bool) (port : ℤ)
      → (lookup names.ca (open_tunnel t names refused active port srv h).files ≡ none)
        × (lookup names.cert (open_tunnel t names refused active port srv h).files ≡ none)
        × (lookup names.key (open_tunnel t names refused active port srv h).files ≡ none)
  opened_fresh srv h f refused active port =
      let b = is_empty srv.ssh_private_key in
      let v = srv.ssh_private_key in
      let opened : Local = record h { open_clients = h.open_clients + 1 } in
      (
        lookup-write b names.ssh_key names.ca v opened f.ssh_ca_differ f.ca_new,
        lookup-write b names.ssh_key names.cert v opened f.ssh_cert_differ f.cert_new,
        lookup-write b names.ssh_key names.key v opened f.ssh_key_differ f.key_new,
      )

  closes :
      (refused : Option Text) (active : Bool) (port : ℤ) (srv : ServerDef) (h after : Local)
      → lookup names.ssh_key h.files ≡ none
      → Leaves t (open_tunnel t names refused active port srv h) after
      → Leaves t h (close_tunnel t names refused active port srv after)
  unfolding Leaves TriedOnce
  closes refused active port srv h after new (tried, e, once) = (
    tried,
    ap (close_tunnel t names refused active port srv) e
        ∙ closed (is_empty srv.ssh_private_key) names.ssh_key srv.ssh_private_key h tried new,
    subst (λ l. TriedOnce t l tried)
        (write_keeps (is_empty srv.ssh_private_key) names.ssh_key srv.ssh_private_key _) once,
  )

  via_tunnel-Leaves :
      (refused : Option Text) (active : Bool) (port : ℤ) (server : Option ServerDef)
      (driver : Driver) (sql : Text) (timeout : ℕ) (h : Local)
      → IsFresh names h.files
      → Leaves t h (run_via_ssh_tunnel t names refused active port server driver sql timeout h).1
  unfolding run_via_ssh_tunnel
  via_tunnel-Leaves refused active port none driver sql timeout h f = unchanged h
  via_tunnel-Leaves refused active port (some srv) driver sql timeout h f =
      closes refused active port srv h _ f.ssh_new (
        tunnel-Leaves refused active port driver sql timeout
          (open_tunnel t names refused active port srv h) (opened_fresh srv h f refused active port)
          f.ca_cert_differ f.ca_key_differ f.cert_key_differ)

  direct-Leaves :
      (driver : Driver) (sql : Text) (timeout : ℕ) (h : Local)
      → IsFresh names h.files
      → Leaves t h (run_direct t names driver sql timeout h).1
  unfolding run_direct
  direct-Leaves driver sql timeout h f =
      rows-Leaves driver sql (remote_host t names) t.port timeout h
        (f.ca_new, f.cert_new, f.key_new) f.ca_cert_differ f.ca_key_differ f.cert_key_differ

  -- What a run leaves behind.
  pub record IsClean (before after : Local) : Type 0 where
    pub same_files : after.files ≡ before.files
    pub same_clients : after.open_clients ≡ before.open_clients
    pub tried_once : TriedOnce t before.tried after.tried

  Leaves-IsClean : (before after : Local) → Leaves t before after → IsClean before after
  unfolding Leaves
  Leaves-IsClean before after (tried, e, once) = record {
    same_files = ap (λ h. h.files) e;
    same_clients = ap (λ h. h.open_clients) e;
    tried_once = subst (TriedOnce t before.tried) (sym (ap (λ h. h.tried) e)) once;
  }

  -- Where the names of the temporary files are new and differ: however a direct query ends,
  -- through a tunnel or not, the files with certificates and keys are gone, no SSH client is
  -- left open, and at most one connection was tried, with the TLS mode of the target.
  pub run_json_sql-IsClean :
      (refused : Option Text) (active : Bool) (port : ℤ) (server : Option ServerDef)
      (driver : Driver) (sql : Text) (timeout : ℕ) (h : Local)
      → IsFresh names h.files
      → IsClean h (run_json_sql t names refused active port server driver sql timeout h).1
  unfolding run_json_sql
  run_json_sql-IsClean refused active port server driver sql timeout h f =
      Leaves-IsClean h _
        (elim (Bool-cases (t.connection_mode == lit "ssh_tunnel_direct_postgres")) [
          | inl e ↦ rw e (via_tunnel-Leaves refused active port server driver sql timeout h f)
          | inr e ↦ rw e (direct-Leaves driver sql timeout h f)
        ])

require_strict : contains strict_modes (lit "require") ≡ true
unfolding contains lit equal
require_strict = refl

-- TLS
pub ssl_mode-strict :
    (t : PostgresTargetDef)
    → t.connection_mode ≡ lit "postgres_direct_tls"
    → contains strict_modes (ssl_mode t) ≡ true
unfolding ssl_mode
ssl_mode-strict t e =
    let same = (equal_iff t.connection_mode (lit "postgres_direct_tls")).1 e in
    elim (Bool-cases (contains strict_modes (strip t.ssl_mode))) [
      | inl c ↦ ground (arith, same, c)
      | inr c ↦ ground (arith, same, c, require_strict)
    ]
