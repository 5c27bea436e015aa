-- ===== src/Manager/Tests.antt =====
-- Runs of app/core/vault_manager.py with the toy cipher, and the theorems at them.
use mathlib.Core.Path.{ap}
use pgsentinel_mcp.Manager.Sessions.{switch_active_vault-active}
use pgsentinel_mcp.Base.Result.{ok, err}
use pgsentinel_mcp.Vault.Data.{new_vault_data}
use pgsentinel_mcp.Manager.Locking.{
  IsShut, lock_vault-IsShut, auto_lock_round-kept_open, recover_master_password-write,
}
use pgsentinel_mcp.Base.Dict.{lookup}
use pgsentinel_mcp.Vault.Store.{lock, Vault, new_vault, text, multi_vault_off}
use pgsentinel_mcp.Manager.State.{clear_all_sessions, get_vault, World, ensure_multi_vault_enabled}
use pgsentinel_mcp.Base.Int.{pos, leb_ℤ}
use pgsentinel_mcp.Base.{
  ◌-◌, ◌/◌, false, is_some, lit, some, ◌≡◌, strip, [], lstrip, none, true, rstrip, is_space, equal,
  lower, lower_char, is_alnum, is_upper, is_lower, is_digit, refl, ◌∷◌, ◌++◌,
}
use pgsentinel_mcp.Manager.{
  switch_active_vault, lock_vault, auto_lock_round, write_recovery_bundle, recover_master_password,
}
use pgsentinel_mcp.Manager.Names.{
  Env, code_in, get_vault_dir, get_active_vault_name, normalize_vault_name,
  resolve_current_vault_path, vault_path_for_name, clean_name, strip_prefix, strip_suffix,
}
use pgsentinel_mcp.Vault.Store.Tests.{toy, toy-IsCrypto}

-- One vault, at a path of its own.
abbrev single : Env
single = record {
  vault_path = lit "data/vault.enc";
  vault_dir = [];
  active_vault_file = [];
  vault_marker = [];
  master_password = [];
  master_password_file = [];
}

-- A directory of vaults.
abbrev several : Env
several = record single { vault_dir = lit "/v" }

abbrev open_vault : Vault
open_vault = record (new_vault (lit "data/vault.enc")) {
  contents = some new_vault_data;
  derived_key = some (lit "key");
}

abbrev begun : World
begun = record {
  vault = some open_vault;
  host = record { disk = []; clock = 3600; draws = 0 };
  sessions = [];
  auto_lock = true;
  runtime_master_password = some (lit "pw");
  pending_recovery_key = none;
}

abbrev shut : World
shut = record begun { vault = some (new_vault (lit "data/vault.enc")) }

-- Two vaults on the disk, the second of them not active.
abbrev stocked : World
stocked = record begun {
  host = record begun.host {
    disk = (lit "/v/default1.vault.enc", text []) ∷ (lit "/v/acmeprod.vault.enc", text []) ∷ [];
  };
}

-- All that these runs compute with.
runs : Unit {0}
unfolding get_vault resolve_current_vault_path get_vault_dir strip lstrip rstrip is_space equal lit
    lookup normalize_vault_name clean_name lower lower_char is_alnum is_upper is_lower is_digit
    vault_path_for_name write_recovery_bundle ensure_multi_vault_enabled switch_active_vault code_in
    strip_prefix strip_suffix
runs = tt

found_open : get_vault single begun ≡ (ok open_vault, begun)
unfolding runs
found_open = refl

found_shut : (get_vault single shut).0 ≡ ok (new_vault (lit "data/vault.enc"))
unfolding runs
found_shut = refl

acme_name : normalize_vault_name (lit " Acme-Prod ") ≡ ok (lit "acmeprod")
unfolding runs
acme_name = refl

acme_there :
    is_some (lookup (vault_path_for_name several (lit "acmeprod")) stocked.host.disk) ≡ true
unfolding runs
acme_there = refl

in_dir : get_vault_dir several ≡ some (lit "/v")
unfolding runs
in_dir = refl

lock_vault-IsShut_example :
    ((lock_vault toy single begun).0 ≡ ok tt) × IsShut (lock_vault toy single begun).1
lock_vault-IsShut_example = lock_vault-IsShut toy single begun (ap (λ r. r.0) found_open)

-- The same world in its first minute.
abbrev recent : World
recent = record begun { host = record begun.host { clock = 60 } }

round_done : (auto_lock_round toy single recent).0 ≡ ok tt
unfolding runs auto_lock_round
round_done = refl

still_open : (auto_lock_round toy single recent).1.vault ≡ some open_vault
unfolding runs auto_lock_round
still_open = refl

-- An hour later it is locked.
locked_at_last : (auto_lock_round toy single begun).1.sessions ≡ []
unfolding runs auto_lock_round clear_all_sessions lock
locked_at_last = refl

auto_lock_round-kept_open_example :
    (recent.vault ≡ some open_vault)
    × (leb_ℤ new_vault_data.settings.auto_lock_minutes (pos ((60 - 0) / 60)) ≡ false)
    × ((auto_lock_round toy single recent).1 ≡ recent)
auto_lock_round-kept_open_example =
    auto_lock_round-kept_open toy single recent refl round_done still_open refl

bundle_written :
    (write_recovery_bundle toy single (lit "v") (lit "pw") begun).0 ≡ ok (lit "pgs_rec_" ++ 0 ∷ [])
unfolding runs
bundle_written = refl

recover_master_password-write_example :
    recover_master_password toy single
      (lit "v")
      (lit "pgs_rec_" ++ 0 ∷ [])
      (write_recovery_bundle toy single (lit "v") (lit "pw") begun).1
    ≡ (ok (lit "pw"), (write_recovery_bundle toy single (lit "v") (lit "pw") begun).1)
recover_master_password-write_example =
    recover_master_password-write toy single toy-IsCrypto (lit "v") (lit "pw") begun bundle_written

switch_active_vault-active_example :
    ((switch_active_vault toy several (lit " Acme-Prod ") stocked).0 ≡ ok (lit "acmeprod"))
    × (get_active_vault_name several
          (switch_active_vault toy several (lit " Acme-Prod ") stocked).1.host.disk
        ≡ lit "acmeprod")
    × ((switch_active_vault toy several (lit " Acme-Prod ") stocked).1.vault ≡ none)
    × ((switch_active_vault toy several (lit " Acme-Prod ") stocked).1.sessions ≡ [])
    × ((switch_active_vault toy several (lit " Acme-Prod ") stocked).1.runtime_master_password
        ≡ some (lit "pw"))
switch_active_vault-active_example =
    switch_active_vault-active toy several stocked (lit " Acme-Prod ") in_dir acme_name acme_there

switching_is_off : (switch_active_vault toy single (lit "acmeprod") begun).0 ≡ err multi_vault_off
unfolding runs
switching_is_off = refl
