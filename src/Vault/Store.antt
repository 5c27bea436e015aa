-- ===== src/Vault/Store.antt =====
-- app/core/vault.py: `class Vault`, a file that is locked or unlocked, and app/core/agent_key.py.
-- The file system does not fail here. Of an envelope, what is never read back is left out: the
-- names of the algorithms, the application's version and the two dates.
pub mod Laws
pub mod Invariant
pub mod Safe
pub mod Unlocking
pub mod Refinement
pub mod Tests
use pgsentinel_mcp.Base.{
  ℕ, suc, ◌+◌, leb, Text, Bool, true, false, not, ◌&&◌, ◌||◌, Option, none, some, List, [], ◌∷◌,
  ◌++◌, lit, starts_with, is_some, if◌then◌else◌, length,
}
use pgsentinel_mcp.Base.Int.{ℤ, pos, ltb_ℤ}
use pgsentinel_mcp.Base.Exec.{Exec, pure, raise, gets, modify, raise_when, ◌>>=◌, ◌>>◌}
use pgsentinel_mcp.Base.Dict.{Dict, lookup, insert, erase}
use pgsentinel_mcp.Base.Json.{Json, null}
use pgsentinel_mcp.Vault.Data.{VaultData, AgentConfig, new_vault_data}
use pgsentinel_mcp.Vault.Codec.{to_dict, from_dict}
use pgsentinel_mcp.Vault.Crypto.{Crypto, Ciphertext}

pub record Envelope : Type 0 where
  pub version : ℤ
  pub data_version : ℤ
  pub salt : Text
  pub nonce : Text
  pub ciphertext : Ciphertext

pub record RecoveryBundle : Type 0 where
  pub salt : Text
  pub nonce : Text
  pub ciphertext : Ciphertext

pub data File : Type 0 where
  envelope : Envelope → File
  recovery : RecoveryBundle → File
  text : Text → File

-- The messages of `VaultError`, with what they quote, and two other exceptions: a file that is no
-- envelope and a payload that `VaultData.from_dict` refuses.
pub data Fault : Type 0 where
  already_exists not_found locked cannot_save wrong_password no_key : Fault
  code_length multi_vault_off password_required definitions_password : Fault
  no_recovery wrong_recovery_key : Fault
  envelope_version : ℤ → Fault
  named_exists named_missing : Text → Fault
  bad_file bad_payload : Fault

-- The files, the monotonic clock in seconds and the number of draws from `secrets` so far.
pub record Host : Type 0 where
  pub disk : Dict File
  pub clock : ℕ
  pub draws : ℕ

pub record Vault : Type 0 where
  pub path : Text
  pub contents : Option VaultData
  pub cipher_text : Option Ciphertext
  pub salt : Option Text
  pub nonce : Option Text
  pub derived_key : Option Text
  pub last_activity : ℕ

pub record Desk : Type 0 where
  pub vault : Vault
  pub host : Host

-- Vault(vault_path)
abbrev pub new_vault : Text → Vault
new_vault path = record {
  path = path;
  contents = none;
  cipher_text = none;
  salt = none;
  nonce = none;
  derived_key = none;
  last_activity = 0;
}

abbrev pub is_unlocked : Vault → Bool
is_unlocked v = is_some v.contents

abbrev pub is_locked : Vault → Bool
is_locked v = not (is_some v.contents)

abbrev pub on_disk : Vault → Host → Bool
on_disk v h = is_some (lookup v.path h.disk)

unfoldable pub touch : Exec Fault Desk Unit
touch = modify (λ d. record d { vault = record d.vault { last_activity = d.host.clock } })

abbrev set_envelope : Envelope → Desk → Desk
set_envelope e d = record d {
  vault = record d.vault {
    cipher_text = some e.ciphertext;
    salt = some e.salt;
    nonce = some e.nonce;
  };
}

abbrev load_file : Option File → Exec Fault Desk Unit
load_file none = pure tt
load_file (some (envelope e)) =
    if ltb_ℤ e.version (pos 1) || ltb_ℤ (pos 2) e.version
    then raise (envelope_version e.version)
    else modify (set_envelope e)
load_file (some _) = raise bad_file

unfoldable pub load_encrypted : Exec Fault Desk Unit
load_encrypted d = load_file (lookup d.vault.path d.host.disk) d

unfoldable pub lock : Exec Fault Desk Unit
lock = modify λ d. record d {
  vault = record d.vault {
    contents = none;
    cipher_text = none;
    salt = none;
    nonce = none;
    derived_key = none;
  };
}

abbrev or_nothing : Option Text → Text
or_nothing none = []
or_nothing (some t) = t

abbrev or_null : Option Ciphertext → Ciphertext
or_null none = null
or_null (some j) = j

abbrev pub backup_path : Text → Text
backup_path path = path ++ lit ".bak"

abbrev copy_file : Option File → Text → Dict File → Dict File
copy_file none to disk = disk
copy_file (some f) to disk = insert to f disk

abbrev pub temporary_path : Text → Text
temporary_path path = path ++ lit ".tmp"

-- Write the new file beside the old one, keep the old one as a copy, and move the new file to its
-- place.
unfoldable pub replace_file : Text → File → Dict File → Dict File
replace_file path new disk =
    let staged = insert (temporary_path path) new disk in
    insert path new
      (erase (temporary_path path) (copy_file (lookup path staged) (backup_path path) staged))

module _ (c : Crypto) where
  unfoldable pub draw : ℕ → Exec Fault Desk Text
  draw bytes d =
      (pure (c.random bytes d.host.draws))
        (record d { host = record d.host { draws = d.host.draws + 1 } })

  abbrev keep_salt : Option Text → Exec Fault Desk Unit
  keep_salt none = do
    salt ← draw 32
    modify (λ d. record d { vault = record d.vault { salt = some salt } })
  keep_salt (some salt) = pure tt

  -- A vault with no salt draws one.
  unfoldable derive_key : Text → Exec Fault Desk Text
  unfolding draw
  derive_key master_password = do
    salt ← gets (λ d. d.vault.salt)
    keep_salt salt
    gets (λ d. c.argon2id master_password (or_nothing d.vault.salt))

  -- A new password draws a new salt.
  abbrev rekey : Option Text → Exec Fault Desk Unit
  rekey none = pure tt
  rekey (some master_password) = do
    salt ← draw 32
    modify (λ d. record d { vault = record d.vault { salt = some salt } })
    key ← derive_key master_password
    modify (λ d. record d { vault = record d.vault { derived_key = some key } })

  abbrev write_envelope : VaultData → Text → Option Text → Exec Fault Desk Unit
  write_envelope contents nonce none = raise no_key
  write_envelope contents nonce (some key) = do
    salt ← gets (λ d. or_nothing d.vault.salt)
    let ciphertext = c.encrypt key nonce (to_dict contents)
    let new : Envelope = record {
      version = pos 2;
      data_version = contents.version;
      salt = salt;
      nonce = nonce;
      ciphertext = ciphertext;
    }
    modify λ d. record {
      vault = record d.vault {
        salt = some salt;
        nonce = some nonce;
        cipher_text = some ciphertext;
      };
      host = record d.host { disk = replace_file d.vault.path (envelope new) d.host.disk };
    }
    touch

  abbrev save_contents : Option Text → Option VaultData → Exec Fault Desk Unit
  save_contents master_password none = raise cannot_save
  save_contents master_password (some contents) = do
    nonce ← draw 12
    rekey master_password
    key ← gets (λ d. d.vault.derived_key)
    write_envelope contents nonce key

  unfoldable pub save : Option Text → Exec Fault Desk Unit
  unfolding draw derive_key touch
  save master_password d = save_contents master_password d.vault.contents d

  abbrev open_payload : Text → Option Json → Exec Fault Desk Unit
  open_payload key none = raise wrong_password
  open_payload key (some payload) = elim (from_dict payload) [
    | none ↦ raise bad_payload
    | some contents ↦ do
      modify (λ d. record d {
        vault = record d.vault { contents = some contents; derived_key = some key };
      })
      touch
  ]

  unfoldable pub unlock : Text → Exec Fault Desk Unit
  unfolding load_encrypted derive_key draw touch
  unlock master_password d =
      if is_unlocked d.vault
      then pure tt d
      else (do
        raise_when (not (on_disk d.vault d.host)) not_found
        load_encrypted
        key ← derive_key master_password
        payload ← gets (λ e. c.decrypt key (or_nothing e.vault.nonce) (or_null e.vault.cipher_text))
        open_payload key payload)
          d

  -- app/core/agent_key.py
  abbrev agent_key_prefix : Text
  agent_key_prefix = lit "pgs_ai_"

  unfoldable pub generate_agent_token : Exec Fault Desk Text
  unfolding draw
  generate_agent_token = do entropy ← draw 48; pure (agent_key_prefix ++ entropy)

  unfoldable pub hash_agent_token : Text → Exec Fault Desk Text
  hash_agent_token token d =
      (pure (c.hashpw d.host.draws token))
        (record d { host = record d.host { draws = d.host.draws + 1 } })

  unfoldable pub verify_agent_token : Text → Text → Bool
  verify_agent_token token token_hash = c.checkpw token token_hash

  -- The contents of a vault that is made with an agent key.
  abbrev pub first_contents : Bool → Text → VaultData
  first_contents agent_enabled key_hash = record new_vault_data {
    agent = record new_vault_data.agent { enabled = agent_enabled; key_hash = key_hash };
  }

  unfoldable pub create : Text → Bool → Exec Fault Desk Text
  unfolding generate_agent_token hash_agent_token derive_key save draw
  create master_password agent_enabled d =
      (do
        raise_when (on_disk d.vault d.host) already_exists
        token ← generate_agent_token
        key_hash ← hash_agent_token token
        salt ← draw 32
        modify (λ e. record e {
          vault = record e.vault {
            contents = some (first_contents agent_enabled key_hash);
            salt = some salt;
          };
        })
        key ← derive_key master_password
        modify (λ e. record e { vault = record e.vault { derived_key = some key } })
        save (some master_password)
        pure token)
        d

abbrev after_prefix : Text → Text → Text
after_prefix [] s = s
after_prefix (p ∷ ps) [] = []
after_prefix (p ∷ ps) (c ∷ s) = after_prefix ps s

unfoldable pub is_valid_agent_token_format : Text → Bool
is_valid_agent_token_format token =
    starts_with token (lit "pgs_ai_") && leb 32 (length (after_prefix (lit "pgs_ai_") token))
