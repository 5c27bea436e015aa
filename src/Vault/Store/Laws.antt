-- ===== src/Vault/Store/Laws.antt =====
-- app/core/vault.py: saving, unlocking and creating a vault.
use pgsentinel_mcp.Base.{
  starts_with, ◌++◌, lit, is_some, ◌+◌, Text, Bool, true, false, none, some, ◌≡◌, ◌≢◌, refl, arith,
}
use pgsentinel_mcp.Base.Int.{pos}
use pgsentinel_mcp.Base.Result.{ok, err}
use pgsentinel_mcp.Base.Dict.{Dict, lookup, lookup-insert_self}
use pgsentinel_mcp.Vault.Data.{VaultData}
use pgsentinel_mcp.Vault.Codec.{to_dict}
use pgsentinel_mcp.Vault.Codec.RoundTrip.{from_dict-to_dict}
use pgsentinel_mcp.Vault.Crypto.{Crypto, IsCrypto}
use pgsentinel_mcp.Vault.Store.{
  File, Envelope, envelope, Host, Desk, new_vault, save, unlock, replace_file, wrong_password,
  verify_agent_token, create, first_contents,
}

pub lookup-replace_file :
    (path : Text) (f : File) (disk : Dict File) → lookup path (replace_file path f disk) ≡ some f
unfolding replace_file
lookup-replace_file path f disk = lookup-insert_self path f _

-- The desk of a process that starts afresh on the files of a desk.
abbrev pub restarted : Desk → Desk
restarted d = record { vault = new_vault d.vault.path; host = d.host }

-- The envelope that `save` writes under a new password, and the desk behind it.
abbrev pub sealed : Crypto → Text → Host → VaultData → Envelope
sealed c password h contents =
    let salt : Text = c.random 32 (h.draws + 1) in
    let nonce : Text = c.random 12 h.draws in
    record {
      version = pos 2;
      data_version = contents.version;
      salt = salt;
      nonce = nonce;
      ciphertext = c.encrypt (c.argon2id password salt) nonce (to_dict contents);
    }

abbrev pub saved : Crypto → Text → Desk → VaultData → Desk
saved c password d contents =
    let e : Envelope = sealed c password d.host contents in
    record {
      vault = record d.vault {
        salt = some e.salt;
        nonce = some e.nonce;
        cipher_text = some e.ciphertext;
        derived_key = some (c.argon2id password e.salt);
        last_activity = d.host.clock;
      };
      host = record d.host {
        disk = replace_file d.vault.path (envelope e) d.host.disk;
        draws = d.host.draws + 1 + 1;
      };
    }

module _ (c : Crypto) (password : Text) (d : Desk) where
  save-saved :
      (contents : VaultData)
      → d.vault.contents ≡ some contents
      → save c (some password) d ≡ (ok tt, saved c password d contents)
  unfolding save
  save-saved contents open_now = ground arith

  -- An envelope that can be read, at the path of a locked vault.
  unlock_reads :
      (e : Envelope) (contents : VaultData)
      → d.vault.contents ≡ none
      → lookup d.vault.path d.host.disk ≡ some (envelope e)
      → e.version ≡ pos 2
      → c.decrypt (c.argon2id password e.salt) e.nonce e.ciphertext ≡ some (to_dict contents)
      → (unlock c password d).0 ≡ ok tt × (unlock c password d).1.vault.contents ≡ some contents
  unfolding unlock
  unlock_reads e contents locked file version fits = ground (arith, from_dict-to_dict contents)

  -- A key that does not fit leaves the vault locked and the files as they were.
  unlock_refuses :
      (e : Envelope)
      → d.vault.contents ≡ none
      → lookup d.vault.path d.host.disk ≡ some (envelope e)
      → e.version ≡ pos 2
      → c.decrypt (c.argon2id password e.salt) e.nonce e.ciphertext ≡ none
      → ((unlock c password d).0 ≡ err wrong_password)
        × ((unlock c password d).1.vault.contents ≡ none)
        × ((unlock c password d).1.host ≡ d.host)
  unfolding unlock
  unlock_refuses e locked file version fits = ground arith

module _ (c : Crypto) (w : IsCrypto c) (password : Text) (d : Desk) {contents : VaultData}
    (open_now : d.vault.contents ≡ some contents) where
  -- For a cipher that opens what it closed: an open vault that is saved under a password is
  -- saved, and a process that starts afresh on the files unlocks it with that password and finds
  -- the same contents.
  pub unlock-save :
      ((save c (some password) d).0 ≡ ok tt)
      × ((unlock c password (restarted (save c (some password) d).1)).0 ≡ ok tt)
      × ((unlock c password (restarted (save c (some password) d).1)).1.vault.contents
          ≡ some contents)
  unlock-save =
      let e : Envelope = sealed c password d.host contents in
      let (done, opened) =
        unlock_reads c password (restarted (saved c password d contents)) e contents refl
          (lookup-replace_file d.vault.path (envelope e) d.host.disk) refl
          (w.decrypt-encrypt _ _ _) in
      rw (save-saved c password d contents open_now) (refl, done, opened)

  -- For a cipher under which no other key opens what one closed: unlocking a saved vault with a
  -- password whose key differs raises, and the vault stays locked.
  pub unlock-save_other :
      (other : Text)
      → c.argon2id password (c.random 32 (d.host.draws + 1))
        ≢ c.argon2id other (c.random 32 (d.host.draws + 1))
      → ((unlock c other (restarted (save c (some password) d).1)).0 ≡ err wrong_password)
        × ((unlock c other (restarted (save c (some password) d).1)).1.vault.contents ≡ none)
  unlock-save_other other ne =
      let e : Envelope = sealed c password d.host contents in
      let (refused, shut, _) =
        unlock_refuses c other (restarted (saved c password d contents)) e refl
          (lookup-replace_file d.vault.path (envelope e) d.host.disk) refl
          (w.decrypt-other _ _ _ _ ne) in
      rw (save-saved c password d contents open_now) (refused, shut)

module _ (c : Crypto) (password : Text) (agent_enabled : Bool) (d : Desk) where
  create_contents :
      is_some (lookup d.vault.path d.host.disk) ≡ false
      → ((create c password agent_enabled d).0 ≡ ok (lit "pgs_ai_" ++ c.random 48 d.host.draws))
        × ((create c password agent_enabled d).1.vault.contents
            ≡ some (
                first_contents c agent_enabled
                  (c.hashpw (d.host.draws + 1) (lit "pgs_ai_" ++ c.random 48 d.host.draws))))
  unfolding create save
  create_contents fresh = ground arith

  -- Where a token fits its own hash: creating a vault at a path without a file returns a token
  -- that begins with pgs_ai_, leaves the vault open with a key hash that accepts the token, and
  -- enables agents as was asked.
  pub create-token :
      IsCrypto c
      → is_some (lookup d.vault.path d.host.disk) ≡ false
      → (token : Text) × (contents : VaultData) × ((create c password agent_enabled d).0 ≡ ok token)
        × ((create c password agent_enabled d).1.vault.contents ≡ some contents)
        × (starts_with token (lit "pgs_ai_") ≡ true)
        × (verify_agent_token c token contents.agent.key_hash ≡ true)
        × (contents.agent.enabled ≡ agent_enabled)
  unfolding verify_agent_token starts_with lit
  create-token w fresh =
      let (made, contents) = create_contents fresh in
      (_, _, made, contents, refl, w.checkpw-hashpw _ _, refl)
