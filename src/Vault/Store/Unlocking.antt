-- ===== src/Vault/Store/Unlocking.antt =====
-- app/core/vault.py: what `Vault.unlock` does to the safe.
use pgsentinel_mcp.Base.Json.{Json}
use pgsentinel_mcp.Base.Dict.{lookup}
use pgsentinel_mcp.Base.Int.{pos, ltb_ℤ}
use pgsentinel_mcp.Base.{
  false, true, ◌||◌, Option, Text, ◌≡◌, refl, Bool, some, none, inl, inr, arith,
}
use pgsentinel_mcp.Vault.Store.Invariant.{unlock}
use pgsentinel_mcp.Vault.Store
use pgsentinel_mcp.Vault.Store.{
  Desk, write_envelope, save_contents, draw, recovery, text, File, Envelope, envelope,
  first_contents,
}
use pgsentinel_mcp.Vault.Crypto.{Crypto}
use pgsentinel_mcp.Vault.Data.{VaultData}
use pgsentinel_mcp.Vault.Codec.{from_dict}
use pgsentinel_mcp.Vault.Store.Safe.{Allows, view, returned, same_safe}

module _ (c : Crypto) where
  abbrev pub Unlocks : Text → Desk → Type 0
  Unlocks password d =
      Allows c (unlock password) (returned (Store.unlock c password d).0) (view d)
        (view (Store.unlock c password d).1)

  unlock_raised :
      (password : Text) (d : Desk)
      → returned (Store.unlock c password d).0 ≡ false
      → d.vault.contents ≡ none
      → view (Store.unlock c password d).1 ≡ view d
      → Unlocks password d
  unlock_raised password d raised h same = rw raised (h, same)

  opened_at :
      (password : Text) (d : Desk) (e : Envelope) (payload : Json) (o : Option VaultData)
      → d.vault.contents ≡ none
      → lookup d.vault.path d.host.disk ≡ some (envelope e)
      → (ltb_ℤ e.version (pos 1) || ltb_ℤ (pos 2) e.version) ≡ false
      → c.decrypt (c.argon2id password e.salt) e.nonce e.ciphertext ≡ some payload
      → from_dict payload ≡ o
      → Unlocks password d
  unfolding Store.unlock
  opened_at password d e payload none h k fits dec r =
      unlock_raised password d (ground arith) h (same_safe (ground arith) (ground arith))
  opened_at password d e payload (some v) h k fits dec r =
      let opens : returned (Store.unlock c password d).0 ≡ true = ground arith in
      rw opens (
        inr (
          v,
          h,
          record { envelope_in = e; payload = payload; on_file = k; decrypted = dec; reads = r },
          same_safe (ground arith) (ground arith),
        ))

  envelope_at :
      (password : Text) (d : Desk) (e : Envelope) (refused : Bool) (p : Option Json)
      → d.vault.contents ≡ none
      → lookup d.vault.path d.host.disk ≡ some (envelope e)
      → (ltb_ℤ e.version (pos 1) || ltb_ℤ (pos 2) e.version) ≡ refused
      → c.decrypt (c.argon2id password e.salt) e.nonce e.ciphertext ≡ p
      → Unlocks password d
  unfolding Store.unlock
  envelope_at password d e true p h k fits dec =
      unlock_raised password d (ground arith) h (same_safe (ground arith) (ground arith))
  envelope_at password d e false none h k fits dec =
      unlock_raised password d (ground arith) h (same_safe (ground arith) (ground arith))
  envelope_at password d e false (some payload) h k fits dec =
      opened_at password d e payload (from_dict payload) h k fits dec refl

  unlock_at :
      (password : Text) (d : Desk) (o : Option VaultData) (f : Option File)
      → d.vault.contents ≡ o
      → lookup d.vault.path d.host.disk ≡ f
      → Unlocks password d
  unfolding Store.unlock
  unlock_at password d (some v) f h k =
      let stays : returned (Store.unlock c password d).0 ≡ true = ground arith in
      rw stays (inl (ground arith, same_safe (ground arith) (ground arith)))
  unlock_at password d none none h k =
      unlock_raised password d (ground arith) h (same_safe (ground arith) (ground arith))
  unlock_at password d none (some (envelope e)) h k = envelope_at password d e _ _ h k refl refl
  unlock_at password d none (some (recovery e)) h k =
      unlock_raised password d (ground arith) h (same_safe (ground arith) (ground arith))
  unlock_at password d none (some (text e)) h k =
      unlock_raised password d (ground arith) h (same_safe (ground arith) (ground arith))

  pub unlock-Allows : (password : Text) (d : Desk) → Unlocks password d
  unlock-Allows password d = unlock_at password d _ _ refl refl
