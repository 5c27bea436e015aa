-- ===== src/Vault/Crypto.antt =====
-- What app/core/vault.py, app/core/vault_manager.py and app/core/agent_key.py use of the packages
-- `cryptography`, `argon2` and `bcrypt` and of `secrets`: keys and tokens are texts.
use pgsentinel_mcp.Base.{ℕ, Text, Bool, true, Option, none, some, ◌≡◌, ◌≢◌}
use pgsentinel_mcp.Base.Json.{Json}

-- A ciphertext, as the JSON value that a file holds for it.
abbrev pub Ciphertext : Type 0
Ciphertext = Json

pub record Crypto : Type 0 where
  -- argon2id of a password and a salt, and scrypt of a recovery key and a salt
  pub argon2id : Text → Text → Text
  pub scrypt : Text → Text → Text
  -- AESGCM(key).encrypt(nonce, plaintext) and .decrypt: `none` where the tag does not fit
  pub encrypt : Text → Text → Json → Ciphertext
  pub decrypt : Text → Text → Ciphertext → Option Json
  -- what the n-th draw of `secrets` returns, for a number of bytes
  pub random : ℕ → ℕ → Text
  -- bcrypt.hashpw with the salt of the n-th draw, and bcrypt.checkpw, false where it raises
  pub hashpw : ℕ → Text → Text
  pub checkpw : Text → Text → Bool

-- The documented behaviour of authenticated encryption and of password hashes: a key opens what it
-- closed, no other key does, and a token fits its hash. (The text between `json.dumps` and
-- `json.loads` is left out.)
pub record IsCrypto (c : Crypto) : Type 0 where
  pub decrypt-encrypt : (k n : Text) (j : Json) → c.decrypt k n (c.encrypt k n j) ≡ some j
  pub decrypt-other : (k k' n : Text) (j : Json) → k ≢ k' → c.decrypt k' n (c.encrypt k n j) ≡ none
  pub checkpw-hashpw : (n : ℕ) (token : Text) → c.checkpw token (c.hashpw n token) ≡ true
