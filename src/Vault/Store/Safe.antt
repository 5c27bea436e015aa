-- ===== src/Vault/Store/Safe.antt =====
-- app/core/vault.py: `class Vault` as a safe that is shut or open, with a sealed copy of what it
-- holds.
use pgsentinel_mcp.Base.Json.{Json}
use pgsentinel_mcp.Base.Dict.{lookup}
use pgsentinel_mcp.Base.Result.{Result, ok, err}
use pgsentinel_mcp.Base.{
  is_some, false, true, Option, Text, List, ◌∷◌, ◌≡◌, Bool, some, none, [], ◌⊎◌,
}
use pgsentinel_mcp.Vault.Store.Invariant.{
  Operation, edited, after, lock, touch, load_encrypted, unlock, save, create, edit,
}
use pgsentinel_mcp.Vault.Store
use pgsentinel_mcp.Vault.Store.{
  Desk, write_envelope, save_contents, draw, recovery, text, File, Envelope, envelope,
  first_contents,
}
use pgsentinel_mcp.Vault.Crypto.{Crypto}
use pgsentinel_mcp.Vault.Data.{VaultData}
use pgsentinel_mcp.Vault.Codec.{to_dict, from_dict}

-- The abstract state: the contents, where the safe is open, and the sealed file.
pub record Safe : Type 0 where
  pub opened : Option VaultData
  pub sealed : Option File

abbrev pub view : Desk → Safe
view d = record { opened = d.vault.contents; sealed = lookup d.vault.path d.host.disk }

-- A file that a password opens, with what it holds.
pub record Opens (c : Crypto) (password : Text) (file : Option File) (v : VaultData) : Type 0 where
  pub envelope_in : Envelope
  pub payload : Json
  pub on_file : file ≡ some (envelope envelope_in)
  pub decrypted :
      c.decrypt (c.argon2id password envelope_in.salt) envelope_in.nonce envelope_in.ciphertext
      ≡ some payload
  pub reads : from_dict payload ≡ some v

-- A file that some key seals, with what it holds.
pub record Seals (c : Crypto) (file : Option File) (v : VaultData) : Type 0 where
  pub envelope_in : Envelope
  pub key : Text
  pub on_file : file ≡ some (envelope envelope_in)
  pub encrypted : envelope_in.ciphertext ≡ c.encrypt key envelope_in.nonce (to_dict v)

-- Whether an operation returns, and does not raise.
abbrev pub returned : {E A : Type 0} → Result E A → Bool
returned (ok a) = true
returned (err e) = false

unfoldable pub returns : Crypto → Operation → Desk → Bool
returns c lock d = returned (Store.lock d).0
returns c touch d = returned (Store.touch d).0
returns c load_encrypted d = returned (Store.load_encrypted d).0
returns c (unlock password) d = returned (Store.unlock c password d).0
returns c (save password) d = returned (Store.save c password d).0
returns c (create password agent_enabled) d = returned (Store.create c password agent_enabled d).0
returns c (edit f) d = true

-- What an operation does to the safe, where it returns and where it raises.
abbrev pub Allows : Crypto → Operation → Bool → Safe → Safe → Type 0
Allows c lock done s t = (done ≡ true) × (t ≡ record s { opened = none })
Allows c touch done s t = (done ≡ true) × (t ≡ s)
Allows c load_encrypted done s t = t ≡ s
Allows c (edit f) done s t = t ≡ record s { opened = edited f s.opened }
Allows c (unlock password) false s t = (s.opened ≡ none) × (t ≡ s)
Allows c (unlock password) true s t =
    ((is_some s.opened ≡ true) × (t ≡ s))
    ⊎ ((v : VaultData) × (s.opened ≡ none)
        × Opens c password s.sealed v
        × (t ≡ record s { opened = some v }))
Allows c (save password) false s t = t ≡ s
Allows c (save password) true s t =
    (v : VaultData) × (s.opened ≡ some v) × (t.opened ≡ some v) × Seals c t.sealed v
Allows c (create password agent_enabled) false s t = (is_some s.sealed ≡ true) × (t ≡ s)
Allows c (create password agent_enabled) true s t =
    (key_hash : Text) × (s.sealed ≡ none)
    × (t.opened ≡ some (first_contents c agent_enabled key_hash))
    × Seals c t.sealed (first_contents c agent_enabled key_hash)

-- A sequence of operations of the safe, each with whether it returns.
abbrev pub Steps : Crypto → List (Operation × Bool) → Safe → Safe → Type 0
Steps c [] s t = t ≡ s
Steps c ((op, done) ∷ events) s t = (u : Safe) × Allows c op done s u × Steps c events u t

-- The operations of a desk, each with whether it returns.
unfoldable pub events : Crypto → List Operation → Desk → List (Operation × Bool)
events c [] d = []
events c (op ∷ ops) d = (op, returns c op d) ∷ events c ops (after c op d)

pub same_safe : {s t : Safe} → s.opened ≡ t.opened → s.sealed ≡ t.sealed → s ≡ t
same_safe {s} {t} p q i = record { opened = p i; sealed = q i }
