-- ===== src/Vault/Store/Tests.antt =====
-- A toy cipher that meets the assumptions, runs of a vault with it, and the theorems at them.
use pgsentinel_mcp.Vault.Codec.RoundTrip.{from_dict-to_dict}
use pgsentinel_mcp.Vault.Codec.{from_dict, to_dict}
use pgsentinel_mcp.Base.{
  Text, true, Option, none, some, List, [], ◌∷◌, ◌++◌, ◌≡◌, ◌≢◌, refl, arith, lit, equal_iff,
  equal_refl, ◌==◌, if◌then◌else◌, starts_with,
}
use pgsentinel_mcp.Base.Result.{ok, err}
use pgsentinel_mcp.Base.Dict.{lookup}
use pgsentinel_mcp.Base.Json.{Json, str, arr, nil, item}
use pgsentinel_mcp.Vault.Data.{VaultData, new_vault_data}
use pgsentinel_mcp.Vault.Crypto.{Crypto, Ciphertext, IsCrypto}
use pgsentinel_mcp.Vault.Store.{
  Host, Desk, new_vault, is_unlocked, save, unlock, create, wrong_password, verify_agent_token,
}
use pgsentinel_mcp.Vault.Store.Laws.{restarted, unlock-save, unlock-save_other, create-token}
use pgsentinel_mcp.Vault.Store.Invariant
use pgsentinel_mcp.Vault.Store.Safe.{Steps, events, view}
use pgsentinel_mcp.Vault.Store.Refinement.{run-Steps}

abbrev open_with : Text → Ciphertext → Option Json
open_with k (arr (item (str k') (item j nil))) = if k == k' then some j else none
open_with k _ = none

-- The key stands beside the plaintext.
abbrev pub toy : Crypto
toy = record {
  argon2id = λ password salt. password ++ salt;
  scrypt = λ key salt. key ++ salt;
  encrypt = λ k n j. arr (item (str k) (item j nil));
  decrypt = λ k n e. open_with k e;
  random = λ bytes n. n ∷ [];
  hashpw = λ n token. token;
  checkpw = λ token hash. token == hash;
}

pub toy-IsCrypto : IsCrypto toy
toy-IsCrypto = record {
  decrypt-encrypt = λ k n j. rw (equal_refl k);
  decrypt-other = λ k k' n j ne. ground (arith, equal_iff k' k);
  checkpw-hashpw = λ n token. equal_refl token;
}

abbrev path : Text
path = lit "vault.enc"

abbrev empty_host : Host
empty_host = record { disk = []; clock = 7; draws = 0 }

abbrev blank : Desk
blank = record { vault = new_vault path; host = empty_host }

abbrev opened : Desk
opened = record blank { vault = record blank.vault { contents = some new_vault_data } }

unlock-save_example :
    ((save toy (some (lit "pw")) opened).0 ≡ ok tt)
    × ((unlock toy (lit "pw") (restarted (save toy (some (lit "pw")) opened).1)).0 ≡ ok tt)
    × ((unlock toy (lit "pw") (restarted (save toy (some (lit "pw")) opened).1)).1.vault.contents
        ≡ some new_vault_data)
unlock-save_example = unlock-save toy toy-IsCrypto (lit "pw") opened refl

keys_differ : lit "pw" ++ 1 ∷ [] ≢ lit "no" ++ 1 ∷ []
unfolding lit
keys_differ e = ground arith

unlock-save_other_example :
    ((unlock toy (lit "no") (restarted (save toy (some (lit "pw")) opened).1)).0
      ≡ err wrong_password)
    × ((unlock toy (lit "no") (restarted (save toy (some (lit "pw")) opened).1)).1.vault.contents
        ≡ none)
unlock-save_other_example =
    unlock-save_other toy toy-IsCrypto (lit "pw") opened refl (lit "no") keys_differ

create-token_example :
    (token : Text) × (contents : VaultData) × ((create toy (lit "pw") true blank).0 ≡ ok token)
    × ((create toy (lit "pw") true blank).1.vault.contents ≡ some contents)
    × (starts_with token (lit "pgs_ai_") ≡ true)
    × (verify_agent_token toy token contents.agent.key_hash ≡ true)
    × (contents.agent.enabled ≡ true)
unfolding lookup
create-token_example = create-token toy (lit "pw") true blank toy-IsCrypto refl

abbrev script : List Invariant.Operation
script = Invariant.unlock (lit "pw") ∷ Invariant.create (lit "pw") true ∷ Invariant.touch ∷ []

script_opens : is_unlocked (Invariant.run toy script blank).vault ≡ true
unfolding Invariant.run Invariant.after unlock create lookup save
script_opens = refl

save-run_example : (save toy none (Invariant.run toy script blank)).0 ≡ ok tt
save-run_example = Invariant.save-run toy script path empty_host script_opens

from_dict-to_dict_example : from_dict (to_dict new_vault_data) ≡ some new_vault_data
from_dict-to_dict_example = from_dict-to_dict new_vault_data

run-Steps_example :
    Steps toy (events toy script blank) (view blank) (view (Invariant.run toy script blank))
run-Steps_example = run-Steps toy script blank
