-- ===== src/Vault/Store/Refinement.antt =====
-- app/core/vault.py: sequences of the operations of `class Vault` as sequences of the safe.
use pgsentinel_mcp.Base.Dict.{lookup}
use pgsentinel_mcp.Base.{
  false, true, ◌++◌, lit, Option, Text, List, ◌∷◌, ◌≡◌, refl, Bool, some, none, [], arith, ◌+◌,
}
use pgsentinel_mcp.Vault.Store.Invariant.{
  Operation, after, run, lock, touch, load_encrypted, unlock, save, create, edit,
}
use pgsentinel_mcp.Vault.Store
use pgsentinel_mcp.Vault.Store.{
  Desk, write_envelope, save_contents, draw, recovery, text, File, Envelope, envelope,
  first_contents,
}
use pgsentinel_mcp.Vault.Crypto.{Crypto}
use pgsentinel_mcp.Vault.Store.Laws.{lookup-replace_file, saved, sealed}
use pgsentinel_mcp.Vault.Data.{VaultData}
use pgsentinel_mcp.Vault.Store.Safe.{Allows, Steps, events, returns, view, returned, same_safe}
use pgsentinel_mcp.Vault.Store.Unlocking.{unlock-Allows}

module _ (c : Crypto) where
  write-Allows :
      (key : Option Text) (nonce : Text) (v : VaultData) (d : Desk)
      → d.vault.contents ≡ some v
      → Allows c
          (save none)
          (returned (write_envelope c v nonce key d).0)
          (view d)
          (view (write_envelope c v nonce key d).1)
  unfolding Store.touch
  write-Allows none nonce v d h = refl
  write-Allows (some key) nonce v d h = (
    v,
    h,
    h,
    record {
      envelope_in = _;
      key = key;
      on_file = lookup-replace_file d.vault.path _ d.host.disk;
      encrypted = refl;
    },
  )

  save_contents-Allows :
      (password : Option Text) (o : Option VaultData) (d : Desk)
      → d.vault.contents ≡ o
      → Allows c
          (save none)
          (returned (save_contents c password o d).0)
          (view d)
          (view (save_contents c password o d).1)
  unfolding draw Store.derive_key
  save_contents-Allows none none d h = refl
  save_contents-Allows (some password) none d h = refl
  save_contents-Allows none (some v) d h =
      write-Allows _ _ v (record d { host = record d.host { draws = d.host.draws + 1 } }) h
  save_contents-Allows (some password) (some v) d h =
      let salt : Text = c.random 32 (d.host.draws + 1) in
      let key : Text = c.argon2id password salt in
      write-Allows (some key) _ v
        (record {
          vault = record d.vault { salt = some salt; derived_key = some key };
          host = record d.host { draws = d.host.draws + 1 + 1 };
        })
        h

  save-Allows :
      (password : Option Text) (d : Desk)
      → Allows c
          (save password)
          (returned (Store.save c password d).0)
          (view d)
          (view (Store.save c password d).1)
  unfolding Store.save
  save-Allows password d = save_contents-Allows password d.vault.contents d refl

  module _ (password : Text) (agent_enabled : Bool) (d : Desk) where
    -- The contents of a vault that is made, and the desk that `create` saves.
    abbrev created_contents : VaultData
    created_contents =
        first_contents c agent_enabled
          (c.hashpw (d.host.draws + 1) (lit "pgs_ai_" ++ c.random 48 d.host.draws))

    abbrev created : Desk
    created =
        let salt : Text = c.random 32 (d.host.draws + 1 + 1) in
        record {
          vault = record d.vault {
            contents = some created_contents;
            salt = some salt;
            derived_key = some (c.argon2id password salt);
          };
          host = record d.host { draws = d.host.draws + 1 + 1 + 1 };
        }

    abbrev Creates : Type 0
    Creates =
        Allows c (create password agent_enabled)
          (returned (Store.create c password agent_enabled d).0) (view d)
          (view (Store.create c password agent_enabled d).1)

    create-saved :
        lookup d.vault.path d.host.disk ≡ none
        → (Store.create c password agent_enabled d).1 ≡ saved c password created created_contents
    unfolding Store.create Store.save
    create-saved fresh = ground arith

    create_at : (f : Option File) → lookup d.vault.path d.host.disk ≡ f → Creates
    unfolding Store.create
    create_at (some f) k =
        let raises : returned (Store.create c password agent_enabled d).0 ≡ false = ground arith in
        rw raises (ground arith, same_safe (ground arith) (ground arith))
    create_at none k =
        let makes : returned (Store.create c password agent_enabled d).0 ≡ true = ground arith in
        rw (makes, create-saved k)
          ((
            _,
            k,
            refl,
            record {
              envelope_in = sealed c password created.host created_contents;
              key = _;
              on_file = lookup-replace_file d.vault.path _ d.host.disk;
              encrypted = refl;
            },
          ))

load-same : (d : Desk) → view (Store.load_encrypted d).1 ≡ view d
unfolding Store.load_encrypted
load-same d = same_safe (ground arith) (ground arith)

after-Allows :
    (c : Crypto) (op : Operation) (d : Desk)
    → Allows c op (returns c op d) (view d) (view (after c op d))
unfolding after returns
after-Allows c lock d = unfold Store.lock in (refl, refl)
after-Allows c touch d = unfold Store.touch in (refl, refl)
after-Allows c load_encrypted d = load-same d
after-Allows c (unlock password) d = unlock-Allows c password d
after-Allows c (save password) d = save-Allows c password d
after-Allows c (create password b) d = create_at c password b d _ refl
after-Allows c (edit f) d = refl

-- Any sequence of operations on a vault, from any state, is one of an abstract safe, which knows
-- only what is open and the sealed file at its path: locking shuts it, a save or a creation that
-- returns seals what is open under some key and one that raises changes nothing, an unlocking
-- that returns leaves an open safe as it is or opens what the password decrypts in the sealed
-- file, and one that raises leaves the safe shut and as it was.
pub run-Steps :
    (c : Crypto) (ops : List Operation) (d : Desk)
    → Steps c (events c ops d) (view d) (view (run c ops d))
unfolding run events
run-Steps c [] d = refl
run-Steps c (op ∷ ops) d =
    (view (after c op d), after-Allows c op d, run-Steps c ops (after c op d))
