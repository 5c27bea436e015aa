-- ===== src/Vault/Store/Invariant.antt =====
-- app/core/vault.py: sequences of the operations of `class Vault`.
use pgsentinel_mcp.Base.{Text, Bool, true, Option, none, some, List, [], ◌∷◌, ◌≡◌, arith, is_some}
use pgsentinel_mcp.Base.Result.{ok}
use pgsentinel_mcp.Vault.Data.{VaultData}
use pgsentinel_mcp.Vault.Crypto.{Crypto}
use pgsentinel_mcp.Vault.Store
use pgsentinel_mcp.Vault.Store.{Host, Vault, Desk, new_vault, is_unlocked}

pub data Operation : Type 0 where
  lock touch load_encrypted : Operation
  unlock : Text → Operation
  save : Option Text → Operation
  create : Text → Bool → Operation
  -- a client changes the contents that `data` returned to it
  edit : (VaultData → VaultData) → Operation

abbrev pub edited : (VaultData → VaultData) → Option VaultData → Option VaultData
edited f none = none
edited f (some d) = some (f d)

-- The desk behind an operation, whether it returns or raises.
unfoldable pub after : Crypto → Operation → Desk → Desk
after c lock d = (Store.lock d).1
after c touch d = (Store.touch d).1
after c load_encrypted d = (Store.load_encrypted d).1
after c (unlock password) d = (Store.unlock c password d).1
after c (save password) d = (Store.save c password d).1
after c (create password agent_enabled) d = (Store.create c password agent_enabled d).1
after c (edit f) d = record d { vault = record d.vault { contents = edited f d.vault.contents } }

unfoldable pub run : Crypto → List Operation → Desk → Desk
run c [] d = d
run c (op ∷ ops) d = run c ops (after c op d)

abbrev IsKeyed : Desk → Type 0
IsKeyed d =
    is_unlocked d.vault ≡ true
    → (is_some d.vault.derived_key ≡ true) × (is_some d.vault.salt ≡ true)

unlock-IsKeyed :
    (c : Crypto) (password : Text) (d : Desk) → IsKeyed d → IsKeyed (Store.unlock c password d).1
unfolding Store.unlock
unlock-IsKeyed c password d h u = ground arith

save-IsKeyed :
    (c : Crypto) (password : Option Text) (d : Desk)
    → IsKeyed d
    → IsKeyed (Store.save c password d).1
unfolding Store.save
save-IsKeyed c none d h u = ground arith
save-IsKeyed c (some password) d h u = ground arith

create-IsKeyed :
    (c : Crypto) (password : Text) (agent_enabled : Bool) (d : Desk)
    → IsKeyed d
    → IsKeyed (Store.create c password agent_enabled d).1
unfolding Store.create
create-IsKeyed c password agent_enabled d h u = ground arith

after-IsKeyed : (c : Crypto) (op : Operation) (d : Desk) → IsKeyed d → IsKeyed (after c op d)
unfolding after
after-IsKeyed c lock d h = unfold Store.lock in λ u. ground arith
after-IsKeyed c touch d h = unfold Store.touch in h
after-IsKeyed c load_encrypted d h = unfold Store.load_encrypted in λ u. ground arith
after-IsKeyed c (unlock password) d h = unlock-IsKeyed c password d h
after-IsKeyed c (save password) d h = save-IsKeyed c password d h
after-IsKeyed c (create password b) d h = create-IsKeyed c password b d h
after-IsKeyed c (edit f) d h = λ u. ground arith

run-IsKeyed : (c : Crypto) (ops : List Operation) (d : Desk) → IsKeyed d → IsKeyed (run c ops d)
unfolding run
run-IsKeyed c [] d h = h
run-IsKeyed c (op ∷ ops) d h = run-IsKeyed c ops (after c op d) (after-IsKeyed c op d h)

save_keyed :
    (c : Crypto) (d : Desk)
    → IsKeyed d
    → is_unlocked d.vault ≡ true
    → (Store.save c none d).0 ≡ ok tt
unfolding Store.save
save_keyed c d h u = ground arith

-- After any sequence of operations on a vault that began locked, failed operations included, an
-- unlocked vault is saved without its password.
pub save-run :
    (c : Crypto) (ops : List Operation) (path : Text) (h : Host)
    → is_unlocked (run c ops (record { vault = new_vault path; host = h })).vault ≡ true
    → (Store.save c none (run c ops (record { vault = new_vault path; host = h }))).0 ≡ ok tt
save-run c ops path h u =
    let d : Desk = record { vault = new_vault path; host = h } in
    save_keyed c (run c ops d) (run-IsKeyed c ops d (λ e. absurd (cc))) u
