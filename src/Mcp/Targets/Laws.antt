-- ===== src/Mcp/Targets/Laws.antt =====
-- app/mcp/tools.py: which targets a tool can reach.
use pgsentinel_mcp.Base.Result.{ok}
use pgsentinel_mcp.Vault.Data.{
  only, get_server, get_default_server, VaultData, ServerDef, get_postgres_target,
  get_default_postgres_target, PostgresTargetDef,
}
use pgsentinel_mcp.Mcp.Targets.{resolve_server, resolve_postgres_target}
use pgsentinel_mcp.Base.{
  List, Bool, find, ◌≡◌, some, ◌∷◌, Option, true, Text, [], arith, ◌⊎◌, keep, inr, Option-cases,
  ◌==◌, inl, equal_iff, Bool-cases, none, refl,
}

find-holds : {A : Type 0} (p : A → Bool) (xs : List A) {a : A} → find p xs ≡ some a → p a ≡ true
find-holds p [] h = cc
find-holds p (x ∷ xs) h = elim (Bool-cases (p x)) [
  | inl e ↦ ground (arith, e)
  | inr e ↦ find-holds p xs (ground (arith, e))
]

only-one : {A : Type 0} (xs : List A) {a : A} → only xs ≡ some a → xs ≡ a ∷ []
only-one [] h = cc
only-one (x ∷ []) h = ground arith
only-one (x ∷ y ∷ xs) h = cc

-- A server that a tool reaches has the identifier that was given, or is the only one that is
-- enabled.
pub resolve_server-IsNamed :
    (d : VaultData) (name : Option Text) {s : ServerDef}
    → resolve_server d name ≡ ok s
    → ((n : Text) × (name ≡ some n) × (s.id ≡ n)) ⊎ (keep (λ x. x.enabled) d.servers ≡ s ∷ [])
unfolding resolve_server get_server get_default_server
resolve_server-IsNamed d none h = inr (only-one (keep (λ x. x.enabled) d.servers) (ground arith))
resolve_server-IsNamed d (some []) h =
    inr (only-one (keep (λ x. x.enabled) d.servers) (ground arith))
resolve_server-IsNamed d (some (c ∷ n)) {s} h =
    elim (Option-cases (find (λ (x : ServerDef). x.id == (c ∷ n)) d.servers)) [
      | inl e ↦ inr (only-one (keep (λ x. x.enabled) d.servers) (ground arith))
      | inr (t, e) ↦ inl (
        c ∷ n,
        refl,
        ground (
          arith,
          find-holds (λ (x : ServerDef). x.id == (c ∷ n)) d.servers e,
          equal_iff t.id (c ∷ n),
        ),
      )
    ]

-- With one server, which is enabled, a tool reaches it under every name and under none.
pub resolve_server-single :
    (d : VaultData) (name : Option Text) {s : ServerDef}
    → d.servers ≡ s ∷ []
    → s.enabled ≡ true
    → resolve_server d name ≡ ok s
unfolding resolve_server get_server get_default_server
resolve_server-single d none one on = ground arith
resolve_server-single d (some []) one on = ground arith
resolve_server-single d (some (c ∷ n)) one on = ground arith

pub resolve_postgres_target-single :
    (d : VaultData) (name : Option Text) {t : PostgresTargetDef}
    → d.postgres_targets ≡ t ∷ []
    → t.enabled ≡ true
    → resolve_postgres_target d name ≡ ok t
unfolding resolve_postgres_target get_postgres_target get_default_postgres_target
resolve_postgres_target-single d none one on = ground arith
resolve_postgres_target-single d (some []) one on = ground arith
resolve_postgres_target-single d (some (c ∷ n)) one on = ground arith
