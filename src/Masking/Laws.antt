-- ===== src/Masking/Laws.antt =====
-- app/core/masking.py: what masking hides.
use pgsentinel_mcp.Base.{Text, List, ◌≡◌, true, Bool, if◌then◌else◌, arith, false, refl}
use pgsentinel_mcp.Masking.{is_sensitive_key, mask_data, mask_items, mask_fields, mask}
use pgsentinel_mcp.Base.Json.{
  Json, null, bool, num, str, arr, obj, Items, nil, item, Fields, end, field,
}

abbrev mutual
  -- Below a value, every sensitive key holds the mask.
  pub HidesSecrets : Json → Type 0
  HidesSecrets (obj fs) = FieldsHide fs
  HidesSecrets (arr js) = ItemsHide js
  HidesSecrets _ = Unit

  ItemsHide : Items → Type 0
  ItemsHide nil = Unit
  ItemsHide (item j js) = HidesSecrets j × ItemsHide js

  FieldsHide : Fields → Type 0
  FieldsHide end = Unit
  FieldsHide (field k v fs) =
      (is_sensitive_key k ≡ true → v ≡ str mask) × HidesSecrets v × FieldsHide fs

hides_value :
    (b : Bool) (v : Json)
    → HidesSecrets v
    → (b ≡ true → (if b then str mask else v) ≡ str mask) × HidesSecrets (if b then str mask else v)
hides_value true v h = (λ _. refl, tt)
hides_value false v h = (λ e. ground (arith, e), h)

mutual
  unfolding mask_data mask_items mask_fields

  masked-HidesSecrets : (patterns : List Text) (j : Json) → HidesSecrets (mask_data patterns j)
  masked-HidesSecrets patterns (str s) = tt
  masked-HidesSecrets patterns (obj fs) = masked-FieldsHide patterns fs
  masked-HidesSecrets patterns (arr js) = masked-ItemsHide patterns js
  masked-HidesSecrets patterns null = tt
  masked-HidesSecrets patterns (bool b) = tt
  masked-HidesSecrets patterns (num n) = tt

  masked-ItemsHide : (patterns : List Text) (js : Items) → ItemsHide (mask_items patterns js)
  masked-ItemsHide patterns nil = tt
  masked-ItemsHide patterns (item j js) =
      (masked-HidesSecrets patterns j, masked-ItemsHide patterns js)

  masked-FieldsHide : (patterns : List Text) (fs : Fields) → FieldsHide (mask_fields patterns fs)
  masked-FieldsHide patterns end = tt
  masked-FieldsHide patterns (field k v fs) =
      let (a, b) =
        hides_value (is_sensitive_key k) (mask_data patterns v) (masked-HidesSecrets patterns v) in
      (a, b, masked-FieldsHide patterns fs)

-- In masked data, at any depth, the value of every key that names a secret is the mask.
pub mask_data-HidesSecrets : (patterns : List Text) (j : Json) → HidesSecrets (mask_data patterns j)
mask_data-HidesSecrets = masked-HidesSecrets
