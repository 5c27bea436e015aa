-- ===== src/Audit/Laws.antt =====
-- app/core/audit.py: what an audit log tells of the arguments of a tool.
use pgsentinel_mcp.Base.Result.{Result}
use mathlib.Core.Path.{ap}
use pgsentinel_mcp.Masking.{mask_fields, is_sensitive_key, mask, mask_data}
use pgsentinel_mcp.Base.{
  List, Text, ℕ, ◌≡◌, Bool, [], inr, suc, if◌then◌else◌, true, zero, ◌⊎◌, refl, inl, ◌∙◌, false,
}
use pgsentinel_mcp.Audit.{
  Disk, summarize_call, Call, append_field, AuditLog, audit_tool_call, write_audit_event, event_of,
  status_of,
}
use pgsentinel_mcp.Base.Json.{Json, Fields, end, field, str}

-- The same keys, in the same order, and the same values but for keys that are sensitive.
abbrev pub Agree : Fields → Fields → Type 0
Agree end end = Unit
Agree end (field k v fs) = ⊥
Agree (field k v fs) end = ⊥
Agree (field k v fs) (field j w gs) =
    (k ≡ j) × ((is_sensitive_key k ≡ true) ⊎ (v ≡ w)) × Agree fs gs

mask-same :
    (patterns : List Text) (b : Bool) (v w : Json)
    → (b ≡ true) ⊎ (v ≡ w)
    → (if b then str mask else mask_data patterns v)
      ≡ (if b then str mask else mask_data patterns w)
mask-same patterns true v w h = refl
mask-same patterns false v w (inl e) = cc
mask-same patterns false v w (inr e) = ap (mask_data patterns) e

mask_fields-Agree :
    (patterns : List Text) (fs gs : Fields)
    → Agree fs gs
    → mask_fields patterns fs ≡ mask_fields patterns gs
unfolding mask_fields
mask_fields-Agree patterns end end h = refl
mask_fields-Agree patterns end (field k v gs) h = elim h [ ]
mask_fields-Agree patterns (field k v fs) end h = elim h [ ]
mask_fields-Agree patterns (field k v fs) (field j w gs) (e, same, rest) =
    ap (λ r. field k (if is_sensitive_key k then str mask else mask_data patterns v) r)
      (mask_fields-Agree patterns fs gs rest)
    ∙ ap (λ x. field k x (mask_fields patterns gs))
        (mask-same patterns (is_sensitive_key k) v w same)
    ∙ ap
        (λ x.
          field x (if is_sensitive_key x then str mask else mask_data patterns w)
            (mask_fields patterns gs))
        e

append-Agree :
    (k : Text) (v : Json) (fs gs : Fields)
    → Agree fs gs
    → Agree (append_field k v fs) (append_field k v gs)
append-Agree k v end end h = (refl, inr refl, tt)
append-Agree k v end (field j w gs) h = elim h [ ]
append-Agree k v (field j w fs) end h = elim h [ ]
append-Agree k v (field i u fs) (field j w gs) (e, same, rest) =
    (e, same, append-Agree k v fs gs rest)

summarize_call-Agree :
    (n : ℕ) (fs gs : Fields) → Agree fs gs → summarize_call n fs ≡ summarize_call n gs
unfolding summarize_call
summarize_call-Agree zero fs gs h = mask_fields-Agree [] fs gs h
summarize_call-Agree (suc n) fs gs h = mask_fields-Agree [] _ _ (append-Agree _ _ fs gs h)

-- Two calls of a tool that take the same time at the same time, have as many positional
-- arguments and come to the same result or exception, and whose keyword arguments differ only in
-- the values of keys that name secrets, leave the same audit log, whether the log can be written
-- or not.
pub audit_tool_call-Agree :
    {E A : Type 0} (disk : Disk) (c : Call) (kwargs : Fields) (r : Result E A) (log : AuditLog)
    → Agree c.kwargs kwargs
    → audit_tool_call disk c r log ≡ audit_tool_call disk (record c { kwargs = kwargs }) r log
unfolding audit_tool_call
audit_tool_call-Agree disk c kwargs r log h =
    ap (λ summary. (r, write_audit_event disk c.now (event_of c (status_of r) summary) log))
      (summarize_call-Agree c.positional c.kwargs kwargs h)
