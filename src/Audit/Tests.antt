-- ===== src/Audit/Tests.antt =====
-- Runs of app/core/audit.py and app/core/masking.py, and the theorems at inputs.
use pgsentinel_mcp.Base.Int.{pos}
use pgsentinel_mcp.Base.Result.{ok, Result}
use pgsentinel_mcp.Base.{Text, lit, [], none, inl, ◌∷◌, ◌≡◌, refl, inr, ℕ}
use pgsentinel_mcp.Base.Json.{Fields, end, field, str, obj, num}
use pgsentinel_mcp.Masking.{is_value, mask_text, mask_data, mask, is_sensitive_key}
use pgsentinel_mcp.Masking.Laws.{HidesSecrets, mask_data-HidesSecrets}
use pgsentinel_mcp.Audit.{Call, audit_tool_call}
use pgsentinel_mcp.Audit.Laws.{Agree, audit_tool_call-Agree}

mask_runs : Unit {0}
unfolding mask_text mask_data lit is_sensitive_key is_value
mask_runs = tt

masked_line :
    mask_text (lit "user=x PASSWORD: abc; Authorization: Basic zz") (lit "user=" ∷ [])
    ≡ lit "user=***MASKED*** PASSWORD: ***MASKED***; Authorization: ***MASKED***"
unfolding mask_runs
masked_line = refl

abbrev kwargs_of : Text → Fields
kwargs_of key = field (lit "Api-Key") (str key) (field (lit "limit") (num (pos 3)) end)

masked_kwargs :
    mask_data [] (obj (kwargs_of (lit "s3cret")))
    ≡ obj (field (lit "Api-Key") (str mask) (field (lit "limit") (num (pos 3)) end))
unfolding mask_runs
masked_kwargs = refl

mask_data-HidesSecrets_example : HidesSecrets (mask_data [] (obj (kwargs_of (lit "s3cret"))))
mask_data-HidesSecrets_example = mask_data-HidesSecrets [] (obj (kwargs_of (lit "s3cret")))

abbrev call_with : Text → Call
call_with key = record {
  tool = lit "t";
  positional = 1;
  kwargs = kwargs_of key;
  now = lit "now";
  duration = 5;
}

abbrev returned : Result Text ℕ
returned = ok 1

keys-Agree : Agree (kwargs_of (lit "one")) (kwargs_of (lit "another"))
unfolding mask_runs
keys-Agree = (refl, inl refl, (refl, inr refl, tt))

audit_tool_call-Agree_example :
    audit_tool_call none (call_with (lit "one")) returned (record { events = []; messages = [] })
    ≡ audit_tool_call none
        (call_with (lit "another"))
        returned
        (record { events = []; messages = [] })
audit_tool_call-Agree_example =
    audit_tool_call-Agree none (call_with (lit "one")) (kwargs_of (lit "another")) returned
      (record { events = []; messages = [] }) keys-Agree
