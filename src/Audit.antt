-- ===== src/Audit.antt =====
-- app/core/audit.py: the audit log, and the wrapper of every tool. `now` and the clock are given;
-- the keys of an event are not sorted here.
pub mod Laws
mod Tests
use pgsentinel_mcp.Base.Int.{ℤ, pos}
use pgsentinel_mcp.Base.Json.{Json, str, bool, num, obj, Fields, end, field, get}
use pgsentinel_mcp.Base.Result.{Result, ok, err}
use pgsentinel_mcp.Masking.{mask_fields}
use pgsentinel_mcp.Base.{
  Text, ℕ, Bool, true, Option, none, some, List, [], ◌∷◌, ◌++◌, lit, if◌then◌else◌, is_some,
}

-- The lines of the log file, and the messages on the standard error.
pub record AuditLog : Type 0 where
  pub events : List Fields
  pub messages : List Text

-- Whether the file can be written, and the text of the `OSError` where it cannot.
abbrev pub Disk : Type 0
Disk = Option Text

-- d[k] = v, for a key that the dict does not have
abbrev pub append_field : Text → Json → Fields → Fields
append_field k v end = field k v end
append_field k v (field j w fs) = field j w (append_field k v fs)

-- event.setdefault("timestamp", now)
abbrev stamped : Text → Fields → Fields
stamped now event =
    if is_some (get (lit "timestamp") event)
    then event
    else append_field (lit "timestamp") (str now) event

unfoldable pub write_audit_event : Disk → Text → Fields → AuditLog → AuditLog
unfolding mask_fields
write_audit_event none now event log = record log {
  events = log.events ++ (mask_fields [] (stamped now event) ∷ []);
}
write_audit_event (some error) now event log = record log {
  messages = log.messages ++ ((lit "pgsentinel: audit write failed (" ++ (error ++ lit ")")) ∷ []);
}

-- `summary["_positional_count"] = len(args)`, where there are positional arguments. No tool has a
-- keyword of that name.
abbrev pub with_count : ℕ → Fields → Fields
with_count ℕ.zero kwargs = kwargs
with_count (ℕ.suc n) kwargs = append_field (lit "_positional_count") (num (pos (ℕ.suc n))) kwargs

unfoldable pub summarize_call : ℕ → Fields → Fields
unfolding mask_fields
summarize_call positional kwargs = mask_fields [] (with_count positional kwargs)

-- A call of a tool: its arguments, and the times when it starts and ends in milliseconds.
pub record Call : Type 0 where
  pub tool : Text
  pub positional : ℕ
  pub kwargs : Fields
  pub now : Text
  pub duration : ℕ

abbrev pub status_of : {E A : Type 0} → Result E A → Text
status_of (ok a) = lit "success"
status_of (err e) = lit "error"

abbrev pub event_of : Call → Text → Fields → Fields
event_of c status summary = field (lit "timestamp") (str c.now) (
    field (lit "tool") (str c.tool) (
      field (lit "arguments_summary") (obj summary) (
        field (lit "status") (str status) (
          field (lit "duration_ms") (num (pos c.duration))
            (field (lit "readonly") (bool true) end)))))

-- The wrapper that `audit_tool_call` puts around a function: the event is written whether the
-- function returns or raises, and then its result or its exception goes on.
unfoldable pub audit_tool_call :
    {E A : Type 0} → Disk → Call → Result E A → AuditLog → Result E A × AuditLog
unfolding write_audit_event summarize_call
audit_tool_call disk c r log = (
  r,
  write_audit_event disk c.now (event_of c (status_of r) (summarize_call c.positional c.kwargs))
      log,
)
