-- ===== src/Remote/Client.antt =====
-- app/remote/ssh_client.py: `RemoteSSHClient`, the client of the configuration file; and what its
-- users in app/remote ask it to run.
pub mod Docker
pub mod Logs
pub mod Postgres
pub mod Asked
pub mod Bounds
pub mod Queries
mod Tests
use pgsentinel_mcp.Base.Int.{ℤ, pos, negsuc}
use pgsentinel_mcp.Base.Dict.{Dict}
use pgsentinel_mcp.Base.Exec.{Exec, pure, raise, lift, modify, raise_when, ◌>>=◌, ◌>>◌}
use pgsentinel_mcp.Base.Result.{Result, ok, err}
use pgsentinel_mcp.Config.{PgSentinelConfig}
use pgsentinel_mcp.Masking.{mask_text}
use pgsentinel_mcp.Security.{Checked, SecurityError}
use pgsentinel_mcp.Remote.Command.{Arg, build_command}
use pgsentinel_mcp.Remote.Connection.{
  Run, RunError, CommandResult, Answers, Process, result_ok, command_failed, connect_failed,
  error_text, execute, open_client, close_client, finally, run_local,
}
use pgsentinel_mcp.Base.{
  Text, ℕ, zero, Bool, not, ◌&&◌, Option, none, some, List, [], ◌∷◌, ◌++◌, ◌==◌, lit, strip,
  if◌then◌else◌,
}

abbrev pub seconds : ℤ → ℕ
seconds (pos n) = n
seconds (negsuc _) = 0

-- `timeout or command_timeout_seconds`
abbrev pub limit_of : PgSentinelConfig → Option ℕ → ℕ
limit_of c none = seconds c.security.command_timeout_seconds
limit_of c (some zero) = seconds c.security.command_timeout_seconds
limit_of c (some (ℕ.suc n)) = ℕ.suc n

module _ (c : PgSentinelConfig) (decode : Text → Text) (name : Text) (answers : Answers) where
  -- A client that does not connect is closed.
  unfoldable pub client_connect : Run (Unit {0})
  client_connect = do
    modify open_client
    if answers.connects then pure tt else (modify close_client >> raise connect_failed)

  abbrev pub raise_failed : Text → Bool → CommandResult → Run CommandResult
  raise_failed label check result = do
    raise_when (check && not (result_ok result)) (
        command_failed label result.exit_code
          (strip (mask_text (error_text result) c.masking.patterns)))
    pure result

  unfoldable pub client_run :
      Process
      → Dict Text
      → List Arg
      → Text
      → Option (Dict Text)
      → Option ℕ
      → Bool
      → Run CommandResult
  unfolding client_connect strip mask_text
  client_run process environ args label env timeout check =
      if c.server.mode == lit "local"
      then (run_local process environ args label env >>= raise_failed label check)
      else (client_connect
          >> (finally
                (execute decode name answers (build_command args env) label (limit_of c timeout))
                close_client
              >>= raise_failed label check))

-- What the users of a connection raise; the last ones are the `ValueError`s of
-- app/tools/safe_diagnostics.py, with the name that is not allowed.
pub data Fault : Type 0 where
  security : SecurityError → Fault
  run_failed : RunError → Fault
  raw_sql_disabled : Fault
  container_refused log_refused table_refused source_refused module_refused : Text → Fault
  source_missing : Text → Fault

-- `run`, as its users see it: arguments and `check` to a result or an exception.
abbrev pub Runner : Type 0
Runner = List Arg → Bool → Result RunError CommandResult

-- A computation that asks for commands: those that it has asked for are kept, in their order.
abbrev pub Asks : Type 0 → Type 0
Asks = Exec Fault (List (List Arg))

abbrev ran : Result RunError CommandResult → Result Fault CommandResult
ran (ok r) = ok r
ran (err e) = err (run_failed e)

abbrev pub ask : Runner → List Arg → Bool → Asks CommandResult
ask runner args check asked = (ran (runner args check), asked ++ (args ∷ []))

abbrev secured : {A : Type 0} → Checked A → Result Fault A
secured (ok a) = ok a
secured (err e) = err (security e)

abbrev pub secure : {A : Type 0} → Checked A → Asks A
secure r = lift (secured r)
