-- ===== src/Remote/Connection.antt =====
-- app/remote/connection.py: `ConnectionAdapter.run`, on the server or on this machine.
pub mod Clean
pub mod Returns
use pgsentinel_mcp.Base.Int.{ℤ, pos, ltb_ℤ}
use pgsentinel_mcp.Base.Dict.{Dict, insert, erase}
use pgsentinel_mcp.Base.Exec.{Exec, pure, raise, modify, raise_when, ◌>>=◌, ◌>>◌}
use pgsentinel_mcp.Vault.Data.{ServerDef}
use pgsentinel_mcp.Remote.Command.{Arg, str_of, build_command}
use pgsentinel_mcp.Remote.Drain.{Round, Outcome, finished, timed_out, drain, joined}
use pgsentinel_mcp.Base.{
  ◌||◌, Text, ℕ, ◌+◌, ◌-◌, ◌*◌, Bool, true, false, not, ◌&&◌, Option, none, some, List, [], ◌∷◌,
  ◌++◌, if◌then◌else◌, is_empty, lit, ◌==◌, map, eqb,
}

pub record CommandResult : Type 0 where
  pub command_label : Text
  pub exit_code : ℤ
  pub stdout : Text
  pub stderr : Text

-- exit_code == 0
unfoldable pub is_zero : ℤ → Bool
is_zero (pos n) = eqb n 0
is_zero _ = false

abbrev pub result_ok : CommandResult → Bool
result_ok r = is_zero r.exit_code

pub data RunError : Type 0 where
  no_server connect_failed exec_failed : RunError
  command_timed_out : Text → ℕ → RunError
  command_failed : Text → ℤ → Text → RunError
  -- what `subprocess.run` raises, and what the model adds: the fuel of the read loop is used up
  process_failed unfinished : RunError

-- What the SSH library, the server and the clock answer in one run: `connect` and `exec_command`
-- return or raise, the time when reading starts, the rounds of the read loop, and the exit code.
pub record Answers : Type 0 where
  pub connects : Bool
  pub accepts : Bool
  pub start : ℕ
  pub rounds : ℕ → Round
  pub exit_code : ℤ

-- What a run changes: the temporary files, the clients that are open, the commands that were sent.
pub record Host : Type 0 where
  pub files : Dict Text
  pub open_clients : ℕ
  pub sent : List Text

abbrev pub Run : Type 0 → Type 0
Run = Exec RunError Host

-- try: m finally: f
abbrev pub finally : {E S A : Type 0} → Exec E S A → (S → S) → Exec E S A
finally m f s = ((m s).0, f (m s).1)

abbrev pub open_client : Host → Host
open_client h = record h { open_clients = h.open_clients + 1 }

abbrev pub close_client : Host → Host
close_client h = record h { open_clients = h.open_clients - 1 }

-- The private key goes to a file while the client connects, where there is one.
abbrev pub write_key : Text → Text → Host → Host
write_key name key h = if is_empty key then h else record h { files = insert name key h.files }

abbrev pub remove_key : Text → Text → Host → Host
remove_key name key h = if is_empty key then h else record h { files = erase name h.files }

abbrev pub send : Text → Host → Host
send command h = record h { sent = h.sent ++ (command ∷ []) }

-- The rounds of the read loop that a limit in seconds takes, one more than 20 ms each.
abbrev pub rounds_for : ℕ → ℕ
rounds_for limit = limit * 50 + 1

-- `result.stderr or result.stdout`
abbrev pub error_text : CommandResult → Text
error_text r = if is_empty r.stderr then r.stdout else r.stderr

-- `name` is the name of the temporary file, `decode` the bytes as text.
module _ (decode : Text → Text) (name : Text) (answers : Answers) where
  abbrev pub collected : Text → ℕ → Option Outcome → Run CommandResult
  collected label timeout none = raise unfinished
  collected label timeout (some timed_out) = raise (command_timed_out label timeout)
  collected label timeout (some (finished out errors)) = pure (record {
    command_label = label;
    exit_code = answers.exit_code;
    stdout = decode (joined out);
    stderr = decode (joined errors);
  })

  unfoldable pub connect : Text → Run (Unit {0})
  connect key = do
    modify (write_key name key)
    finally (raise_when (not answers.connects) connect_failed) (remove_key name key)

  unfoldable pub execute : Text → Text → ℕ → Run CommandResult
  execute command label timeout = do
    raise_when (not answers.accepts) exec_failed
    modify (send command)
    collected label timeout
        (drain (rounds_for timeout) answers.rounds (answers.start + timeout * 1000) 0 [] [])

  abbrev pub talk : Text → Text → Text → ℕ → Run CommandResult
  talk key command label timeout = connect key >> execute command label timeout

  unfoldable pub run_ssh :
      Option ServerDef → List Arg → Text → Option (Dict Text) → ℕ → Bool → Run CommandResult
  run_ssh none args label env timeout check = raise no_server
  run_ssh (some srv) args label env timeout check = do
    modify open_client
    result ← finally (talk srv.ssh_private_key (build_command args env) label timeout) close_client
    raise_when (check && not (result_ok result))
        (command_failed label result.exit_code (error_text result))
    pure result

-- d.update(e)
unfoldable pub update : Dict Text → Dict Text → Dict Text
update d [] = d
update d ((k, v) ∷ e) = update (insert k v d) e

-- What `subprocess.run` makes of arguments and environment: the exit code and the two outputs, or
-- an exception. `environ` is `os.environ`.
abbrev pub Process : Type 0
Process = List Text → Option (Dict Text) → Option (ℤ × Text × Text)

abbrev merged : Dict Text → Option (Dict Text) → Option (Dict Text)
merged environ none = none
merged environ (some []) = none
merged environ (some (e ∷ env)) = some (update environ (e ∷ env))

abbrev completed : Text → Option (ℤ × Text × Text) → Run CommandResult
completed label none = raise process_failed
completed label (some (code, out, errors)) =
    pure (record { command_label = label; exit_code = code; stdout = out; stderr = errors })

-- `check` is not looked at.
unfoldable pub run_local :
    Process → Dict Text → List Arg → Text → Option (Dict Text) → Run CommandResult
unfolding update
run_local process environ args label env =
    completed label (process (map str_of args) (merged environ env))

abbrev is_remote : Text → Bool
is_remote mode =
    mode == lit "ssh"
    || mode == lit "docker_exec_psql_over_ssh"
    || mode == lit "ssh_tunnel_direct_postgres"

abbrev goes_remote : Option ServerDef → Bool
goes_remote none = false
goes_remote (some srv) = is_remote srv.connection_mode

unfoldable pub run :
    (Text → Text)
    → Text
    → Answers
    → Process
    → Dict Text
    → Option ServerDef
    → List Arg
    → Text
    → Option (Dict Text)
    → ℕ
    → Bool
    → Run CommandResult
run decode name answers process environ server args label env timeout check =
    if goes_remote server
    then run_ssh decode name answers server args label env timeout check
    else run_local process environ args label env
