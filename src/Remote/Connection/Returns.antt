-- ===== src/Remote/Connection/Returns.antt =====
-- app/remote/connection.py: a run over SSH ends, and with what.
use pgsentinel_mcp.Base.Exec.{◌>>◌, continue, raise_when, pure}
use pgsentinel_mcp.Remote.Connection.{
  Host, talk, open_client, RunError, result_ok, command_failed, error_text,
}
use pgsentinel_mcp.Base.{if◌then◌else◌, ◌*◌, none, ◌&&◌, not}
use pgsentinel_mcp.Base.Dict.{Dict}
use pgsentinel_mcp.Remote.Command.{Arg, build_command}
use pgsentinel_mcp.Vault.Data.{ServerDef}
use pgsentinel_mcp.Base.Result.{err, ok, Result}
use pgsentinel_mcp.Remote.Drain.{Outcome, joined, finished, timed_out}
use Prim.Native.Nat.{◌≤◌}
use pgsentinel_mcp.Remote.Drain.Ends.{Ticks, chunks_of, drain-ends, EndsAt, drain-whole_output}
use pgsentinel_mcp.Remote.Connection.{
  Answers, CommandResult, execute, run_ssh, connect, unfinished, collected, send,
}
use pgsentinel_mcp.Base.{
  Text, ℕ, Option, ◌≡◌, ◌≢◌, some, suc, List, Bool-cases, [], arith, inl, true, Bool, inr, ◌+◌,
}

check_ends :
    (check : Bool) (label : Text) (r : Result RunError CommandResult) (h : Host)
    → r ≢ err unfinished
    → (continue r
        (λ result.
          raise_when
            (check && not (result_ok result))
            (command_failed label result.exit_code (error_text result))
          >> pure result)
        h).0
      ≢ err unfinished
check_ends check label (err raised) h e k = e (ground (arith, k))
check_ends check label (ok result) h e k = ground (arith, k)

module _ (decode : Text → Text) (name : Text) (answers : Answers) where
  collected-ends :
      (label : Text) (timeout : ℕ) {r : Option Outcome} {o : Outcome} (h : Host)
      → r ≡ some o
      → (collected decode name answers label timeout r h).0 ≢ err unfinished
  collected-ends label timeout {o = timed_out} h e k = ground (arith, e, k)
  collected-ends label timeout {o = finished out errors} h e k = ground (arith, e, k)

  connect-ends : (key : Text) (h : Host) → (connect decode name answers key h).0 ≢ err unfinished
  unfolding connect
  connect-ends key h k = elim (Bool-cases answers.connects) [
    | inl e ↦ ground (arith, e, k)
    | inr e ↦ ground (arith, e, k)
  ]

  module _ (timeout : ℕ) (tick : Ticks answers.rounds)
      (begun : answers.start ≤ (answers.rounds 0).now) where
    execute-ends :
        (command label : Text) (h : Host)
        → (execute decode name answers command label timeout h).0 ≢ err unfinished
    unfolding execute
    execute-ends command label h k = elim (Bool-cases answers.accepts) [
      | inl e ↦
          let (o, d) = drain-ends answers.rounds answers.start timeout tick begun in
          collected-ends label timeout (send command h) d (ground (arith, e, k))
      | inr e ↦ ground (arith, e, k)
    ]

    execute_after_ends :
        (r : Result RunError (Unit {0})) (command label : Text) (h : Host)
        → r ≢ err unfinished
        → (continue r (λ _. execute decode name answers command label timeout) h).0 ≢ err unfinished
    execute_after_ends (ok done) command label h e k = execute-ends command label h k
    execute_after_ends (err raised) command label h e k = e (ground (arith, k))

    talk-ends :
        (key command label : Text) (h : Host)
        → (talk decode name answers key command label timeout h).0 ≢ err unfinished
    talk-ends key command label h =
        execute_after_ends (connect decode name answers key h).0 command label
          (connect decode name answers key h).1 (connect-ends key h)

    -- Where a round of the read loop takes 20 milliseconds at least and reading begins at the
    -- start: a run over SSH comes to a result or to an exception of the code within the rounds
    -- that its time limit gives; the fuel of the model is enough.
    pub run_ssh-ends :
        (server : Option ServerDef) (args : List Arg) (label : Text) (env : Option (Dict Text))
        (check : Bool) (h : Host)
        → (run_ssh decode name answers server args label env timeout check h).0 ≢ err unfinished
    unfolding run_ssh
    run_ssh-ends none args label env check h k = ground (arith, k)
    run_ssh-ends (some srv) args label env check h k =
        check_ends check label _ _
          (talk-ends srv.ssh_private_key (build_command args env) label (open_client h)) k

    abbrev pub printed : Text → ℕ → CommandResult
    printed label n = record {
      command_label = label;
      exit_code = answers.exit_code;
      stdout = decode (joined (chunks_of (λ r. r.out) answers.rounds 0 (suc n) []));
      stderr = decode (joined (chunks_of (λ r. r.err) answers.rounds 0 (suc n) []));
    }

    -- Where a round takes 20 milliseconds at least, reading begins at the start, the client
    -- connects and the command is accepted: a command that ends in a round before which there
    -- was no end and no passed deadline gives its exit code and all that it printed up to then,
    -- in order; with `check` and another exit code than 0 the run raises instead, with that code
    -- and the text of its errors or else of its output.
    pub run_ssh-printed :
        (srv : ServerDef) (args : List Arg) (label : Text) (env : Option (Dict Text)) (n : ℕ)
        (check : Bool) (h : Host)
        → answers.connects ≡ true
        → answers.accepts ≡ true
        → EndsAt answers.rounds (answers.start + timeout * 1000) 0 n
        → (run_ssh decode name answers (some srv) args label env timeout check h).0 ≡ (
            if check && not (result_ok (printed label n))
            then err (command_failed label answers.exit_code (error_text (printed label n)))
            else ok (printed label n))
    unfolding run_ssh connect execute
    run_ssh-printed srv args label env n check h c a e =
        let d = drain-whole_output answers.rounds answers.start timeout tick begun n e in
        rw (c, a, d) (ground arith)
