-- ===== src/Remote/Connection/Clean.antt =====
-- app/remote/connection.py: what is left behind after a run.
use pgsentinel_mcp.Base.Result.{Result, ok, err}
use mathlib.Core.Path.{ap}
use pgsentinel_mcp.Base.Exec.{bind_keeps, raise_when, ◌>>◌, pure, continue}
use pgsentinel_mcp.Remote.Command.{Arg, build_command}
use pgsentinel_mcp.Vault.Data.{ServerDef}
use pgsentinel_mcp.Base.{
  Text, ◌≡◌, Option, none, ◌⊎◌, arith, List, ◌++◌, ◌∷◌, ℕ, [], refl, Bool, inl, some, Bool-cases,
  inr, ◌∙◌, ◌&&◌, true, not, false,
}
use pgsentinel_mcp.Remote.Connection.{
  Answers, Host, RunError, CommandResult, Run, run_ssh, connect, execute, write_key, remove_key,
  finally, open_client, close_client, send, collected, talk, result_ok, command_failed, error_text,
}
use pgsentinel_mcp.Remote.Drain.{Outcome, finished, timed_out}
use pgsentinel_mcp.Base.Dict.{erase-insert, Dict, lookup}

-- The same files and as many open clients; the command was sent once, or not at all.
pub record IsClean (command : Text) (before after : Host) : Type 0 where
  pub same_files : after.files ≡ before.files
  pub same_clients : after.open_clients ≡ before.open_clients
  pub sent_once : (after.sent ≡ before.sent) ⊎ (after.sent ≡ before.sent ++ (command ∷ []))

raise_when_state : {E S : Type 0} (b : Bool) (e : E) (s : S) → (raise_when b e s).1 ≡ s
raise_when_state true e s = refl
raise_when_state false e s = refl

check_state :
    (b : Bool) (e : RunError) (r : CommandResult) (h : Host)
    → (◌>>◌ {E = RunError} {S = Host} (raise_when b e) (pure r) h).1 ≡ h
check_state true e r h = refl
check_state false e r h = refl

IsClean-unsent :
    {command : Text} {h after : Host}
    → after ≡ close_client (open_client h)
    → IsClean command h after
IsClean-unsent {h = h} e = record {
  same_files = ap (λ x. x.files) e;
  same_clients = ap (λ x. x.open_clients) e ∙ omega arith;
  sent_once = inl (ap (λ x. x.sent) e);
}

IsClean-sent :
    {command : Text} {h after : Host}
    → after ≡ close_client (send command (open_client h))
    → IsClean command h after
IsClean-sent {h = h} e = record {
  same_files = ap (λ x. x.files) e;
  same_clients = ap (λ x. x.open_clients) e ∙ omega arith;
  sent_once = inr (ap (λ x. x.sent) e);
}

module _ (decode : Text → Text) (name : Text) (answers : Answers) where
  connect_state :
      (key : Text) (h : Host)
      → lookup name h.files ≡ none
      → (connect decode name answers key h).1 ≡ h
  unfolding connect
  connect_state [] h fresh = raise_when_state _ _ h
  connect_state (c ∷ key) h fresh =
      ap (remove_key name (c ∷ key)) (raise_when_state _ _ (write_key name (c ∷ key) h))
      ∙ ap (λ d. record h { files = d }) (erase-insert name (c ∷ key) h.files fresh)

  collected_state :
      (label : Text) (timeout : ℕ) (o : Option Outcome) (h : Host)
      → (collected decode name answers label timeout o h).1 ≡ h
  collected_state label timeout none h = refl
  collected_state label timeout (some timed_out) h = refl
  collected_state label timeout (some (finished out errors)) h = refl

  execute_state :
      (command label : Text) (timeout : ℕ) (h : Host)
      → ((execute decode name answers command label timeout h).1 ≡ h)
        ⊎ ((execute decode name answers command label timeout h).1 ≡ send command h)
  unfolding execute
  execute_state command label timeout h = elim (Bool-cases answers.accepts) [
    | inl e ↦ inr (rw e (collected_state label timeout _ (send command h)))
    | inr e ↦ inl (rw e refl)
  ]

  execute_after :
      (r : Result RunError (Unit {0})) (command label : Text) (timeout : ℕ) (h : Host)
      → ((continue r (λ _. execute decode name answers command label timeout) h).1 ≡ h)
        ⊎ ((continue r (λ _. execute decode name answers command label timeout) h).1
            ≡ send command h)
  execute_after (ok done) command label timeout h = execute_state command label timeout h
  execute_after (err raised) command label timeout h = inl refl

  talk_state :
      (key command label : Text) (timeout : ℕ) (h : Host)
      → lookup name h.files ≡ none
      → ((talk decode name answers key command label timeout h).1 ≡ h)
        ⊎ ((talk decode name answers key command label timeout h).1 ≡ send command h)
  talk_state key command label timeout h fresh =
      rw (connect_state key h fresh)
        (execute_after (connect decode name answers key h).0 command label timeout h)

  -- Where the name of the temporary file is new: however a run over SSH ends, by a result or by
  -- an exception, the files are those of before and no client is left open; the command was sent
  -- once or not at all.
  pub run_ssh-IsClean :
      (server : Option ServerDef) (args : List Arg) (label : Text) (env : Option (Dict Text))
      (timeout : ℕ) (check : Bool) (h : Host)
      → lookup name h.files ≡ none
      → IsClean
          (build_command args env)
          h
          (run_ssh decode name answers server args label env timeout check h).1
  unfolding run_ssh
  run_ssh-IsClean none args label env timeout check h fresh = record {
    same_files = refl;
    same_clients = refl;
    sent_once = inl refl;
  }
  run_ssh-IsClean (some srv) args label env timeout check h fresh =
      let m : Run CommandResult =
        finally
          (talk decode name answers srv.ssh_private_key (build_command args env) label timeout)
          close_client in
      let e =
        bind_keeps m
          (λ result.
            raise_when (check && not (result_ok result))
              (command_failed label result.exit_code (error_text result))
            >> pure result)
          (open_client h)
          (λ a t. check_state _ (command_failed label a.exit_code (error_text a)) a t) in
      elim (talk_state srv.ssh_private_key (build_command args env) label timeout (open_client h)
        fresh) [
          | inl k ↦ IsClean-unsent (e ∙ ap close_client k)
          | inr k ↦ IsClean-sent (e ∙ ap close_client k)
        ]
