-- ===== src/Remote/Tests.antt =====
-- Runs of app/remote, and the theorems at inputs that meet their hypotheses.
use pgsentinel_mcp.Base.Result.{ok, err}
use pgsentinel_mcp.Base.Int.{pos}
use pgsentinel_mcp.Base.Dict.{lookup, Dict}
use pgsentinel_mcp.Base.{
  [], lit, Option, true, arith, none, List, ◌+◌, ℕ, Text, ◌≡◌, suc, ◌*◌, ◌∷◌, some, ◌≢◌, refl,
  false, not, ◌&&◌, if◌then◌else◌, zero, ◌<◌, ◌||◌, leb, is_word, is_alnum, is_digit, is_upper,
  is_lower, has_char,
}
use pgsentinel_mcp.Remote.Connection.{
  Answers, Host, run_ssh, unfinished, CommandResult, command_failed, result_ok, error_text,
}
use pgsentinel_mcp.Remote.Connection.Clean.{IsClean, run_ssh-IsClean}
use pgsentinel_mcp.Remote.Connection.Returns.{run_ssh-ends, run_ssh-printed, printed}
use pgsentinel_mcp.Remote.Command.{Arg, text, number, build_command, quote, leave_quotes, is_plain}
use pgsentinel_mcp.Remote.Command.Shell.{build_command-words, words, between}
use pgsentinel_mcp.Security.Sql.{str, decimal_from}
use pgsentinel_mcp.Remote.Drain.{Round}
use pgsentinel_mcp.Remote.Drain.Ends.{Ticks, EndsAt}
use pgsentinel_mcp.Vault.Data.{ServerDef, new_server}

abbrev shown : List Arg
shown = text (lit "echo") ∷ text (lit "it's; rm -rf /") ∷ number (pos 5) ∷ []

abbrev secret_env : Option (Dict Text)
secret_env = some ((lit "PGPASSWORD", lit "p w") ∷ [])

command_runs : Unit {0}
unfolding build_command quote leave_quotes is_plain lit str decimal_from is_word is_alnum is_digit
    is_upper is_lower has_char
command_runs = tt

command_text : build_command shown secret_env ≡ lit "PGPASSWORD='p w' echo 'it'\"'\"'s; rm -rf /' 5"
unfolding command_runs
command_text = refl

build_command-words_example :
    words between (build_command shown secret_env)
    ≡ some (lit "PGPASSWORD=p w" ∷ lit "echo" ∷ lit "it's; rm -rf /" ∷ lit "5" ∷ [])
unfolding lit str decimal_from
build_command-words_example = build_command-words shown secret_env

-- A server that prints in its first round, and ends in its second one.
abbrev ticking : ℕ → Round
ticking zero = record { out = some (lit "hello "); err = none; ended = false; now = 0 }
ticking (suc n) = record { out = some (lit "world"); err = none; ended = true; now = (suc n) * 20 }

abbrev answers : Answers
answers = record { connects = true; accepts = true; start = 0; rounds = ticking; exit_code = pos 0 }

ticking-Ticks : Ticks ticking
ticking-Ticks zero = omega arith
ticking-Ticks (suc n) = omega arith

ends_second : EndsAt ticking (0 + 1 * 1000) 0 1
ends_second = record { ended = refl; pending = λ k h. first_pending k h }
  where
    first_pending :
        (k : ℕ)
        → k < 1
        → ((ticking (k + 0)).ended || leb (0 + 1 * 1000) (ticking (k + 0)).now) ≡ false
    first_pending zero h = refl
    first_pending (suc k) h = absurd (omega arith)

abbrev keyed : ServerDef
keyed = record (new_server (lit "i") (lit "n")) { ssh_private_key = lit "key" }

abbrev idle : Host
idle = record { files = []; open_clients = 0; sent = [] }

abbrev same : Text → Text
same s = s

no_files : lookup (lit "/tmp/k.pem") idle.files ≡ none
unfolding lookup
no_files = refl

run_ssh-IsClean_example :
    IsClean
      (build_command shown none)
      idle
      (run_ssh same (lit "/tmp/k.pem") answers (some keyed) shown (lit "l") none 1 true idle).1
run_ssh-IsClean_example =
    run_ssh-IsClean same (lit "/tmp/k.pem") answers (some keyed) shown (lit "l") none 1 true idle
      no_files

run_ssh-ends_example :
    (run_ssh same (lit "k") answers (some keyed) shown (lit "l") none 1 true idle).0
    ≢ err unfinished
run_ssh-ends_example =
    run_ssh-ends same (lit "k") answers 1 ticking-Ticks (omega arith) (some keyed) shown (lit "l")
      none true idle

abbrev result : CommandResult
result = printed same (lit "k") answers 1 ticking-Ticks (omega arith) (lit "l") 1

run_ssh-printed_example :
    (run_ssh same (lit "k") answers (some keyed) shown (lit "l") none 1 true idle).0 ≡ (
      if true && not (result_ok result)
      then err (command_failed (lit "l") answers.exit_code (error_text result))
      else ok result)
run_ssh-printed_example =
    run_ssh-printed same (lit "k") answers 1 ticking-Ticks (omega arith) keyed shown (lit "l") none
      1 true idle refl refl ends_second

printed_text :
    (printed same (lit "k") answers 1 ticking-Ticks (omega arith) (lit "l") 1).stdout
    ≡ lit "hello world"
unfolding lit
printed_text = refl
