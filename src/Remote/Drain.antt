-- ===== src/Remote/Drain.antt =====
-- app/remote/ssh_client.py and app/remote/connection.py: the loop that reads what a command prints
-- until the command has ended, or its time is up.
pub mod Ends
use pgsentinel_mcp.Base.{
  Text, ℕ, zero, suc, ◌+◌, Bool, Option, none, some, List, [], ◌∷◌, ◌++◌, if◌then◌else◌, leb, ◌&&◌,
}

-- One round, as the channel and the clock answer in it: what `recv` and `recv_stderr` return where
-- there is something to read, whether the command has ended and nothing is left to read, and the
-- time in milliseconds.
pub record Round : Type 0 where
  pub out : Option Text
  pub err : Option Text
  pub ended : Bool
  pub now : ℕ

pub data Outcome : Type 0 where
  finished : List Text → List Text → Outcome
  timed_out : Outcome

-- chunks.append(chunk)
abbrev pub append_chunk : List Text → Option Text → List Text
append_chunk chunks none = chunks
append_chunk chunks (some chunk) = chunks ++ (chunk ∷ [])

-- `while True`, on fuel, from the i-th round; `none` where the fuel runs out.
unfoldable pub drain : ℕ → (ℕ → Round) → ℕ → ℕ → List Text → List Text → Option Outcome
drain zero rounds deadline i out err = none
drain (suc fuel) rounds deadline i out err =
    let r = rounds i in
    let out_chunks = append_chunk out r.out in
    let err_chunks = append_chunk err r.err in
    let again = drain fuel rounds deadline (suc i) out_chunks err_chunks in
    if r.ended
    then some (finished out_chunks err_chunks)
    else if leb deadline r.now
    then some timed_out
    else again

-- b"".join(chunks)
abbrev pub joined : List Text → Text
joined [] = []
joined (c ∷ cs) = c ++ joined cs
