-- ===== src/Remote/Drain/Ends.antt =====
-- app/remote/ssh_client.py and app/remote/connection.py: the read loop ends, and with what.
use pgsentinel_mcp.Remote.Drain.{Round, Outcome, finished, timed_out, append_chunk, drain}
use pgsentinel_mcp.Base.{
  Text, ℕ, zero, suc, ◌+◌, ◌*◌, ◌<◌, ◌≤◌, Bool, true, false, Option, some, List, [], ◌≡◌, refl,
  arith, leb, ◌||◌, inl, inr, Bool-cases, subst, ◌∙◌,
}

-- The chunks that n rounds from the i-th on have read.
abbrev pub chunks_of : (Round → Option Text) → (ℕ → Round) → ℕ → ℕ → List Text → List Text
chunks_of part rounds i zero chunks = chunks
chunks_of part rounds i (suc n) chunks =
    chunks_of part rounds (suc i) n (append_chunk chunks (part (rounds i)))

abbrev stops : ℕ → Round → Bool
stops deadline r = r.ended || leb deadline r.now

-- A round in which nothing ends, before which the time passes by 20 milliseconds at least.
abbrev pub Ticks : (ℕ → Round) → Type 0
Ticks rounds = (i : ℕ) → (rounds i).now + 20 ≤ (rounds (suc i)).now

-- The command ends in a round, and no round before it was after the deadline.
pub record EndsAt (rounds : ℕ → Round) (deadline i n : ℕ) : Type 0 where
  pub ended : (rounds (n + i)).ended ≡ true
  pub pending : (k : ℕ) → k < n → stops deadline (rounds (k + i)) ≡ false

drain_step :
    (fuel : ℕ) (rounds : ℕ → Round) (deadline i : ℕ) (out err : List Text)
    → stops deadline (rounds i) ≡ false
    → drain (suc fuel) rounds deadline i out err
      ≡ drain fuel rounds deadline
          (suc i)
          (append_chunk out (rounds i).out)
          (append_chunk err (rounds i).err)
unfolding drain
drain_step fuel rounds deadline i out err h = ground (arith, h)

drain_stop :
    (fuel : ℕ) (rounds : ℕ → Round) (deadline i : ℕ) (out err : List Text)
    → stops deadline (rounds i) ≡ true
    → (o : Outcome) × (drain (suc fuel) rounds deadline i out err ≡ some o)
unfolding drain
drain_stop fuel rounds deadline i out err h = elim (Bool-cases (rounds i).ended) [
  | inl e ↦
      (finished (append_chunk out (rounds i).out) (append_chunk err (rounds i).err), rw e refl)
  | inr e ↦ (timed_out, ground (arith, e, h))
]

later :
    {rounds : ℕ → Round} {deadline i n : ℕ}
    → EndsAt rounds deadline i (suc n)
    → EndsAt rounds deadline (suc i) n
later {rounds} {deadline} {i} {n} e = record {
  ended = subst (λ k. (rounds k).ended ≡ true) (omega arith) e.ended;
  pending = λ k h.
      subst (λ j. stops deadline (rounds j) ≡ false) (omega arith)
        (e.pending (suc k) (omega arith));
}

first_pending :
    {rounds : ℕ → Round} {deadline i n : ℕ}
    → EndsAt rounds deadline i (suc n)
    → stops deadline (rounds i) ≡ false
first_pending {rounds} {deadline} e =
    subst (λ j. stops deadline (rounds j) ≡ false) (omega arith) (e.pending 0 (omega arith))

drain_end :
    (fuel : ℕ) (rounds : ℕ → Round) (deadline i : ℕ) (out err : List Text)
    → (rounds i).ended ≡ true
    → drain (suc fuel) rounds deadline i out err
      ≡ some (finished (append_chunk out (rounds i).out) (append_chunk err (rounds i).err))
unfolding drain
drain_end fuel rounds deadline i out err h = ground (arith, h)

drain_total :
    (fuel : ℕ) (rounds : ℕ → Round) (deadline i : ℕ) (out err : List Text)
    → Ticks rounds
    → 0 < fuel
    → deadline + 20 ≤ (rounds i).now + fuel * 20
    → (o : Outcome) × (drain fuel rounds deadline i out err ≡ some o)
drain_total zero rounds deadline i out err tick p h = absurd (omega arith)
drain_total (suc fuel) rounds deadline i out err tick p h =
    elim (Bool-cases (stops deadline (rounds i))) [
      | inl e ↦ drain_stop fuel rounds deadline i out err e
      | inr e ↦
          let t = tick i in
          rw (drain_step fuel rounds deadline i out err e) (
            drain_total fuel rounds deadline (suc i) _ _ tick (ground (arith, e))
              (ground (arith, e)))
    ]

drain_finished :
    (n fuel : ℕ) (rounds : ℕ → Round) (deadline i : ℕ) (out err : List Text)
    → EndsAt rounds deadline i n
    → n < fuel
    → drain fuel rounds deadline i out err
      ≡ some (
          finished
            (chunks_of (λ r. r.out) rounds i (suc n) out)
            (chunks_of (λ r. r.err) rounds i (suc n) err))
drain_finished n zero rounds deadline i out err e h = absurd (omega arith)
drain_finished zero (suc fuel) rounds deadline i out err e h =
    drain_end fuel rounds deadline i out err
      (subst (λ k. (rounds k).ended ≡ true) (omega arith) e.ended)
drain_finished (suc n) (suc fuel) rounds deadline i out err e h =
    drain_step fuel rounds deadline i out err (first_pending e)
    ∙ drain_finished n fuel rounds deadline (suc i) _ _ (later e) (omega arith)

-- The time after n rounds.
Ticks-le : (rounds : ℕ → Round) (n : ℕ) → Ticks rounds → (rounds 0).now + n * 20 ≤ (rounds n).now
Ticks-le rounds zero tick = omega arith
Ticks-le rounds (suc n) tick = let t = tick n in let h = Ticks-le rounds n tick in omega arith

module _ (rounds : ℕ → Round) (start limit : ℕ) (tick : Ticks rounds)
    (begun : start ≤ (rounds 0).now) where
  -- rounds
  pub drain-ends :
      (o : Outcome) × (drain (limit * 50 + 1) rounds (start + limit * 1000) 0 [] [] ≡ some o)
  drain-ends =
      drain_total (limit * 50 + 1) rounds (start + limit * 1000) 0 [] [] tick (omega arith)
        (omega arith)

  in_time : (n : ℕ) → EndsAt rounds (start + limit * 1000) 0 n → n < limit * 50 + 1
  in_time zero e = omega arith
  in_time (suc n) e =
      let p : stops (start + limit * 1000) (rounds n) ≡ false =
        subst (λ k. stops (start + limit * 1000) (rounds k) ≡ false) (omega arith)
          (e.pending n (omega arith)) in
      let t = Ticks-le rounds n tick in ground (arith, p, t)

  pub drain-whole_output :
      (n : ℕ)
      → EndsAt rounds (start + limit * 1000) 0 n
      → drain (limit * 50 + 1) rounds (start + limit * 1000) 0 [] []
        ≡ some (
            finished
              (chunks_of (λ r. r.out) rounds 0 (suc n) [])
              (chunks_of (λ r. r.err) rounds 0 (suc n) []))
  drain-whole_output n e =
      drain_finished n (limit * 50 + 1) rounds (start + limit * 1000) 0 [] [] e (in_time n e)
