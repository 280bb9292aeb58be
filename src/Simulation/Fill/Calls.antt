-- ===== src/Simulation/Fill/Calls.antt =====
-- Every call of `simulate_ioc` that returns, by its branch: a replay, a command that still waits,
-- or a command that is concluded and gets its receipt.
use kairos_execution_engine.Common.{
  ℕ, ◌+◌, ◌≤◌, ◌<◌, ◌≡◌, ◌&&◌, refl, true, arith, some, none, Option, Bool-cases, inl, inr, ok,
  ◌>>=◌, ltb, ◌==◌, bind_returned,
}
use kairos_execution_engine.Simulation.Models.{
  AcceptedBookFrame, IocCommand, FillAssumptions, FillOutcome, CommandReceipt, LiquidityState,
  ModelStep, wait, not_arrived, same_symbol,
}
use kairos_execution_engine.Simulation.Models.Valid.{
  coherent_command, coherent_frame, coherent_assumptions,
}
use kairos_execution_engine.Simulation.Models.Coherent.{coherent_state}
use kairos_execution_engine.Simulation.Issues.{Fingerprints}
use kairos_execution_engine.Simulation.Fill.{
  has_digest, unfilled, concluded, settle, evaluate, find_receipt, answer, simulate_ioc,
}
use kairos_execution_engine.Simulation.Fill.Branches.{
  with_receipt, IsStep, IsConcluded, concluded-IsConcluded,
}

-- What a call has passed when it returns.
pub record IsAccepted (h : Fingerprints) (c : IocCommand) (f : AcceptedBookFrame)
    (a : FillAssumptions) (s : LiquidityState) (as_of : ℕ) : Type 0 where
  pub command : coherent_command c ≡ true
  pub frame : coherent_frame f ≡ true
  pub assumptions : coherent_assumptions a ≡ true
  pub state : coherent_state s ≡ true
  pub clock : s.last_as_of_ms ≤ as_of
  pub session : (c.session_id == s.session_id && same_symbol c.symbol s.symbol) ≡ true
  pub book : (f.tape_id == s.tape_id && same_symbol f.symbol s.symbol) ≡ true
  pub policy : has_digest s.assumptions_sha256 (h.assumptions a) ≡ true

settle-IsStep :
    (o : FillOutcome) (t : LiquidityState) (m : ModelStep)
    → settle (o, t) ≡ ok m
    → IsStep m o (with_receipt o t) × (coherent_state (with_receipt o t) ≡ true)
unfolding settle with_receipt
settle-IsStep o t m e = ground arith

module _ (h : Fingerprints) (c : IocCommand) (f : AcceptedBookFrame) (a : FillAssumptions)
    (s : LiquidityState) (as_of : ℕ) where
  -- The branches of a call that returns `m`.
  pub data IsCall (m : ModelStep) : Type 0 where
    replay :
        (r : CommandReceipt)
        → find_receipt c.command_id s.receipts ≡ some r
        → (r.command_sha256 ≡ h.command c) × (r.assumptions_sha256 ≡ h.assumptions a)
        → (m.outcome ≡ r.outcome) × (m.state ≡ s) × (m.replayed ≡ true)
        → IsCall m
    waiting :
        find_receipt c.command_id s.receipts ≡ none
        → as_of < c.submitted_at_ms + a.latency_ms
        → IsStep m (unfilled h c f a (c.submitted_at_ms + a.latency_ms) wait not_arrived 0) s
        → IsCall m
    concluding :
        (o : FillOutcome) (t : LiquidityState)
        → find_receipt c.command_id s.receipts ≡ none
        → c.submitted_at_ms + a.latency_ms ≤ as_of
        → IsConcluded h c f a s as_of (c.submitted_at_ms + a.latency_ms) o t
        → IsStep m o (with_receipt o t)
        → coherent_state (with_receipt o t) ≡ true
        → IsCall m

  evaluate-IsCall :
      (m : ModelStep)
      → find_receipt c.command_id s.receipts ≡ none
      → evaluate h c f a s as_of ≡ ok m
      → IsCall m
  unfolding evaluate
  evaluate-IsCall m n e =
      let arrival = c.submitted_at_ms + a.latency_ms in
      elim (Bool-cases (ltb as_of arrival)) [
        | inl early ↦ waiting n (ground arith) (ground arith)
        | inr due ↦
            let e' : (concluded h c f a s as_of arrival >>= settle) ≡ ok m = rw due at e in
            let ((o, t), p, q) = bind_returned (concluded h c f a s as_of arrival) settle e' in
            let (step, valid) = settle-IsStep o t m q in
            concluding o t n (ground arith) (concluded-IsConcluded h c f a s as_of arrival o t p)
              step valid
      ]

  answer-IsCall :
      (m : ModelStep) (found : Option CommandReceipt)
      → find_receipt c.command_id s.receipts ≡ found
      → answer h c f a s as_of found ≡ ok m
      → IsCall m
  unfolding answer
  answer-IsCall m (some r) n e = replay r n (ground arith) (ground arith)
  answer-IsCall m none n e = evaluate-IsCall m n (ground arith)

  simulate_ioc-answer :
      (m : ModelStep)
      → simulate_ioc h c f a s as_of ≡ ok m
      → answer h c f a s as_of (find_receipt c.command_id s.receipts) ≡ ok m
  unfolding simulate_ioc
  simulate_ioc-answer m e = ground arith

  -- A call that returns has passed the validators and the identity and clock guards.
  pub simulate_ioc-IsAccepted :
      (m : ModelStep) → simulate_ioc h c f a s as_of ≡ ok m → IsAccepted h c f a s as_of
  unfolding simulate_ioc
  simulate_ioc-IsAccepted m e = ground arith

  pub simulate_ioc-IsCall : (m : ModelStep) → simulate_ioc h c f a s as_of ≡ ok m → IsCall m
  simulate_ioc-IsCall m e =
      answer-IsCall m (find_receipt c.command_id s.receipts) refl (simulate_ioc-answer m e)

  -- The other way: the guards passed, the call is its answer.
  pub simulate_ioc-guarded :
      IsAccepted h c f a s as_of
      → simulate_ioc h c f a s as_of ≡ answer h c f a s as_of (find_receipt c.command_id s.receipts)
  unfolding simulate_ioc
  simulate_ioc-guarded g = ground arith
