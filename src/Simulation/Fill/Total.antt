-- ===== src/Simulation/Fill/Total.antt =====
-- `simulate_ioc` never fails its own validation: on coherent inputs that pass its guards it
-- returns, and the next state is coherent and has room for what is still to come.
use kairos_execution_engine.Common.{
  ℕ, ◌+◌, ◌*◌, ◌≤◌, ◌<◌, ◌≡◌, refl, ap, true, false, List, [], ◌∷◌, ◌++◌, length, length-append,
  arith, none, Bool-cases, inl, inr, Result, ok, ltb, ◌==◌, ◌&&◌,
}
use kairos_execution_engine.Simulation.Models.{
  Digest, same_symbol, AcceptedBookFrame, IocCommand, FillAssumptions, FillOutcome, CommandReceipt,
  LiquidityState, ModelStep, max_timestamp, max_commands, wait, not_arrived,
}
use kairos_execution_engine.Simulation.Models.Valid.{
  coherent_command, coherent_frame, coherent_assumptions,
}
use kairos_execution_engine.Simulation.Models.Coherent.{
  coherent_cursor, coherent_depth, coherent_receipts, coherent_state,
}
use kairos_execution_engine.Simulation.Issues.{Fingerprints}
use kairos_execution_engine.Simulation.Fill.{
  FillError, has_digest, unfilled, receipt_of, settle, evaluate, find_receipt, answer, simulate_ioc,
}
use kairos_execution_engine.Simulation.Fill.Receipts.{coherent_receipts-append}
use kairos_execution_engine.Simulation.Fill.Outcome.{unfilled-coherent}
use kairos_execution_engine.Simulation.Fill.Calls.{simulate_ioc-guarded}
use kairos_execution_engine.Simulation.Fill.Conclusion.{IsConclusion, concluded-Concludes}

-- A coherent state whose debits are at most a hundred for each receipt: what a session has.
pub record IsSession (s : LiquidityState) : Type 0 where
  pub coherent : coherent_state s ≡ true
  pub few_debits : length s.consumed_depth ≤ 100 * length s.receipts

-- The parts of a coherent state.
pub record StateParts (s : LiquidityState) : Type 0 where
  pub cursor : coherent_cursor s ≡ true
  pub depth : coherent_depth s.consumed_depth ≡ true
  pub lineage : coherent_receipts s.assumptions_sha256 s.last_arrival_at_ms s.receipts ≡ true

pub state_parts : (s : LiquidityState) → coherent_state s ≡ true → StateParts s
unfolding coherent_state
state_parts s h = ground arith

-- A call that passes every require of `simulate_ioc`, with clocks in the range of a timestamp.
pub record IsReady (h : Fingerprints) (c : IocCommand) (f : AcceptedBookFrame) (a : FillAssumptions)
    (s : LiquidityState) (as_of : ℕ) : Type 0 where
  pub command : coherent_command c ≡ true
  pub frame : coherent_frame f ≡ true
  pub assumptions : coherent_assumptions a ≡ true
  pub clock : (s.last_as_of_ms ≤ as_of) × (as_of ≤ max_timestamp)
  pub session : (c.session_id == s.session_id && same_symbol c.symbol s.symbol) ≡ true
  pub book : (f.tape_id == s.tape_id && same_symbol f.symbol s.symbol) ≡ true
  pub policy : has_digest s.assumptions_sha256 (h.assumptions a) ≡ true

-- A command that has no receipt yet, arrives after those that have, and finds room for one.
pub record IsNew (c : IocCommand) (a : FillAssumptions) (s : LiquidityState) : Type 0 where
  pub unanswered : find_receipt c.command_id s.receipts ≡ none
  pub room : length s.receipts < max_commands
  pub in_order : s.last_arrival_at_ms ≤ c.submitted_at_ms + a.latency_ms
  pub datable : c.submitted_at_ms + a.latency_ms ≤ max_timestamp

cursor_keeps :
    (t : LiquidityState) (rs : List CommandReceipt)
    → coherent_cursor (record t { receipts = rs }) ≡ coherent_cursor t
unfolding coherent_cursor
cursor_keeps t rs = refl

-- The receipts after a conclusion, as the new state holds them.
settled_receipts :
    (c : IocCommand) (policy : Digest) (arrival : ℕ) (s : LiquidityState) (o : FillOutcome)
    (t : LiquidityState)
    → IsSession s
    → has_digest s.assumptions_sha256 policy ≡ true
    → find_receipt c.command_id s.receipts ≡ none
    → length s.receipts < max_commands
    → s.last_arrival_at_ms ≤ arrival
    → IsConclusion c policy arrival s o t
    → coherent_receipts t.assumptions_sha256 t.last_arrival_at_ms (t.receipts ++ receipt_of o ∷ [])
      ≡ true
settled_receipts c policy arrival s o t hs hp un room late k =
    simp (k.with_policy, k.arrived, k.same_receipts, ← k.of_policy, ← k.at_arrival)
      (coherent_receipts-append s.assumptions_sha256 s.last_arrival_at_ms s.receipts o
        (state_parts s hs.coherent).lineage (rw k.of_policy hp) room (rw k.at_arrival late)
        (rw k.of_command un) k.coherent k.terminal)

-- A conclusion is settled: its receipt is added, and the state passes its validation.
settled_state :
    (c : IocCommand) (policy : Digest) (arrival : ℕ) (s : LiquidityState) (o : FillOutcome)
    (t : LiquidityState)
    → IsConclusion c policy arrival s o t
    → coherent_receipts t.assumptions_sha256 t.last_arrival_at_ms (t.receipts ++ receipt_of o ∷ [])
      ≡ true
    → coherent_state (record t { receipts = t.receipts ++ receipt_of o ∷ [] }) ≡ true
unfolding coherent_state
settled_state c policy arrival s o t k r =
    ground (arith, cursor_keeps t (t.receipts ++ receipt_of o ∷ []))

-- A call that returns a fresh step of the session.
abbrev pub Returns : Result FillError ModelStep → Type 0
Returns r = (m : ModelStep) × (r ≡ ok m) × IsSession m.state × (m.replayed ≡ false)

module _ (h : Fingerprints) (c : IocCommand) (f : AcceptedBookFrame) (a : FillAssumptions)
    (s : LiquidityState) (as_of : ℕ) (hs : IsSession s) (ready : IsReady h c f a s as_of)
    (new : IsNew c a s) where
  evaluate-Returns : Returns (evaluate h c f a s as_of)
  unfolding evaluate settle
  evaluate-Returns =
      let arrival = c.submitted_at_ms + a.latency_ms in
      elim (Bool-cases (ltb as_of arrival)) [
        | inl early ↦ (
          record {
            outcome = unfilled h c f a arrival wait not_arrived 0;
            state = s;
            replayed = false;
          },
          rw (
            early,
            unfilled-coherent h c f a arrival wait not_arrived 0 ready.command new.datable
                (inl (refl, refl)),
          ),
          hs,
          refl,
        )
        | inr due ↦
            let parts = state_parts s hs.coherent in
            let (o, t, e, k) =
              concluded-Concludes h c f a s as_of arrival ready.command ready.frame
                ready.assumptions parts.cursor parts.depth (ground arith) ready.clock.1
                (omega (arith, hs.few_debits, new.room)) in
            let r =
              settled_receipts c (h.assumptions a) arrival s o t hs ready.policy new.unanswered
                new.room new.in_order k in
            let valid = settled_state c (h.assumptions a) arrival s o t k r in
            (
              record {
                outcome = o;
                state = record t { receipts = t.receipts ++ receipt_of o ∷ [] };
                replayed = false;
              },
              rw (due, e, k.coherent, valid),
              record {
                coherent = valid;
                few_debits = omega (
                  arith,
                  length-append {0} t.receipts (receipt_of o ∷ []),
                  hs.few_debits,
                  k.depth_bounded,
                  ap length k.same_receipts,
                );
              },
              refl,
            )
      ]

  answer-new :
      answer h c f a s as_of (find_receipt c.command_id s.receipts) ≡ evaluate h c f a s as_of
  unfolding answer
  answer-new = rw new.unanswered (ground (arith, new.room, new.in_order))

  -- A new command whose call passes the guards, in a state of a session, with clocks in the range of
  -- a timestamp: the call returns a fresh step and never fails the validation of the outcome or of
  -- the next state, which is again a state of a session.
  pub simulate_ioc-Returns : Returns (simulate_ioc h c f a s as_of)
  simulate_ioc-Returns =
      rw
        (
          simulate_ioc-guarded h c f a s as_of (record {
            command = ready.command;
            frame = ready.frame;
            assumptions = ready.assumptions;
            state = hs.coherent;
            clock = ready.clock.0;
            session = ready.session;
            book = ready.book;
            policy = ready.policy;
          }),
          answer-new,
        )
        evaluate-Returns
