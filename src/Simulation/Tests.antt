-- ===== src/Simulation/Tests.antt =====
-- One order on a small book, and the theorems about `simulate_ioc` at it.
use kairos_execution_engine.Common.{
  ℕ, ◌+◌, ◌*◌, ◌^◌, ◌≡◌, refl, true, false, [], ◌∷◌, arith, some, Result, ok, err,
}
use kairos_execution_engine.Simulation.Models.{
  one, btcusdt, buy, ask, AcceptedBookFrame, IocCommand, FillAssumptions, LiquidityState, ModelStep,
  admitted, filled, blocked, stream_epoch_changed,
}
use kairos_execution_engine.Simulation.Models.Valid.{
  coherent_command, coherent_frame, coherent_assumptions,
}
use kairos_execution_engine.Simulation.Models.Coherent.{
  coherent_state, coherent_cursor, coherent_depth, coherent_receipts, coherent_receipt,
  coherent_outcome, bounded_outcome, consistent_outcome,
}
use kairos_execution_engine.Simulation.Depth.{depth_at, set_depth, sort_depth}
use kairos_execution_engine.Simulation.Depth.Laws.{total_depth}
use kairos_execution_engine.Simulation.Walk.{
  walk, walk_levels, execution_price, capacity, level_fill,
}
use kairos_execution_engine.Simulation.Issues.{Fingerprints, command_issue, frame_issue}
use kairos_execution_engine.Simulation.Fill.{
  FillError, simulate_ioc, answer, find_receipt, evaluate, concluded, walked, settle, receipt_of,
  unfilled, filled_outcome, advance, accept_frame,
}
use kairos_execution_engine.Simulation.Fill.Total.{
  IsSession, IsReady, IsNew, Returns, simulate_ioc-Returns,
}
use kairos_execution_engine.Simulation.Session.Final.{simulate_ioc-replays}
use kairos_execution_engine.Simulation.Fill.Effects.{IsConserved, simulate_ioc-conserves}
use kairos_execution_engine.Simulation.Fill.Execution.{
  IsExecuted, Participates, simulate_ioc-IsExecuted, simulate_ioc-Participates,
}
use kairos_execution_engine.Simulation.Session.{opening, Reaches, start, call}
use kairos_execution_engine.Simulation.Session.Ledger.{
  IsLater, filled_by, Reaches-opening-IsSession, session_keeps, session_barred,
}

abbrev digests : Fingerprints
digests = record {
  frame = λ f. f.sequence + 1;
  command = λ c. c.command_id + 1;
  assumptions = λ a. a.latency_ms + 1;
}

abbrev policy : FillAssumptions
policy = record {
  latency_ms = 5;
  maximum_book_age_ms = 1000;
  maximum_frame_latency_ms = 100;
  depth_participation_fraction = one;
  adverse_slippage_bps = 0;
  taker_fee_bps = 5 * one;
  price_tick = 10 ^ 17;
  quantity_step = 10 ^ 17;
}

-- Two asks, 2 at 100 and 5 at 101, over a bid of 1 at 99.
abbrev book_at : ℕ → AcceptedBookFrame
book_at epoch = record {
  tape_id = 1;
  stream_epoch = epoch;
  symbol = btcusdt;
  sequence = 1;
  exchange_update_id = 1;
  exchange_at_ms = 90;
  received_at_ms = 95;
  persisted_at_ms = 99;
  raw_payload_sha256 = 3;
  continuity = admitted;
  bids = record { price = 99 * one; quantity = one } ∷ [];
  asks =
      record { price = 100 * one; quantity = 2 * one }
      ∷ record { price = 101 * one; quantity = 5 * one }
      ∷ [];
}

abbrev book : AcceptedBookFrame
book = book_at 1

-- Buy 3 at 101 or less.
abbrev order : IocCommand
order = record {
  session_id = 1;
  command_id = 1;
  symbol = btcusdt;
  side = buy;
  quantity = 3 * one;
  price_cap = 101 * one;
  submitted_at_ms = 100;
  persisted_at_ms = 101;
  eligible_at_ms = 100;
  expires_at_ms = 200;
}

abbrev empty_state : LiquidityState
empty_state = opening 1 1 1 btcusdt

abbrev step_of : Result FillError ModelStep → ModelStep
step_of (ok m) = m
step_of (err _) = record {
  outcome = unfilled digests order book policy 0 blocked stream_epoch_changed 0;
  state = empty_state;
  replayed = true;
}

abbrev first : ModelStep
first = step_of (simulate_ioc digests order book policy empty_state 110)

-- What a run unfolds: the whole model.
whole_model : Unit {0}
unfolding simulate_ioc answer find_receipt evaluate concluded walked settle receipt_of unfilled
    filled_outcome advance accept_frame command_issue frame_issue walk walk_levels execution_price
    capacity level_fill depth_at set_depth sort_depth opening coherent_command coherent_frame
    coherent_assumptions coherent_state coherent_cursor coherent_depth coherent_receipts
    coherent_receipt coherent_outcome bounded_outcome consistent_outcome
whole_model = tt

run_first : simulate_ioc digests order book policy empty_state 110 ≡ ok first
unfolding whole_model
run_first = refl

-- What the run gives, field by field.
first_fills :
    (first.outcome.status ≡ filled)
    × (first.outcome.filled_quantity ≡ 3 * one)
    × (first.outcome.notional_quote ≡ 301 * one * one)
    × (depth_at ask (101 * one) first.state.consumed_depth ≡ one)
    × (first.replayed ≡ false)
unfolding whole_model
first_fills = (refl, refl, refl, refl, refl)

empty_state-IsSession : IsSession empty_state
unfolding whole_model
empty_state-IsSession = record { coherent = refl; few_debits = omega arith }

order-IsReady : IsReady digests order book policy empty_state 110
unfolding whole_model
order-IsReady = record {
  command = refl;
  frame = refl;
  assumptions = refl;
  clock = (omega arith, omega arith);
  session = refl;
  book = refl;
  policy = refl;
}

order-IsNew : IsNew order policy empty_state
unfolding whole_model
order-IsNew = record {
  unanswered = refl;
  room = omega arith;
  in_order = omega arith;
  datable = omega arith;
}

simulate_ioc-Returns_example : Returns (simulate_ioc digests order book policy empty_state 110)
simulate_ioc-Returns_example =
    simulate_ioc-Returns digests order book policy empty_state 110 empty_state-IsSession
      order-IsReady order-IsNew

simulate_ioc-conserves_example : IsConserved order empty_state first
unfolding whole_model
simulate_ioc-conserves_example =
    simulate_ioc-conserves digests order book policy empty_state 110 first run_first refl

simulate_ioc-IsExecuted_example : IsExecuted digests order book policy empty_state 110 first.outcome
unfolding whole_model
simulate_ioc-IsExecuted_example =
    simulate_ioc-IsExecuted digests order book policy empty_state 110 first run_first refl
      (omega arith)

simulate_ioc-Participates_example :
    Participates order policy empty_state first.state (101 * one) (5 * one)
unfolding whole_model
simulate_ioc-Participates_example =
    simulate_ioc-Participates digests order book policy empty_state 110 first run_first refl
      (101 * one) (5 * one) (omega arith)

one_call : Reaches digests empty_state first.state
one_call = call order book policy 110 first start run_first

Reaches-opening-IsSession_example :
    IsSession first.state
    × (total_depth first.state.consumed_depth ≡ filled_by first.state.receipts)
Reaches-opening-IsSession_example =
    Reaches-opening-IsSession digests 1 1 1 btcusdt first.state one_call

session_keeps_example : IsLater empty_state first.state
session_keeps_example = session_keeps digests empty_state first.state one_call

-- The same order on a frame of another epoch sets a barrier.
abbrev barred_step : ModelStep
barred_step = step_of (simulate_ioc digests order (book_at 7) policy empty_state 110)

run_barred : simulate_ioc digests order (book_at 7) policy empty_state 110 ≡ ok barred_step
unfolding whole_model
run_barred = refl

abbrev next_order : IocCommand
next_order = record order { command_id = 2 }

abbrev after_barrier : ModelStep
after_barrier = step_of (simulate_ioc digests next_order book policy barred_step.state 120)

run_after : simulate_ioc digests next_order book policy barred_step.state 120 ≡ ok after_barrier
unfolding whole_model
run_after = refl

-- A second order after the first, and the first once more after both.
abbrev second_order : IocCommand
second_order = record order { command_id = 2; submitted_at_ms = 105; persisted_at_ms = 106 }

abbrev second : ModelStep
second = step_of (simulate_ioc digests second_order book policy first.state 115)

run_second : simulate_ioc digests second_order book policy first.state 115 ≡ ok second
unfolding whole_model
run_second = refl

simulate_ioc-replays_example :
    simulate_ioc digests order (book_at 7) policy second.state 120
    ≡ ok (record { outcome = first.outcome; state = second.state; replayed = true })
unfolding whole_model
simulate_ioc-replays_example =
    simulate_ioc-replays digests order book (book_at 7) policy empty_state second.state 110 120
      first run_first refl (call second_order book policy 115 second start run_second) refl refl
      (omega arith)

session_barred_example :
    (after_barrier.state.barrier_reason ≡ some stream_epoch_changed)
    × (after_barrier.state.consumed_depth ≡ barred_step.state.consumed_depth)
    × (filled_by after_barrier.state.receipts ≡ filled_by barred_step.state.receipts)
unfolding whole_model
session_barred_example =
    session_barred digests barred_step.state after_barrier.state stream_epoch_changed refl
      (call next_order book policy 120 after_barrier start run_after)
