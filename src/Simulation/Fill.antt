-- ===== src/Simulation/Fill.antt =====
-- kairos_execution/simulation/fill_model.py: the causal IOC model. `simulate_ioc` raises or returns
-- an outcome and the next state.
pub mod Receipts
pub mod Total
pub mod Branches
pub mod Equations
pub mod Calls
pub mod Replay
pub mod Effects
pub mod Execution
pub mod Conclusion
pub mod Outcome
pub mod Sound
use kairos_execution_engine.Common.{
  ℕ, ◌+◌, ◌-◌, ◌*◌, Bool, true, false, Option, none, some, List, [], ◌∷◌, ◌++◌, ltb, leb, ◌==◌,
  ◌&&◌, if◌then◌else◌, length, sum_by, Result, ok, err, ◌>>=◌, ◌>>◌, require,
}
use kairos_execution_engine.Common.Int.{ℤ, pos, sub_ℕ}
use kairos_execution_engine.Simulation.Models.{
  Digest, OrderSide, buy, sell, Status, wait, filled, partial, no_fill, blocked, Reason,
  not_arrived, no_executable_capacity, model_ioc, BookLevel, AcceptedBookFrame, IocCommand,
  FillAssumptions, ConsumedDepth, LevelFill, FillOutcome, CommandReceipt, LiquidityState, ModelStep,
  same_symbol, max_commands,
}
use kairos_execution_engine.Simulation.Models.Valid.{
  coherent_command, coherent_frame, coherent_assumptions,
}
use kairos_execution_engine.Simulation.Models.Coherent.{
  coherent_outcome, coherent_state, fill_quantity, fill_notional, fill_fee,
}
use kairos_execution_engine.Simulation.Walk.{walk}
use kairos_execution_engine.Simulation.Issues.{Fingerprints, command_issue, frame_issue}

-- The exceptions: a failed validation, a bad clock, or a `SimulationIdentityConflict`.
pub data FillError : Type 0 where
  invalid_command invalid_frame invalid_assumptions invalid_state invalid_outcome : FillError
  clock_regression wrong_session wrong_book changed_assumptions reused_command : FillError
  capacity_exhausted arrival_regression no_best_price : FillError

-- `state.assumptions_sha256 in {None, policy_hash}`.
abbrev pub has_digest : Option Digest → Digest → Bool
has_digest none d = true
has_digest (some e) d = e == d

-- `outcome_fields` with a status, a reason and what is cancelled: an outcome with no fill.
unfoldable pub unfilled :
    Fingerprints
    → IocCommand
    → AcceptedBookFrame
    → FillAssumptions
    → ℕ
    → Status
    → Reason
    → ℕ
    → FillOutcome
unfilled h c f a arrival status reason cancelled = record {
  command_id = c.command_id;
  command_sha256 = h.command c;
  assumptions_sha256 = h.assumptions a;
  frame_sha256 = some (h.frame f);
  status = status;
  reason = reason;
  arrival_at_ms = arrival;
  requested_quantity = c.quantity;
  filled_quantity = 0;
  cancelled_quantity = cancelled;
  average_price = none;
  notional_quote = 0;
  fee_quote = 0;
  arrival_mid_price = none;
  implementation_shortfall_quote = pos 0;
  level_fills = [];
}

-- `frame.bids[0].price + frame.asks[0].price`, twice the mid price; no first level is an
-- IndexError.
abbrev pub double_mid : List BookLevel → List BookLevel → Option ℕ
double_mid (b ∷ _) (k ∷ _) = some (b.price + k.price)
double_mid _ _ = none

-- `(notional - quantity * mid) * direction`, doubled.
abbrev pub shortfall : OrderSide → ℕ → ℕ → ℤ
shortfall buy notional2 mid_value = sub_ℕ notional2 mid_value
shortfall sell notional2 mid_value = sub_ℕ mid_value notional2

abbrev pub fill_status : ℕ → ℕ → Status
fill_status quantity requested =
    if quantity == 0 then no_fill else if quantity == requested then filled else partial

-- The outcome of a walk that made the fills `fs`.
unfoldable pub filled_outcome :
    Fingerprints
    → IocCommand
    → AcceptedBookFrame
    → FillAssumptions
    → ℕ
    → ℕ
    → List LevelFill
    → FillOutcome
unfolding unfilled
filled_outcome h c f a arrival mid fs =
    let quantity = sum_by fill_quantity fs in
    let notional = sum_by fill_notional fs in
    record (unfilled h c f a arrival (fill_status quantity c.quantity)
      (if quantity == 0 then no_executable_capacity else model_ioc) (c.quantity - quantity)) {
        filled_quantity = quantity;
        notional_quote = notional;
        fee_quote = sum_by fill_fee fs;
        average_price =
            if quantity == 0
            then none
            else some (record { numerator = notional; denominator = quantity });
        arrival_mid_price = some mid;
        implementation_shortfall_quote = shortfall c.side (2 * notional) (quantity * mid);
        level_fills = fs;
      }

-- `state_fields` before the branches.
unfoldable pub advance : LiquidityState → Digest → ℕ → ℕ → LiquidityState
advance s policy as_of arrival = record s {
  assumptions_sha256 = some policy;
  last_as_of_ms = as_of;
  last_arrival_at_ms = arrival;
}

-- `state_fields` where the frame is accepted.
unfoldable pub accept_frame :
    Fingerprints → AcceptedBookFrame → List ConsumedDepth → LiquidityState → LiquidityState
accept_frame h f consumption s = record s {
  last_frame_sequence = f.sequence;
  last_frame_sha256 = some (h.frame f);
  last_exchange_update_id = f.exchange_update_id;
  last_exchange_at_ms = f.exchange_at_ms;
  last_received_at_ms = f.received_at_ms;
  consumed_depth = consumption;
}

-- The branch of `_evaluate` that walks the book.
unfoldable pub walked :
    Fingerprints
    → IocCommand
    → AcceptedBookFrame
    → FillAssumptions
    → LiquidityState
    → ℕ
    → ℕ
    → Result FillError (FillOutcome × LiquidityState)
walked h c f a s as_of arrival =
    let r = walk c f a s in
    elim (double_mid f.bids f.asks) [
      | none ↦ err no_best_price
      | some mid ↦ ok (
        filled_outcome h c f a arrival mid r.0,
        accept_frame h f r.1 (advance s (h.assumptions a) as_of arrival),
      )
    ]

-- The three branches of `_evaluate` once the command has arrived.
unfoldable pub concluded :
    Fingerprints
    → IocCommand
    → AcceptedBookFrame
    → FillAssumptions
    → LiquidityState
    → ℕ
    → ℕ
    → Result FillError (FillOutcome × LiquidityState)
concluded h c f a s as_of arrival =
    let next = advance s (h.assumptions a) as_of arrival in
    elim (command_issue c a arrival) [
      | some r ↦ ok (unfilled h c f a arrival no_fill r c.quantity, next)
      | none ↦ elim (frame_issue h f s arrival a) [
        | some r ↦
            ok (
              unfilled h c f a arrival blocked r c.quantity,
              record next { barrier_reason = some r },
            )
        | none ↦ walked h c f a s as_of arrival
      ]
    ]

unfoldable pub receipt_of : FillOutcome → CommandReceipt
receipt_of o = record {
  command_id = o.command_id;
  command_sha256 = o.command_sha256;
  assumptions_sha256 = o.assumptions_sha256;
  outcome = o;
}

-- The receipt is added, and the outcome and the next state are validated.
unfoldable pub settle : FillOutcome × LiquidityState → Result FillError ModelStep
settle (o, s) = do
  require (coherent_outcome o) invalid_outcome
  let next = record s { receipts = s.receipts ++ receipt_of o ∷ [] }
  require (coherent_state next) invalid_state
  ok (record { outcome = o; state = next; replayed = false })

unfoldable pub evaluate :
    Fingerprints
    → IocCommand
    → AcceptedBookFrame
    → FillAssumptions
    → LiquidityState
    → ℕ
    → Result FillError ModelStep
evaluate h c f a s as_of =
    let arrival = c.submitted_at_ms + a.latency_ms in
    let o = unfilled h c f a arrival wait not_arrived 0 in
    if ltb as_of arrival
    then require (coherent_outcome o) invalid_outcome
      >> ok (record { outcome = o; state = s; replayed = false })
    else concluded h c f a s as_of arrival >>= settle

-- The receipt of a command, if it has one.
unfoldable pub find_receipt : ℕ → List CommandReceipt → Option CommandReceipt
find_receipt id [] = none
find_receipt id (r ∷ rs) = if r.command_id == id then some r else find_receipt id rs

-- What `simulate_ioc` does with the receipt that the loop has found, or with none.
unfoldable pub answer :
    Fingerprints
    → IocCommand
    → AcceptedBookFrame
    → FillAssumptions
    → LiquidityState
    → ℕ
    → Option CommandReceipt
    → Result FillError ModelStep
answer h c f a s as_of (some r) = do
  require (r.command_sha256 == h.command c && r.assumptions_sha256 == h.assumptions a)
      reused_command
  ok (record { outcome = r.outcome; state = s; replayed = true })
answer h c f a s as_of none = do
  require (ltb (length s.receipts) max_commands) capacity_exhausted
  require (leb s.last_arrival_at_ms (c.submitted_at_ms + a.latency_ms)) arrival_regression
  evaluate h c f a s as_of

unfoldable pub simulate_ioc :
    Fingerprints
    → IocCommand
    → AcceptedBookFrame
    → FillAssumptions
    → LiquidityState
    → ℕ
    → Result FillError ModelStep
simulate_ioc h c f a s as_of = do
  require (coherent_command c) invalid_command
  require (coherent_frame f) invalid_frame
  require (coherent_assumptions a) invalid_assumptions
  require (coherent_state s) invalid_state
  require (leb s.last_as_of_ms as_of) clock_regression
  require (c.session_id == s.session_id && same_symbol c.symbol s.symbol) wrong_session
  require (f.tape_id == s.tape_id && same_symbol f.symbol s.symbol) wrong_book
  require (has_digest s.assumptions_sha256 (h.assumptions a)) changed_assumptions
  answer h c f a s as_of (find_receipt c.command_id s.receipts)
