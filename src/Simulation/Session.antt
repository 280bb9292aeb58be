-- ===== src/Simulation/Session.antt =====
-- Sequences of `simulate_ioc` calls on one liquidity state, as the controller makes them: each call
-- starts from the state that the one before returned.
pub mod Ledger
pub mod Final
use kairos_execution_engine.Common.{ℕ, ◌≡◌, ok, none, []}
use kairos_execution_engine.Simulation.Models.{
  Symbol, AcceptedBookFrame, IocCommand, FillAssumptions, LiquidityState, ModelStep,
}
use kairos_execution_engine.Simulation.Issues.{Fingerprints}
use kairos_execution_engine.Simulation.Fill.{simulate_ioc}

-- `LiquidityState(session_id=…, tape_id=…, stream_epoch=…, symbol=…)`, the other fields by default.
unfoldable pub opening : ℕ → ℕ → ℕ → Symbol → LiquidityState
opening session tape epoch symbol = record {
  session_id = session;
  tape_id = tape;
  stream_epoch = epoch;
  symbol = symbol;
  assumptions_sha256 = none;
  last_as_of_ms = 0;
  last_arrival_at_ms = 0;
  last_frame_sequence = 0;
  last_exchange_update_id = 0;
  last_exchange_at_ms = 0;
  last_received_at_ms = 0;
  last_frame_sha256 = none;
  barrier_reason = none;
  consumed_depth = [];
  receipts = [];
}

-- The states that calls reach from a state.
pub data Reaches (h : Fingerprints) (s : LiquidityState) : LiquidityState → Type 0 where
  start : Reaches h s s
  call :
      {t : LiquidityState} (c : IocCommand) (f : AcceptedBookFrame) (a : FillAssumptions)
      (as_of : ℕ) (m : ModelStep)
      → Reaches h s t
      → simulate_ioc h c f a t as_of ≡ ok m
      → Reaches h s m.state
