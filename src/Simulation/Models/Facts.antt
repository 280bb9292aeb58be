-- ===== src/Simulation/Models/Facts.antt =====
-- The validators of commands, frames and assumptions, read as statements.
use kairos_execution_engine.Common.{◌≤◌, ◌<◌, ◌≡◌, true, all, length, arith}
use kairos_execution_engine.Simulation.Models.{
  one, all_bps, max_timestamp, AcceptedBookFrame, IocCommand, FillAssumptions,
}
use kairos_execution_engine.Simulation.Models.Valid.{
  max_amount, is_valid_level, is_ascending, is_descending, is_uncrossed, coherent_frame,
  coherent_command, coherent_assumptions,
}

pub record IsFrame (f : AcceptedBookFrame) : Type 0 where
  pub bids_valid : all is_valid_level f.bids ≡ true
  pub asks_valid : all is_valid_level f.asks ≡ true
  pub few_bids : length f.bids ≤ 100
  pub few_asks : length f.asks ≤ 100
  pub bids_descend : is_descending f.bids ≡ true
  pub asks_ascend : is_ascending f.asks ≡ true
  pub uncrossed : is_uncrossed f.bids f.asks ≡ true
  pub sequenced : (0 < f.sequence) × (0 < f.exchange_update_id)
  pub ordered : (f.exchange_at_ms ≤ f.received_at_ms) × (f.received_at_ms ≤ f.persisted_at_ms)
  pub dated : f.persisted_at_ms ≤ max_timestamp

pub coherent_frame-IsFrame : (f : AcceptedBookFrame) → coherent_frame f ≡ true → IsFrame f
unfolding coherent_frame
coherent_frame-IsFrame f h = ground arith

pub record IsCommand (c : IocCommand) : Type 0 where
  pub some_quantity : 0 < c.quantity
  pub bounded_quantity : c.quantity ≤ max_amount
  pub bounded_cap : c.price_cap ≤ max_amount

pub coherent_command-IsCommand : (c : IocCommand) → coherent_command c ≡ true → IsCommand c
unfolding coherent_command
coherent_command-IsCommand c h = ground arith

pub record IsAssumptions (a : FillAssumptions) : Type 0 where
  pub fraction : a.depth_participation_fraction ≤ one
  pub tick : 0 < a.price_tick
  pub step : 0 < a.quantity_step
  pub slippage : a.adverse_slippage_bps < all_bps
  pub fee : a.taker_fee_bps ≤ all_bps

pub coherent_assumptions-IsAssumptions :
    (a : FillAssumptions) → coherent_assumptions a ≡ true → IsAssumptions a
unfolding coherent_assumptions
coherent_assumptions-IsAssumptions a h = ground arith
