-- ===== src/Simulation/Walk.antt =====
-- `_walk` of kairos_execution/simulation/fill_model.py: an IOC order takes the displayed levels in
-- their order, each at a slipped and rounded price, up to the participation that is left.
pub mod Price
pub mod Totals
pub mod Fills
pub mod Bounds
pub mod Validity
pub mod Capacity
pub mod Participation
use kairos_execution_engine.Common.{
  ℕ, ◌+◌, ◌-◌, ◌*◌, ◌/◌, min, Bool, List, [], ◌∷◌, ltb, ◌==◌, ◌||◌, if◌then◌else◌,
}
use kairos_execution_engine.Simulation.Models.{
  one, all_bps, OrderSide, buy, sell, BookSide, bid, ask, BookLevel, AcceptedBookFrame, IocCommand,
  FillAssumptions, ConsumedDepth, LevelFill, LiquidityState,
}
use kairos_execution_engine.Simulation.Depth.{depth_at, set_depth, sort_depth}

-- `book_side` and `levels`: a buyer takes the asks.
abbrev pub book_side : OrderSide → BookSide
book_side buy = ask
book_side sell = bid

abbrev pub book_levels : OrderSide → AcceptedBookFrame → List BookLevel
book_levels buy f = f.asks
book_levels sell f = f.bids

-- `to_integral_value` of a quotient, by ROUND_CEILING for a buyer and ROUND_FLOOR for a seller.
abbrev pub round_ticks : OrderSide → ℕ → ℕ → ℕ
round_ticks buy n d = (n + d - 1) / d
round_ticks sell n d = n / d

-- `level.price * (1 + direction * bps / 10_000)`, times `all_bps`.
abbrev pub slipped : OrderSide → ℕ → ℕ → ℕ
slipped buy bps price = price * (all_bps + bps)
slipped sell bps price = price * (all_bps - bps)

unfoldable pub execution_price : OrderSide → FillAssumptions → ℕ → ℕ
execution_price side a price =
    round_ticks side (slipped side a.adverse_slippage_bps price) (a.price_tick * all_bps)
    * a.price_tick

-- `price > price_cap` for a buyer, `price < price_cap` for a seller.
abbrev pub is_beyond : OrderSide → ℕ → ℕ → Bool
is_beyond buy cap price = ltb cap price
is_beyond sell cap price = ltb price cap

-- The test of the `break`.
abbrev pub is_refused : OrderSide → ℕ → ℕ → Bool
is_refused side cap price = price == 0 || is_beyond side cap price

-- Whole steps of what participation leaves at a level, after `debit`.
unfoldable pub capacity : FillAssumptions → BookLevel → ℕ → ℕ
capacity a l debit =
    ((l.quantity * a.depth_participation_fraction - debit * one) / (a.quantity_step * one))
    * a.quantity_step

-- A fill of `q` at a level.
unfoldable pub level_fill : FillAssumptions → BookLevel → ℕ → ℕ → LevelFill
level_fill a l price q = record {
  book_price = l.price;
  execution_price = price;
  quantity = q;
  fee_quote = q * price * a.taker_fee_bps;
}

-- The loop over `levels`: the fills that are appended, and the dictionary when it ends. It breaks
-- at a refused price or when nothing remains, and passes by a level with no whole step left.
unfoldable pub walk_levels :
    OrderSide
    → ℕ
    → FillAssumptions
    → List BookLevel
    → ℕ
    → List ConsumedDepth
    → List LevelFill × List ConsumedDepth
walk_levels side cap a [] remaining consumed = ([], consumed)
walk_levels side cap a (l ∷ ls) remaining consumed =
    let price = execution_price side a l.price in
    let debit = depth_at (book_side side) l.price consumed in
    let q = min remaining (capacity a l debit) in
    let filled = set_depth (book_side side) l.price (debit + q) consumed in
    let passed = walk_levels side cap a ls remaining consumed in
    let after = walk_levels side cap a ls (remaining - q) filled in
    if is_refused side cap price
    then ([], consumed)
    else if q == 0
    then passed
    else if remaining - q == 0
    then (level_fill a l price q ∷ [], filled)
    else (level_fill a l price q ∷ after.0, after.1)

unfoldable pub walk :
    IocCommand
    → AcceptedBookFrame
    → FillAssumptions
    → LiquidityState
    → List LevelFill × List ConsumedDepth
walk c f a s =
    let r = walk_levels c.side c.price_cap a (book_levels c.side f) c.quantity s.consumed_depth in
    (r.0, sort_depth r.1)
