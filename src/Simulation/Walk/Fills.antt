-- ===== src/Simulation/Walk/Fills.antt =====
-- What holds of each fill of the walk.
use kairos_execution_engine.Common.{
  ℕ, ◌+◌, ◌-◌, ◌*◌, ◌≤◌, ◌<◌, ◌≡◌, false, List, [], ◌∷◌, min, arith, All,
}
use kairos_execution_engine.Simulation.Models.{
  all_bps, OrderSide, buy, sell, BookLevel, FillAssumptions, ConsumedDepth, LevelFill,
}
use kairos_execution_engine.Simulation.Depth.{depth_at, set_depth}
use kairos_execution_engine.Simulation.Walk.{
  book_side, is_refused, execution_price, capacity, level_fill, walk_levels,
}
use kairos_execution_engine.Simulation.Walk.Price.{le-execution_price, execution_price-le}

-- The price is within the command's cap.
abbrev pub IsWithin : OrderSide → ℕ → ℕ → Type 0
IsWithin buy cap price = price ≤ cap
IsWithin sell cap price = cap ≤ price

-- The execution price is no better than the displayed one.
abbrev pub IsAdverse : OrderSide → ℕ → ℕ → Type 0
IsAdverse buy book price = book ≤ price
IsAdverse sell book price = price ≤ book

-- A fill of a positive quantity, at the slipped price of its level, within the cap, at its fee.
pub record IsHonest (side : OrderSide) (cap : ℕ) (a : FillAssumptions) (f : LevelFill)
    : Type 0 where
  pub some_quantity : 0 < f.quantity
  pub some_price : 0 < f.execution_price
  pub slipped_price : f.execution_price ≡ execution_price side a f.book_price
  pub within : IsWithin side cap f.execution_price
  pub adverse : IsAdverse side f.book_price f.execution_price
  pub fee : f.fee_quote ≡ f.quantity * f.execution_price * a.taker_fee_bps

abbrev pub AllHonest : OrderSide → ℕ → FillAssumptions → List LevelFill → Type 0
AllHonest side cap a = All (IsHonest side cap a)

module _ (cap : ℕ) (a : FillAssumptions) (tick : 0 < a.price_tick)
    (bps : a.adverse_slippage_bps < all_bps) where
  level_fill-IsHonest :
      (side : OrderSide) (l : BookLevel) (q : ℕ)
      → 0 < q
      → is_refused side cap (execution_price side a l.price) ≡ false
      → IsHonest side cap a (level_fill a l (execution_price side a l.price) q)
  unfolding level_fill
  level_fill-IsHonest buy l q p r = ground (arith, le-execution_price a l.price)
  level_fill-IsHonest sell l q p r = ground (arith, execution_price-le a l.price)

  -- Every fill of the walk is honest.
  pub walk_levels-IsHonest :
      (side : OrderSide) (ls : List BookLevel) (remaining : ℕ) (ds : List ConsumedDepth)
      → AllHonest side cap a (walk_levels side cap a ls remaining ds).0
  unfolding walk_levels
  walk_levels-IsHonest side [] remaining ds = tt
  walk_levels-IsHonest side (l ∷ ls) remaining ds =
      let debit = depth_at (book_side side) l.price ds in
      let q = min remaining (capacity a l debit) in
      let ds' = set_depth (book_side side) l.price (debit + q) ds in
      ground (
        arith,
        walk_levels-IsHonest side ls remaining ds,
        walk_levels-IsHonest side ls (remaining - q) ds',
        level_fill-IsHonest side l q,
      )
