-- ===== src/Simulation/Walk/Bounds.antt =====
-- Bounds on the sums over the fills: notional, fee, and where they lie against the best price.
use native.Mathlib.Nat.{mul-le-mul}
use kairos_execution_engine.Common.{
  ℕ, ◌+◌, ◌-◌, ◌*◌, ◌≤◌, ◌<◌, ◌≡◌, List, [], ◌∷◌, min, arith, All, sum_by,
}
use kairos_execution_engine.Simulation.Models.{
  OrderSide, BookLevel, FillAssumptions, ConsumedDepth, LevelFill,
}
use kairos_execution_engine.Simulation.Models.Coherent.{fill_quantity, fill_notional, fill_fee}
use kairos_execution_engine.Simulation.Depth.{depth_at, set_depth}
use kairos_execution_engine.Simulation.Walk.{book_side, capacity, level_fill, walk_levels}
use kairos_execution_engine.Simulation.Walk.Fills.{AllHonest}

-- What holds of the price of every level holds of the book price of every fill.
pub walk_levels-book_price {ℓ} :
    (P : ℕ → Type ℓ) (side : OrderSide) (cap : ℕ) (a : FillAssumptions) (ls : List BookLevel)
    (remaining : ℕ) (ds : List ConsumedDepth)
    → All (λ l. P l.price) ls
    → All (λ f. P f.book_price) (walk_levels side cap a ls remaining ds).0
unfolding walk_levels level_fill
walk_levels-book_price P side cap a [] remaining ds h = tt
walk_levels-book_price P side cap a (l ∷ ls) remaining ds h =
    let debit = depth_at (book_side side) l.price ds in
    let q = min remaining (capacity a l debit) in
    let ds' = set_depth (book_side side) l.price (debit + q) ds in
    ground (
      arith,
      walk_levels-book_price P side cap a ls remaining ds h.1,
      walk_levels-book_price P side cap a ls (remaining - q) ds' h.1,
    )

module _ (side : OrderSide) (cap : ℕ) (a : FillAssumptions) where
  pub sum-fill_fee :
      (fs : List LevelFill)
      → AllHonest side cap a fs
      → sum_by fill_fee fs ≡ sum_by fill_notional fs * a.taker_fee_bps
  sum-fill_fee [] h = omega arith
  sum-fill_fee (f ∷ fs) h = omega (arith, sum-fill_fee fs h.1, h.0.fee)

-- Prices between two bounds put the notional between two multiples of the quantity.
pub le-sum-fill_notional :
    (m : ℕ) (fs : List LevelFill)
    → All (λ f. m ≤ f.execution_price) fs
    → sum_by fill_quantity fs * m ≤ sum_by fill_notional fs
le-sum-fill_notional m [] h = omega arith
le-sum-fill_notional m (f ∷ fs) h = grind (arith, le-sum-fill_notional m fs h.1, mul-le-mul)

pub sum-fill_notional-le :
    (m : ℕ) (fs : List LevelFill)
    → All (λ f. f.execution_price ≤ m) fs
    → sum_by fill_notional fs ≤ sum_by fill_quantity fs * m
sum-fill_notional-le m [] h = omega arith
sum-fill_notional-le m (f ∷ fs) h = grind (arith, sum-fill_notional-le m fs h.1, mul-le-mul)

-- A positive amount of fills has a positive notional.
pub sum-fill_notional-pos :
    (side : OrderSide) (cap : ℕ) (a : FillAssumptions) (fs : List LevelFill)
    → AllHonest side cap a fs
    → 0 < sum_by fill_quantity fs
    → 0 < sum_by fill_notional fs
sum-fill_notional-pos side cap a [] h p = p
sum-fill_notional-pos side cap a (f ∷ fs) h p =
    grind (arith, h.0.some_quantity, h.0.some_price, mul-le-mul)
