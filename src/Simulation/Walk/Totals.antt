-- ===== src/Simulation/Walk/Totals.antt =====
-- The walk's totals: what it fills, what it debits, and the shape of the dictionary it leaves.
use kairos_execution_engine.Common.{
  ℕ, ◌+◌, ◌-◌, ◌*◌, ◌≤◌, ◌<◌, ◌≡◌, true, List, [], ◌∷◌, min, arith, length, sum_by, all,
}
use kairos_execution_engine.Simulation.Models.{
  one, OrderSide, BookSide, BookLevel, FillAssumptions, ConsumedDepth,
}
use kairos_execution_engine.Simulation.Models.Valid.{max_amount, max_price, is_valid_level}
use kairos_execution_engine.Simulation.Models.Coherent.{fill_quantity, is_valid_depth, unique_keys}
use kairos_execution_engine.Simulation.Depth.{depth_at, set_depth}
use kairos_execution_engine.Simulation.Depth.Laws.{
  total_depth, total_depth-set_depth, length-set_depth, unique_keys-set_depth, set_depth-valid,
}
use kairos_execution_engine.Simulation.Walk.{book_side, capacity, level_fill, walk_levels}
use kairos_execution_engine.Simulation.Walk.Price.{capacity_fits}

module _ (side : OrderSide) (cap : ℕ) (a : FillAssumptions) where
  -- The fills never exceed the request, and are debited exactly.
  pub walk_levels-totals :
      (ls : List BookLevel) (remaining : ℕ) (ds : List ConsumedDepth)
      → let r = walk_levels side cap a ls remaining ds in
        (sum_by fill_quantity r.0 ≤ remaining)
        × (total_depth r.1 ≡ total_depth ds + sum_by fill_quantity r.0)
  unfolding walk_levels level_fill
  walk_levels-totals [] remaining ds = (omega arith, omega arith)
  walk_levels-totals (l ∷ ls) remaining ds =
      let debit = depth_at (book_side side) l.price ds in
      let q = min remaining (capacity a l debit) in
      let ds' = set_depth (book_side side) l.price (debit + q) ds in
      ground (
        arith,
        walk_levels-totals ls remaining ds,
        walk_levels-totals ls (remaining - q) ds',
        total_depth-set_depth (book_side side) l.price (debit + q) ds,
      )

  -- At most one fill and one new key for each level.
  pub walk_levels-lengths :
      (ls : List BookLevel) (remaining : ℕ) (ds : List ConsumedDepth)
      → let r = walk_levels side cap a ls remaining ds in
        (length r.0 ≤ length ls) × (length r.1 ≤ length ds + length ls)
  unfolding walk_levels level_fill
  walk_levels-lengths [] remaining ds = (omega arith, omega arith)
  walk_levels-lengths (l ∷ ls) remaining ds =
      let debit = depth_at (book_side side) l.price ds in
      let q = min remaining (capacity a l debit) in
      let ds' = set_depth (book_side side) l.price (debit + q) ds in
      ground (
        arith,
        walk_levels-lengths ls remaining ds,
        walk_levels-lengths ls (remaining - q) ds',
        length-set_depth (book_side side) l.price (debit + q) ds,
      )

  pub walk_levels_unique :
      (ls : List BookLevel) (remaining : ℕ) (ds : List ConsumedDepth)
      → unique_keys ds ≡ true
      → unique_keys (walk_levels side cap a ls remaining ds).1 ≡ true
  unfolding walk_levels
  walk_levels_unique [] remaining ds h = h
  walk_levels_unique (l ∷ ls) remaining ds h =
      let debit = depth_at (book_side side) l.price ds in
      let q = min remaining (capacity a l debit) in
      let ds' = set_depth (book_side side) l.price (debit + q) ds in
      ground (
        arith,
        walk_levels_unique ls remaining ds,
        walk_levels_unique ls (remaining - q) ds',
        unique_keys-set_depth (book_side side) l.price (debit + q) ds,
      )

-- A debit within the participation of a valid level is a valid amount.
debit_bounded : (x q f : ℕ) → x * one ≤ q * f → q ≤ max_amount → f ≤ one → x ≤ max_price
debit_bounded x q f h k m = grind arith

debit_valid :
    (a : FillAssumptions) (l : BookLevel) (s : BookSide) (debit q : ℕ)
    → is_valid_level l ≡ true
    → a.depth_participation_fraction ≤ one
    → 0 < q
    → q ≤ capacity a l debit
    → is_valid_depth (record { side = s; price = l.price; quantity = debit + q }) ≡ true
debit_valid a l s debit q h f p k = ground (
  arith,
  capacity_fits a l debit,
  debit_bounded (debit + q) l.quantity a.depth_participation_fraction,
)

pub walk_levels-valid :
    (side : OrderSide) (cap : ℕ) (a : FillAssumptions)
    → a.depth_participation_fraction ≤ one
    → (ls : List BookLevel) (remaining : ℕ) (ds : List ConsumedDepth) → all is_valid_level ls ≡ true
    → all is_valid_depth ds ≡ true
    → all is_valid_depth (walk_levels side cap a ls remaining ds).1 ≡ true
unfolding walk_levels
walk_levels-valid side cap a f [] remaining ds hl h = h
walk_levels-valid side cap a f (l ∷ ls) remaining ds hl h =
    let debit = depth_at (book_side side) l.price ds in
    let q = min remaining (capacity a l debit) in
    let ds' = set_depth (book_side side) l.price (debit + q) ds in
    ground (
      arith,
      walk_levels-valid side cap a f ls remaining ds,
      walk_levels-valid side cap a f ls (remaining - q) ds',
      set_depth-valid (book_side side) l.price (debit + q) ds,
      debit_valid a l (book_side side) debit q,
    )
