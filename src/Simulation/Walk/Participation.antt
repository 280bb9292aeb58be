-- ===== src/Simulation/Walk/Participation.antt =====
-- The debit at a price over a walk: it grows within the participation of the levels shown there.
use native.Mathlib.Nat.{mul-le-mul_right}
use kairos_execution_engine.Common.{
  ℕ, ◌+◌, ◌-◌, ◌*◌, ◌≤◌, ◌<◌, ◌≡◌, true, List, [], ◌∷◌, min, max, arith, All, ◌==◌, ◌&&◌,
}
use kairos_execution_engine.Simulation.Models.{
  one, OrderSide, BookSide, bid, ask, BookLevel, FillAssumptions, ConsumedDepth, same_side,
}
use kairos_execution_engine.Simulation.Depth.{depth_at, set_depth}
use kairos_execution_engine.Simulation.Depth.Laws.{depth_at-set_depth}
use kairos_execution_engine.Simulation.Walk.{book_side, capacity, walk_levels}
use kairos_execution_engine.Simulation.Walk.Price.{capacity_fits}

-- The levels at price `p` show at most `n`.
abbrev pub ShowsAtMost : ℕ → ℕ → List BookLevel → Type 0
ShowsAtMost p n = All (λ l. l.price ≡ p → l.quantity ≤ n)

filled_within :
    (a : FillAssumptions) (l : BookLevel) (debit q n : ℕ)
    → 0 < q
    → q ≤ capacity a l debit
    → l.quantity ≤ n
    → (debit + q) * one ≤ n * a.depth_participation_fraction
filled_within a l debit q n p k h =
    omega (arith, capacity_fits a l debit, mul-le-mul_right a.depth_participation_fraction h)

-- A key that the writer's test accepts is the key that is read.
depth_at_same :
    (s t : BookSide) (p r : ℕ) (ds : List ConsumedDepth)
    → (same_side s t && p == r) ≡ true
    → depth_at t r ds ≡ depth_at s p ds
depth_at_same bid bid p r ds h = ground arith
depth_at_same bid ask p r ds h = cc
depth_at_same ask bid p r ds h = cc
depth_at_same ask ask p r ds h = ground arith

module _ (side : OrderSide) (cap : ℕ) (a : FillAssumptions) (p : ℕ) where
  pub walk_levels-participation :
      (n : ℕ) (ls : List BookLevel) (remaining : ℕ) (ds : List ConsumedDepth)
      → ShowsAtMost p n ls
      → depth_at (book_side side) p (walk_levels side cap a ls remaining ds).1 * one
        ≤ max (depth_at (book_side side) p ds * one) (n * a.depth_participation_fraction)
  unfolding walk_levels
  walk_levels-participation n [] remaining ds h = omega arith
  walk_levels-participation n (l ∷ ls) remaining ds h =
      let debit = depth_at (book_side side) l.price ds in
      let q = min remaining (capacity a l debit) in
      let ds' = set_depth (book_side side) l.price (debit + q) ds in
      ground (
        arith,
        walk_levels-participation n ls remaining ds h.1,
        walk_levels-participation n ls (remaining - q) ds' h.1,
        depth_at-set_depth (book_side side) (book_side side) p l.price (debit + q) ds,
        filled_within a l debit q n,
        h.0,
      )

  -- The debits never shrink, on either side of the book.
  pub walk_levels-grows :
      (t : BookSide) (ls : List BookLevel) (remaining : ℕ) (ds : List ConsumedDepth)
      → depth_at t p ds ≤ depth_at t p (walk_levels side cap a ls remaining ds).1
  unfolding walk_levels
  walk_levels-grows t [] remaining ds = omega arith
  walk_levels-grows t (l ∷ ls) remaining ds =
      let debit = depth_at (book_side side) l.price ds in
      let q = min remaining (capacity a l debit) in
      let ds' = set_depth (book_side side) l.price (debit + q) ds in
      ground (
        arith,
        walk_levels-grows t ls remaining ds,
        walk_levels-grows t ls (remaining - q) ds',
        depth_at-set_depth t (book_side side) p l.price (debit + q) ds,
        depth_at_same t (book_side side) p l.price ds,
      )
