-- ===== src/Simulation/Walk/Capacity.antt =====
-- The walk against an independent description: it fills what the book can give within the cap.
use kairos_execution_engine.Common.{
  ℕ, ◌+◌, ◌-◌, ◌<◌, ◌≡◌, ◌≢◌, ◌⊎◌, refl, true, Bool, List, [], ◌∷◌, min, arith, if◌then◌else◌, all,
  All, sum_by,
}
use kairos_execution_engine.Simulation.Models.{
  OrderSide, buy, sell, BookLevel, FillAssumptions, ConsumedDepth,
}
use kairos_execution_engine.Simulation.Models.Valid.{
  is_valid_level, ascending_from, descending_from,
}
use kairos_execution_engine.Simulation.Models.Coherent.{fill_quantity}
use kairos_execution_engine.Simulation.Depth.{depth_at, set_depth}
use kairos_execution_engine.Simulation.Depth.Laws.{depth_at-set_depth}
use kairos_execution_engine.Simulation.Walk.{
  book_side, is_refused, execution_price, capacity, level_fill, walk_levels,
}
use kairos_execution_engine.Simulation.Walk.Price.{le-execution_price, execution_price_mono}

-- Levels in a book side's order: each is worse for the order than the one before.
abbrev pub worsening_from : OrderSide → ℕ → List BookLevel → Bool
worsening_from buy = ascending_from
worsening_from sell = descending_from

abbrev pub is_worsening : OrderSide → List BookLevel → Bool
is_worsening side [] = true
is_worsening side (l ∷ ls) = worsening_from side l.price ls

-- All that the levels within the cap can give, whatever their order.
pub executable : OrderSide → ℕ → FillAssumptions → List ConsumedDepth → List BookLevel → ℕ
executable side cap a ds = sum_by (λ l.
    if is_refused side cap (execution_price side a l.price)
    then 0
    else capacity a l (depth_at (book_side side) l.price ds))

-- Behind a refused level every level is refused.
refused_behind_buy :
    (cap : ℕ) (a : FillAssumptions) (ds : List ConsumedDepth)
    → 0 < a.price_tick
    → (p : ℕ) (ls : List BookLevel) → 0 < p
    → ascending_from p ls ≡ true
    → is_refused buy cap (execution_price buy a p) ≡ true
    → executable buy cap a ds ls ≡ 0
unfolding executable
refused_behind_buy cap a ds t p [] n w r = refl
refused_behind_buy cap a ds t p (l ∷ ls) n w r = ground (
  arith,
  refused_behind_buy cap a ds t l.price ls,
  le-execution_price a p t,
  execution_price_mono buy a p l.price,
)

refused_behind_sell :
    (cap : ℕ) (a : FillAssumptions) (ds : List ConsumedDepth) (p : ℕ) (ls : List BookLevel)
    → descending_from p ls ≡ true
    → is_refused sell cap (execution_price sell a p) ≡ true
    → executable sell cap a ds ls ≡ 0
unfolding executable
refused_behind_sell cap a ds p [] w r = refl
refused_behind_sell cap a ds p (l ∷ ls) w r =
    ground (arith, refused_behind_sell cap a ds l.price ls, execution_price_mono sell a l.price p)

refused_behind :
    (side : OrderSide) (cap : ℕ) (a : FillAssumptions) (ds : List ConsumedDepth)
    → 0 < a.price_tick
    → (p : ℕ) (ls : List BookLevel) → 0 < p
    → worsening_from side p ls ≡ true
    → is_refused side cap (execution_price side a p) ≡ true
    → executable side cap a ds ls ≡ 0
refused_behind buy cap a ds t p ls n w r = refused_behind_buy cap a ds t p ls n w r
refused_behind sell cap a ds t p ls n w r = refused_behind_sell cap a ds p ls w r

-- No later level has the price of the one that was filled.
distinct_behind :
    (side : OrderSide) (p r : ℕ) (ls : List BookLevel)
    → worsening_from side r ls ≡ true
    → (p ≡ r) ⊎ (worsening_from side p (record { price = r; quantity = 0 } ∷ []) ≡ true)
    → All (λ l. l.price ≢ p) ls
distinct_behind side p r [] w e = tt
distinct_behind buy p r (l ∷ ls) w e = ground (arith, distinct_behind buy p l.price ls)
distinct_behind sell p r (l ∷ ls) w e = ground (arith, distinct_behind sell p l.price ls)

-- So the debit at one level leaves the others' capacity alone.
executable-set_depth :
    (side : OrderSide) (cap : ℕ) (a : FillAssumptions) (p q : ℕ) (ds : List ConsumedDepth)
    (ls : List BookLevel)
    → All (λ l. l.price ≢ p) ls
    → executable side cap a (set_depth (book_side side) p q ds) ls ≡ executable side cap a ds ls
unfolding executable
executable-set_depth side cap a p q ds [] h = refl
executable-set_depth side cap a p q ds (l ∷ ls) h = ground (
  arith,
  executable-set_depth side cap a p q ds ls h.1,
  depth_at-set_depth (book_side side) (book_side side) l.price p q ds,
)

-- The walk fills the request, or all that the book can give within the cap if that is less.
pub walk_levels-executable :
    (side : OrderSide) (cap : ℕ) (a : FillAssumptions)
    → 0 < a.price_tick
    → (ls : List BookLevel) (remaining : ℕ) (ds : List ConsumedDepth) → all is_valid_level ls ≡ true
    → is_worsening side ls ≡ true
    → sum_by fill_quantity (walk_levels side cap a ls remaining ds).0
      ≡ min remaining (executable side cap a ds ls)
unfolding walk_levels executable level_fill
walk_levels-executable side cap a t [] remaining ds v w = omega arith
walk_levels-executable side cap a t (l ∷ ls) remaining ds v w =
    let debit = depth_at (book_side side) l.price ds in
    let q = min remaining (capacity a l debit) in
    let ds' = set_depth (book_side side) l.price (debit + q) ds in
    ground (
      arith,
      walk_levels-executable side cap a t ls remaining ds,
      walk_levels-executable side cap a t ls (remaining - q) ds',
      refused_behind side cap a ds t l.price ls,
      executable-set_depth side cap a l.price (debit + q) ds ls,
      distinct_behind side l.price l.price ls,
      worsening_tail side l.price ls,
    )
  where
    worsening_tail :
        (side : OrderSide) (p : ℕ) (ls : List BookLevel)
        → worsening_from side p ls ≡ true
        → is_worsening side ls ≡ true
    worsening_tail side p [] w = refl
    worsening_tail buy p (l ∷ ls) w = ground arith
    worsening_tail sell p (l ∷ ls) w = ground arith
