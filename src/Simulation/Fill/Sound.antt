-- ===== src/Simulation/Fill/Sound.antt =====
-- The walk hands sound sums to the outcome: in particular the shortfall is never negative, since a
-- book is not crossed and every fill is on its adverse side.
use native.Mathlib.Nat.{mul-le-mul}
use kairos_execution_engine.Common.{
  ℕ, ◌+◌, ◌-◌, ◌*◌, ◌≤◌, ◌<◌, ◌≡◌, true, List, [], ◌∷◌, All, all, length, sum_by, arith, some,
}
use mathlib.Core.Option.{some-injective}
use kairos_execution_engine.Common.{subst}
use kairos_execution_engine.Common.Int.{pos, sub_ℕ-nonneg}
use kairos_execution_engine.Simulation.Models.{
  OrderSide, buy, sell, BookLevel, AcceptedBookFrame, IocCommand, FillAssumptions, LevelFill,
  LiquidityState, ConsumedDepth,
}
use kairos_execution_engine.Simulation.Models.Valid.{
  max_amount, max_shortfall, is_valid_level, is_ascending, is_descending, is_uncrossed,
}
use kairos_execution_engine.Simulation.Models.Coherent.{fill_quantity, fill_notional}
use kairos_execution_engine.Simulation.Models.Facts.{IsFrame, IsCommand, IsAssumptions}
use kairos_execution_engine.Simulation.Walk.{walk, walk_levels, book_levels}
use kairos_execution_engine.Simulation.Walk.Totals.{walk_levels-totals, walk_levels-lengths}
use kairos_execution_engine.Simulation.Walk.Fills.{AllHonest, walk_levels-IsHonest}
use kairos_execution_engine.Simulation.Walk.Bounds.{
  walk_levels-book_price, sum-fill_fee, le-sum-fill_notional, sum-fill_notional-le,
  sum-fill_notional-pos,
}
use kairos_execution_engine.Simulation.Walk.Validity.{
  IsShown, IsShown-levels, ascending-best, descending-best, honest_price_le, fills-valid,
}
use kairos_execution_engine.Simulation.Fill.{double_mid, shortfall}
use kairos_execution_engine.Simulation.Fill.Outcome.{IsSound}

-- From the book prices of honest fills to their execution prices.
buy_prices :
    (cap m : ℕ) (a : FillAssumptions) (fs : List LevelFill)
    → AllHonest buy cap a fs
    → All (λ f. m ≤ f.book_price) fs
    → All (λ f. m ≤ f.execution_price) fs
buy_prices cap m a [] h b = tt
buy_prices cap m a (f ∷ fs) h b = (omega (arith, h.0.adverse, b.0), buy_prices cap m a fs h.1 b.1)

sell_prices :
    (cap m : ℕ) (a : FillAssumptions) (fs : List LevelFill)
    → AllHonest sell cap a fs
    → All (λ f. f.book_price ≤ m) fs
    → All (λ f. f.execution_price ≤ m) fs
sell_prices cap m a [] h b = tt
sell_prices cap m a (f ∷ fs) h b = (omega (arith, h.0.adverse, b.0), sell_prices cap m a fs h.1 b.1)

bounded_prices :
    (side : OrderSide) (cap : ℕ) (a : FillAssumptions) (fs : List LevelFill)
    → cap ≤ max_amount
    → AllHonest side cap a fs
    → All (λ f. IsShown f.book_price) fs
    → All (λ f. f.execution_price ≤ max_amount) fs
bounded_prices side cap a [] k h b = tt
bounded_prices side cap a (f ∷ fs) k h b =
    (honest_price_le cap a k side f h.0 b.0.1, bounded_prices side cap a fs k h.1 b.1)

-- The shortfall of a buy: at least `q` times the distance from the mid to the best ask.
buy_short :
    (n q b k : ℕ)
    → q ≤ max_amount
    → n ≤ q * max_amount
    → q * k ≤ n
    → b < k
    → (x : ℕ) × (shortfall buy (2 * n) (q * (b + k)) ≡ pos x) × (x ≤ max_shortfall)
buy_short n q b k hq hn hk lt =
    (2 * n - q * (b + k), sub_ℕ-nonneg _ _ (grind (arith, mul-le-mul)), grind (arith, mul-le-mul))

sell_short :
    (n q b k : ℕ)
    → q ≤ max_amount
    → n ≤ q * b
    → b < k
    → k ≤ max_amount
    → (x : ℕ) × (shortfall sell (2 * n) (q * (b + k)) ≡ pos x) × (x ≤ max_shortfall)
sell_short n q b k hq hn lt hk =
    (q * (b + k) - 2 * n, sub_ℕ-nonneg _ _ (grind (arith, mul-le-mul)), grind (arith, mul-le-mul))

abbrev IsShort : OrderSide → List LevelFill → ℕ → Type 0
IsShort side fs mid =
    (x : ℕ) × (shortfall side (2 * sum_by fill_notional fs) (sum_by fill_quantity fs * mid) ≡ pos x)
    × (x ≤ max_shortfall)

module _ (cap q : ℕ) (a : FillAssumptions) (ds : List ConsumedDepth) (ha : IsAssumptions a)
    (low : cap ≤ max_amount) (few : q ≤ max_amount) where
  buy_walk-IsShort :
      (bids asks : List BookLevel) (mid : ℕ)
      → all is_valid_level asks ≡ true
      → is_ascending asks ≡ true
      → is_uncrossed bids asks ≡ true
      → double_mid bids asks ≡ some mid
      → IsShort buy (walk_levels buy cap a asks q ds).0 mid
  buy_walk-IsShort [] asks mid v w u e = cc
  buy_walk-IsShort (b ∷ bs) [] mid v w u e = cc
  buy_walk-IsShort (b ∷ bs) (k ∷ ks) mid v w u e =
      let fs = (walk_levels buy cap a (k ∷ ks) q ds).0 in
      let honest = walk_levels-IsHonest cap a ha.tick ha.slippage buy (k ∷ ks) q ds in
      let shown =
        walk_levels-book_price IsShown buy cap a (k ∷ ks) q ds (IsShown-levels (k ∷ ks) v) in
      let behind =
        walk_levels-book_price (λ p. k.price ≤ p) buy cap a (k ∷ ks) q ds
          (omega arith, ascending-best k.price ks w) in
      let within = (walk_levels-totals buy cap a (k ∷ ks) q ds).0 in
      subst (IsShort buy fs) (some-injective (b.price + k.price) mid e) (
        buy_short (sum_by fill_notional fs) (sum_by fill_quantity fs) b.price k.price (omega arith)
          (sum-fill_notional-le max_amount fs (bounded_prices buy cap a fs low honest shown))
          (le-sum-fill_notional k.price fs (buy_prices cap k.price a fs honest behind))
          (ground arith))

  sell_walk-IsShort :
      (bids asks : List BookLevel) (mid : ℕ)
      → all is_valid_level asks ≡ true
      → is_descending bids ≡ true
      → is_uncrossed bids asks ≡ true
      → double_mid bids asks ≡ some mid
      → IsShort sell (walk_levels sell cap a bids q ds).0 mid
  sell_walk-IsShort [] asks mid v w u e = cc
  sell_walk-IsShort (b ∷ bs) [] mid v w u e = cc
  sell_walk-IsShort (b ∷ bs) (k ∷ ks) mid v w u e =
      let fs = (walk_levels sell cap a (b ∷ bs) q ds).0 in
      let honest = walk_levels-IsHonest cap a ha.tick ha.slippage sell (b ∷ bs) q ds in
      let behind =
        walk_levels-book_price (λ p. p ≤ b.price) sell cap a (b ∷ bs) q ds
          (omega arith, descending-best b.price bs w) in
      let within = (walk_levels-totals sell cap a (b ∷ bs) q ds).0 in
      subst (IsShort sell fs) (some-injective (b.price + k.price) mid e) (
        sell_short (sum_by fill_notional fs) (sum_by fill_quantity fs) b.price k.price (omega arith)
          (sum-fill_notional-le b.price fs (sell_prices cap b.price a fs honest behind))
          (ground arith) (ground arith))

  walk_levels-IsShort :
      (side : OrderSide) (f : AcceptedBookFrame) (mid : ℕ)
      → IsFrame f
      → double_mid f.bids f.asks ≡ some mid
      → IsShort side (walk_levels side cap a (book_levels side f) q ds).0 mid
  walk_levels-IsShort buy f mid h e =
      buy_walk-IsShort f.bids f.asks mid h.asks_valid h.asks_ascend h.uncrossed e
  walk_levels-IsShort sell f mid h e =
      sell_walk-IsShort f.bids f.asks mid h.asks_valid h.bids_descend h.uncrossed e

mid_bounded :
    (bids asks : List BookLevel) (mid : ℕ)
    → all is_valid_level bids ≡ true
    → all is_valid_level asks ≡ true
    → double_mid bids asks ≡ some mid
    → (0 < mid) × (mid ≤ 2 * max_amount)
mid_bounded [] asks mid v w e = cc
mid_bounded (b ∷ bs) [] mid v w e = cc
mid_bounded (b ∷ bs) (k ∷ ks) mid v w e = ground arith

pub book_levels-valid :
    (side : OrderSide) (f : AcceptedBookFrame)
    → IsFrame f
    → (all is_valid_level (book_levels side f) ≡ true) × (length (book_levels side f) ≤ 100)
book_levels-valid buy f h = (h.asks_valid, h.few_asks)
book_levels-valid sell f h = (h.bids_valid, h.few_bids)

-- The fills of a walk over a coherent frame make a sound outcome.
pub walk-IsSound :
    (c : IocCommand) (f : AcceptedBookFrame) (a : FillAssumptions) (s : LiquidityState) (mid : ℕ)
    → IsCommand c
    → IsFrame f
    → IsAssumptions a
    → double_mid f.bids f.asks ≡ some mid
    → IsSound c a mid (walk c f a s).0
unfolding walk
walk-IsSound c f a s mid hc hf ha e =
    let ls = book_levels c.side f in
    let (valid, few) = book_levels-valid c.side f hf in
    let ds = s.consumed_depth in
    let fs = (walk_levels c.side c.price_cap a ls c.quantity ds).0 in
    let honest = walk_levels-IsHonest c.price_cap a ha.tick ha.slippage c.side ls c.quantity ds in
    let shown =
      walk_levels-book_price IsShown c.side c.price_cap a ls c.quantity ds
        (IsShown-levels ls valid) in
    let within = (walk_levels-totals c.side c.price_cap a ls c.quantity ds).0 in
    record {
      within_request = within;
      few = omega (arith, walk_levels-lengths c.side c.price_cap a ls c.quantity ds);
      fills_valid =
          fills-valid c.price_cap a hc.bounded_cap ha.fee c.side fs honest shown
            (omega (arith, hc.bounded_quantity));
      positive = sum-fill_notional-pos c.side c.price_cap a fs honest;
      notional_bounded =
          sum-fill_notional-le max_amount fs
            (bounded_prices c.side c.price_cap a fs hc.bounded_cap honest shown);
      fee_exact = sum-fill_fee c.side c.price_cap a fs honest;
      mid_bounded = mid_bounded f.bids f.asks mid hf.bids_valid hf.asks_valid e;
      short =
          walk_levels-IsShort c.price_cap c.quantity a ds ha hc.bounded_cap hc.bounded_quantity
            c.side f mid hf e;
    }
