-- ===== src/Simulation/Walk/Price.antt =====
-- The slipped and rounded price of a level, and the capacity that participation leaves there.
use native.Mathlib.Nat.{div-mul-le_self, mul-le-mul_right}
use kairos_execution_engine.Common.{ℕ, ◌+◌, ◌-◌, ◌*◌, ◌/◌, ◌≤◌, ◌<◌, arith}
use kairos_execution_engine.Simulation.Models.{
  one, all_bps, OrderSide, buy, sell, BookLevel, FillAssumptions,
}
use kairos_execution_engine.Simulation.Walk.{execution_price, capacity}

pub le-ceil-mul : (n d : ℕ) → 0 < d → n ≤ (n + d - 1) / d * d
le-ceil-mul n d h = grind arith

-- Rounding up gives no more than any multiple that is large enough, rounding down no less.
pub ceil-mul-le : (n d k : ℕ) → 0 < d → n ≤ k * d → (n + d - 1) / d ≤ k
ceil-mul-le n d k h e = grind arith

div_mono : (n m d : ℕ) → n ≤ m → n / d ≤ m / d
div_mono n m d h = grind arith

-- A whole number `c` of ticks `t` covers `p` slipped by `b`; so it covers `p`.
covers : (p b c t : ℕ) → p * (all_bps + b) ≤ c * (t * all_bps) → p ≤ c * t
covers p b c t h = omega arith

covered : (p b c t : ℕ) → c * (t * all_bps) ≤ p * (all_bps - b) → b < all_bps → c * t ≤ p
covered p b c t h k = grind (arith, mul-le-mul_right)

-- A buyer never pays less than the displayed price.
pub le-execution_price :
    (a : FillAssumptions) (p : ℕ) → 0 < a.price_tick → p ≤ execution_price buy a p
unfolding execution_price
le-execution_price a p h =
    covers p a.adverse_slippage_bps _ a.price_tick
      (le-ceil-mul (p * (all_bps + a.adverse_slippage_bps)) (a.price_tick * all_bps) (omega arith))

-- A seller never gets more.
pub execution_price-le :
    (a : FillAssumptions) (p : ℕ) → a.adverse_slippage_bps < all_bps → execution_price sell a p ≤ p
unfolding execution_price
execution_price-le a p h =
    covered p a.adverse_slippage_bps _ a.price_tick
      (div-mul-le_self (p * (all_bps - a.adverse_slippage_bps)) (a.price_tick * all_bps)) h

-- A worse level does not execute at a better price.
pub execution_price_mono :
    (side : OrderSide) (a : FillAssumptions) (p q : ℕ)
    → p ≤ q
    → execution_price side a p ≤ execution_price side a q
unfolding execution_price
execution_price_mono buy a p q h =
    mul-le-mul_right a.price_tick
      (div_mono _ _ (a.price_tick * all_bps) (grind (arith, mul-le-mul_right)))
execution_price_mono sell a p q h =
    mul-le-mul_right a.price_tick (div_mono _ _ (a.price_tick * all_bps) (mul-le-mul_right _ h))

steps_fit : (x s : ℕ) → x / (s * one) * s * one ≤ x
steps_fit x s = grind (arith, div-mul-le_self x (s * one))

-- Debit and capacity together stay within the level's participation, unless nothing is left.
pub capacity_fits :
    (a : FillAssumptions) (l : BookLevel) (debit : ℕ)
    → 0 < capacity a l debit
    → (debit + capacity a l debit) * one ≤ l.quantity * a.depth_participation_fraction
unfolding capacity
capacity_fits a l debit h =
    omega
      (arith, steps_fit (l.quantity * a.depth_participation_fraction - debit * one) a.quantity_step)
