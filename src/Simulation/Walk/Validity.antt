-- ===== src/Simulation/Walk/Validity.antt =====
-- The fills of a walk pass the field bounds of `LevelFill`.
use native.Mathlib.Nat.{mul-le-mul}
use kairos_execution_engine.Common.{
  ℕ, ◌*◌, ◌≤◌, ◌<◌, ◌≡◌, refl, true, List, [], ◌∷◌, arith, all, All, sum_by,
}
use kairos_execution_engine.Simulation.Models.{
  all_bps, OrderSide, buy, sell, BookLevel, FillAssumptions, LevelFill,
}
use kairos_execution_engine.Simulation.Models.Valid.{
  max_amount, max_fee, is_valid_level, ascending_from, descending_from,
}
use kairos_execution_engine.Simulation.Models.Coherent.{is_valid_fill, fill_quantity}
use kairos_execution_engine.Simulation.Walk.Fills.{IsHonest, AllHonest}

-- A price that some level can show.
abbrev pub IsShown : ℕ → Type 0
IsShown p = (0 < p) × (p ≤ max_amount)

pub IsShown-levels :
    (ls : List BookLevel) → all is_valid_level ls ≡ true → All (λ l. IsShown l.price) ls
IsShown-levels [] h = tt
IsShown-levels (l ∷ ls) h = ground (arith, IsShown-levels ls)

-- Each level of an ascending side shows at least the first price, of a descending side at most.
ascending_weaken :
    (p r : ℕ) (ls : List BookLevel) → p ≤ r → ascending_from r ls ≡ true → All (λ l. p ≤ l.price) ls
ascending_weaken p r [] k h = tt
ascending_weaken p r (l ∷ ls) k h = ground (arith, ascending_weaken p l.price ls)

pub ascending-best :
    (p : ℕ) (ls : List BookLevel) → ascending_from p ls ≡ true → All (λ l. p ≤ l.price) ls
ascending-best p ls h = ascending_weaken p p ls (omega arith) h

descending_weaken :
    (p r : ℕ) (ls : List BookLevel)
    → r ≤ p
    → descending_from r ls ≡ true
    → All (λ l. l.price ≤ p) ls
descending_weaken p r [] k h = tt
descending_weaken p r (l ∷ ls) k h = ground (arith, descending_weaken p l.price ls)

pub descending-best :
    (p : ℕ) (ls : List BookLevel) → descending_from p ls ≡ true → All (λ l. l.price ≤ p) ls
descending-best p ls h = descending_weaken p p ls (omega arith) h

fee_bounded : (q p b : ℕ) → q ≤ max_amount → p ≤ max_amount → b ≤ all_bps → q * p * b ≤ max_fee
fee_bounded q p b h k m = grind (arith, mul-le-mul (mul-le-mul h k) m)

module _ (cap : ℕ) (a : FillAssumptions) (low : cap ≤ max_amount) where
  -- A buyer's price is within the cap, a seller's below the displayed price.
  pub honest_price_le :
      (side : OrderSide) (f : LevelFill)
      → IsHonest side cap a f
      → f.book_price ≤ max_amount
      → f.execution_price ≤ max_amount
  honest_price_le buy f h b = omega (arith, h.within)
  honest_price_le sell f h b = omega (arith, h.adverse)

  pub fills-valid :
      a.taker_fee_bps ≤ all_bps
      → (side : OrderSide) (fs : List LevelFill) → AllHonest side cap a fs
      → All (λ f. IsShown f.book_price) fs
      → sum_by fill_quantity fs ≤ max_amount
      → all is_valid_fill fs ≡ true
  fills-valid bps side [] h b q = refl
  fills-valid bps side (f ∷ fs) h b q = ground (
    arith,
    fills-valid bps side fs h.1 b.1,
    honest_price_le side f h.0,
    h.0.some_quantity,
    h.0.some_price,
    h.0.fee,
    fee_bounded f.quantity f.execution_price a.taker_fee_bps,
  )
