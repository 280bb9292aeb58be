-- ===== src/Simulation/Fill/Outcome.antt =====
-- The outcomes that the model builds pass the validator of `FillOutcome`.
use native.Mathlib.Nat.{mul-le-mul}
use kairos_execution_engine.Common.{
  ℕ, ◌*◌, ◌≤◌, ◌<◌, ◌≡◌, ◌⊎◌, true, List, all, length, sum_by, arith,
}
use kairos_execution_engine.Common.Int.{pos}
use kairos_execution_engine.Simulation.Models.{
  Status, wait, no_fill, blocked, Reason, AcceptedBookFrame, IocCommand, FillAssumptions, LevelFill,
  all_bps, max_timestamp,
}
use kairos_execution_engine.Simulation.Models.Valid.{
  max_amount, max_fee, max_shortfall, coherent_command,
}
use kairos_execution_engine.Simulation.Models.Coherent.{
  coherent_outcome, bounded_outcome, consistent_outcome, fill_quantity, fill_notional, fill_fee,
  is_valid_fill,
}
use kairos_execution_engine.Simulation.Issues.{Fingerprints}
use kairos_execution_engine.Simulation.Fill.{unfilled, filled_outcome, shortfall}

module _ (h : Fingerprints) (c : IocCommand) (f : AcceptedBookFrame) (a : FillAssumptions) where
  pub unfilled-coherent :
      (arrival : ℕ) (status : Status) (reason : Reason) (cancelled : ℕ)
      → coherent_command c ≡ true
      → arrival ≤ max_timestamp
      → ((status ≡ wait) × (cancelled ≡ 0))
        ⊎ (((status ≡ no_fill) ⊎ (status ≡ blocked)) × (cancelled ≡ c.quantity))
      → coherent_outcome (unfilled h c f a arrival status reason cancelled) ≡ true
  unfolding coherent_command coherent_outcome bounded_outcome consistent_outcome unfilled
  unfilled-coherent arrival status reason cancelled v t e = ground arith

-- What a walk hands over: bounded, honest sums on the right side of the mid price.
pub record IsSound (c : IocCommand) (a : FillAssumptions) (mid : ℕ) (fs : List LevelFill)
    : Type 0 where
  pub within_request : sum_by fill_quantity fs ≤ c.quantity
  pub few : length fs ≤ 100
  pub fills_valid : all is_valid_fill fs ≡ true
  pub positive : 0 < sum_by fill_quantity fs → 0 < sum_by fill_notional fs
  pub notional_bounded : sum_by fill_notional fs ≤ sum_by fill_quantity fs * max_amount
  pub fee_exact : sum_by fill_fee fs ≡ sum_by fill_notional fs * a.taker_fee_bps
  pub mid_bounded : (0 < mid) × (mid ≤ 2 * max_amount)
  pub short :
      (x : ℕ) × (shortfall c.side (2 * sum_by fill_notional fs) (sum_by fill_quantity fs * mid)
        ≡ pos x)
      × (x ≤ max_shortfall)

fee_total_bounded :
    (q n b : ℕ) → q ≤ max_amount → n ≤ q * max_amount → b ≤ all_bps → n * b ≤ max_fee
fee_total_bounded q n b h k m = grind (arith, mul-le-mul k m)

module _ (h : Fingerprints) (c : IocCommand) (f : AcceptedBookFrame) (a : FillAssumptions) where
  filled_outcome-bounded :
      (arrival mid : ℕ) (fs : List LevelFill)
      → coherent_command c ≡ true
      → arrival ≤ max_timestamp
      → a.taker_fee_bps ≤ all_bps
      → IsSound c a mid fs
      → bounded_outcome (filled_outcome h c f a arrival mid fs) ≡ true
  unfolding coherent_command bounded_outcome filled_outcome
  filled_outcome-bounded arrival mid fs v t b s = ground (
    arith,
    fee_total_bounded (sum_by fill_quantity fs) (sum_by fill_notional fs) a.taker_fee_bps,
    s.short,
  )

  filled_outcome-consistent :
      (arrival mid : ℕ) (fs : List LevelFill)
      → IsSound c a mid fs
      → consistent_outcome (filled_outcome h c f a arrival mid fs) ≡ true
  unfolding consistent_outcome filled_outcome
  filled_outcome-consistent arrival mid fs s = ground (arith, s.short)

  pub filled_outcome-coherent :
      (arrival mid : ℕ) (fs : List LevelFill)
      → coherent_command c ≡ true
      → arrival ≤ max_timestamp
      → a.taker_fee_bps ≤ all_bps
      → IsSound c a mid fs
      → coherent_outcome (filled_outcome h c f a arrival mid fs) ≡ true
  unfolding coherent_outcome
  filled_outcome-coherent arrival mid fs v t b s =
      rw (filled_outcome-bounded arrival mid fs v t b s)
        (filled_outcome-consistent arrival mid fs s)
