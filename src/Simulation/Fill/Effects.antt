-- ===== src/Simulation/Fill/Effects.antt =====
-- What a fresh step does to the debits and to the quantity of its command.
use kairos_execution_engine.Common.{ℕ, ◌+◌, ◌≤◌, ◌≡◌, ap, true, false, arith, ok, sum_by, length}
use kairos_execution_engine.Simulation.Models.{
  AcceptedBookFrame, IocCommand, FillAssumptions, FillOutcome, LiquidityState, ModelStep,
}
use kairos_execution_engine.Simulation.Models.Coherent.{fill_quantity, is_wait}
use kairos_execution_engine.Simulation.Models.Facts.{IsFrame}
use kairos_execution_engine.Simulation.Depth.Laws.{total_depth, depth_quantity}
use kairos_execution_engine.Simulation.Depth.Sorted.{sum-sort_depth, length-sort_depth}
use kairos_execution_engine.Simulation.Walk.{walk, walk_levels, book_levels}
use kairos_execution_engine.Simulation.Walk.Totals.{walk_levels-totals, walk_levels-lengths}
use kairos_execution_engine.Simulation.Issues.{Fingerprints}
use kairos_execution_engine.Simulation.Fill.{
  unfilled, filled_outcome, advance, accept_frame, simulate_ioc,
}
use kairos_execution_engine.Simulation.Fill.Sound.{book_levels-valid}
use kairos_execution_engine.Simulation.Fill.Branches.{
  with_receipt, IsConcluded, refused, barred, executed,
}
use kairos_execution_engine.Simulation.Fill.Calls.{
  IsCall, replay, waiting, concluding, simulate_ioc-IsCall,
}

-- The walk's part in the totals.
walk-totals :
    (c : IocCommand) (f : AcceptedBookFrame) (a : FillAssumptions) (s : LiquidityState)
    → (sum_by fill_quantity (walk c f a s).0 ≤ c.quantity)
      × (total_depth (walk c f a s).1
          ≡ total_depth s.consumed_depth + sum_by fill_quantity (walk c f a s).0)
unfolding walk
walk-totals c f a s =
    let ls = book_levels c.side f in
    let after = (walk_levels c.side c.price_cap a ls c.quantity s.consumed_depth).1 in
    omega (
      arith,
      walk_levels-totals c.side c.price_cap a ls c.quantity s.consumed_depth,
      sum-sort_depth depth_quantity after,
    )

-- A walk adds at most one key for each of the hundred levels.
pub walk-length :
    (c : IocCommand) (f : AcceptedBookFrame) (a : FillAssumptions) (s : LiquidityState)
    → IsFrame f
    → length (walk c f a s).1 ≤ length s.consumed_depth + 100
unfolding walk
walk-length c f a s hf =
    let ls = book_levels c.side f in
    let after = (walk_levels c.side c.price_cap a ls c.quantity s.consumed_depth).1 in
    omega (
      arith,
      length-sort_depth after,
      book_levels-valid c.side f hf,
      walk_levels-lengths c.side c.price_cap a ls c.quantity s.consumed_depth,
    )

-- The step conserves the quantity and the debits.
pub record IsConserved (c : IocCommand) (s : LiquidityState) (m : ModelStep) : Type 0 where
  pub requested : m.outcome.requested_quantity ≡ c.quantity
  pub debited :
      total_depth m.state.consumed_depth ≡ total_depth s.consumed_depth + m.outcome.filled_quantity
  pub split :
      is_wait m.outcome.status ≡ false
      → m.outcome.filled_quantity + m.outcome.cancelled_quantity ≡ c.quantity
  pub waits :
      is_wait m.outcome.status ≡ true
      → (m.outcome.filled_quantity ≡ 0) × (m.outcome.cancelled_quantity ≡ 0) × (m.state ≡ s)

module _ (h : Fingerprints) (c : IocCommand) (f : AcceptedBookFrame) (a : FillAssumptions)
    (s : LiquidityState) (as_of arrival : ℕ) where
  pub concluded-conserved :
      (o : FillOutcome) (t : LiquidityState)
      → IsConcluded h c f a s as_of arrival o t
      → (o.requested_quantity ≡ c.quantity)
        × (total_depth t.consumed_depth ≡ total_depth s.consumed_depth + o.filled_quantity)
        × (o.filled_quantity + o.cancelled_quantity ≡ c.quantity)
        × (is_wait o.status ≡ false)
  unfolding unfilled filled_outcome advance accept_frame
  concluded-conserved o t (refused r i p q) = ground arith
  concluded-conserved o t (barred r i j p q) = ground arith
  concluded-conserved o t (executed mid i j m p q) = ground (arith, walk-totals c f a s)

module _ (h : Fingerprints) (c : IocCommand) (f : AcceptedBookFrame) (a : FillAssumptions)
    (s : LiquidityState) (as_of : ℕ) (m : ModelStep)
    (returned : simulate_ioc h c f a s as_of ≡ ok m) (fresh : m.replayed ≡ false) where
  -- A step that is not a replay requests the command's quantity. If it waits it fills and cancels
  -- nothing and leaves the state as it is; otherwise what it fills and what it cancels make up the
  -- request. What it fills is debited: it is the growth of the total of the consumed depth.
  pub simulate_ioc-conserves : IsConserved c s m
  unfolding with_receipt unfilled
  simulate_ioc-conserves = by_call (simulate_ioc-IsCall h c f a s as_of m returned)
    where
      by_call : IsCall h c f a s as_of m → IsConserved c s m
      by_call (replay r n l e) = cc (fresh, e.2)
      by_call (waiting n early (o, t, _)) = record {
        requested = rw o;
        debited = rw (o, t) (omega arith);
        split = λ w. cc (o, w);
        waits = λ w. (rw o, rw o, t);
      }
      by_call (concluding o t n due k (p, q, _) valid) =
          let (requested, debited, split, terminal) =
            concluded-conserved h c f a s as_of (c.submitted_at_ms + a.latency_ms) o t k in
          record {
            requested = rw p requested;
            debited = rw (p, q) debited;
            split = λ _. rw p split;
            waits = λ w. let e = ap (λ x. is_wait x.status) p in cc (e, w, terminal);
          }
