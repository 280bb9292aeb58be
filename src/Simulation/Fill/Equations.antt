-- ===== src/Simulation/Fill/Equations.antt =====
-- The branches of `_evaluate` as equations of `concluded`.
use kairos_execution_engine.Common.{ℕ, ◌≡◌, some, none, ok, err}
use kairos_execution_engine.Simulation.Models.{
  AcceptedBookFrame, IocCommand, FillAssumptions, LiquidityState, no_fill, blocked, Reason,
}
use kairos_execution_engine.Simulation.Walk.{walk}
use kairos_execution_engine.Simulation.Issues.{Fingerprints, command_issue, frame_issue}
use kairos_execution_engine.Simulation.Fill.{
  no_best_price, unfilled, filled_outcome, double_mid, advance, accept_frame, walked, concluded,
}

module _ (h : Fingerprints) (c : IocCommand) (f : AcceptedBookFrame) (a : FillAssumptions)
    (s : LiquidityState) (as_of arrival : ℕ) where
  pub concluded-refused :
      {r : Reason}
      → command_issue c a arrival ≡ some r
      → concluded h c f a s as_of arrival
        ≡ ok (
          unfilled h c f a arrival no_fill r c.quantity,
          advance s (h.assumptions a) as_of arrival,
        )
  unfolding concluded
  concluded-refused e = rw (e, concluded)

  pub concluded-blocked :
      {r : Reason}
      → command_issue c a arrival ≡ none
      → frame_issue h f s arrival a ≡ some r
      → concluded h c f a s as_of arrival
        ≡ ok (
          unfilled h c f a arrival blocked r c.quantity,
          record (advance s (h.assumptions a) as_of arrival) { barrier_reason = some r },
        )
  unfolding concluded
  concluded-blocked e i = rw (e, concluded) (rw (i, concluded))

  pub concluded-walked :
      {mid : ℕ}
      → command_issue c a arrival ≡ none
      → frame_issue h f s arrival a ≡ none
      → double_mid f.bids f.asks ≡ some mid
      → concluded h c f a s as_of arrival
        ≡ ok (
          filled_outcome h c f a arrival mid (walk c f a s).0,
          accept_frame h f (walk c f a s).1 (advance s (h.assumptions a) as_of arrival),
        )
  unfolding concluded walked
  concluded-walked e i m = rw (e, concluded) (rw i (rw (m, walked)))

  -- Without a first level on each side the source raises.
  pub concluded-no_best :
      command_issue c a arrival ≡ none
      → frame_issue h f s arrival a ≡ none
      → double_mid f.bids f.asks ≡ none
      → concluded h c f a s as_of arrival ≡ err no_best_price
  unfolding concluded walked
  concluded-no_best e i m = rw (e, concluded) (rw i (rw (m, walked)))
