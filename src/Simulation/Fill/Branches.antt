-- ===== src/Simulation/Fill/Branches.antt =====
-- The four branches of `_evaluate`, each with its condition, its outcome and its next state.
use kairos_execution_engine.Common.{
  ℕ, ◌≡◌, ◌∙◌, sym, false, [], ◌∷◌, ◌++◌, some, none, Option-cases, inl, inr, ok, ok-pair,
}
use kairos_execution_engine.Simulation.Models.{
  AcceptedBookFrame, IocCommand, FillAssumptions, FillOutcome, LiquidityState, ModelStep, no_fill,
  blocked, Reason,
}
use kairos_execution_engine.Simulation.Walk.{walk}
use kairos_execution_engine.Simulation.Issues.{Fingerprints, command_issue, frame_issue}
use kairos_execution_engine.Simulation.Fill.{
  unfilled, filled_outcome, double_mid, advance, accept_frame, concluded, receipt_of,
}
use kairos_execution_engine.Simulation.Fill.Equations.{
  concluded-refused, concluded-blocked, concluded-walked, concluded-no_best,
}

-- The state `t` with the receipt of `o`.
unfoldable pub with_receipt : FillOutcome → LiquidityState → LiquidityState
with_receipt o t = record t { receipts = t.receipts ++ receipt_of o ∷ [] }

-- A fresh step with the outcome `o` and the state `t` is settled.
abbrev pub IsStep : ModelStep → FillOutcome → LiquidityState → Type 0
IsStep m o t = (m.outcome ≡ o) × (m.state ≡ t) × (m.replayed ≡ false)

module _ (h : Fingerprints) (c : IocCommand) (f : AcceptedBookFrame) (a : FillAssumptions)
    (s : LiquidityState) (as_of arrival : ℕ) where
  -- The branches of a command that has arrived.
  pub data IsConcluded (o : FillOutcome) (t : LiquidityState) : Type 0 where
    refused :
        (r : Reason)
        → command_issue c a arrival ≡ some r
        → o ≡ unfilled h c f a arrival no_fill r c.quantity
        → t ≡ advance s (h.assumptions a) as_of arrival
        → IsConcluded o t
    barred :
        (r : Reason)
        → command_issue c a arrival ≡ none
        → frame_issue h f s arrival a ≡ some r
        → o ≡ unfilled h c f a arrival blocked r c.quantity
        → t ≡ record (advance s (h.assumptions a) as_of arrival) { barrier_reason = some r }
        → IsConcluded o t
    executed :
        (mid : ℕ)
        → command_issue c a arrival ≡ none
        → frame_issue h f s arrival a ≡ none
        → double_mid f.bids f.asks ≡ some mid
        → o ≡ filled_outcome h c f a arrival mid (walk c f a s).0
        → t ≡ accept_frame h f (walk c f a s).1 (advance s (h.assumptions a) as_of arrival)
        → IsConcluded o t

  -- An arrived command concludes by one of the branches, and by no other.
  pub concluded-IsConcluded :
      (o : FillOutcome) (t : LiquidityState)
      → concluded h c f a s as_of arrival ≡ ok (o, t)
      → IsConcluded o t
  concluded-IsConcluded o t e = elim (Option-cases (command_issue c a arrival)) [
    | inr (r, i) ↦
        let (p, q) = ok-pair (sym e ∙ concluded-refused h c f a s as_of arrival i) in
        refused r i p q
    | inl i ↦ elim (Option-cases (frame_issue h f s arrival a)) [
      | inr (r, j) ↦
          let (p, q) = ok-pair (sym e ∙ concluded-blocked h c f a s as_of arrival i j) in
          barred r i j p q
      | inl j ↦ elim (Option-cases (double_mid f.bids f.asks)) [
        | inl none_left ↦ cc (e, concluded-no_best h c f a s as_of arrival i j none_left)
        | inr (mid, m) ↦
            let (p, q) = ok-pair (sym e ∙ concluded-walked h c f a s as_of arrival i j m) in
            executed mid i j m p q
      ]
    ]
  ]
