-- ===== src/Simulation/Fill/Conclusion.antt =====
-- What each branch of `_evaluate` leaves, once the command has arrived: a coherent outcome, and a
-- state that is coherent but for the receipt that it still lacks.
use kairos_execution_engine.Common.{
  ℕ, ◌+◌, ◌≤◌, ◌≡◌, refl, true, false, List, [], ◌∷◌, length, arith, some, none, Option,
  Option-cases, inl, inr, Result, ok, ◌||◌, ◌⊎◌,
}
use kairos_execution_engine.Simulation.Models.{
  Digest, Status, no_fill, blocked, BookLevel, AcceptedBookFrame, IocCommand, FillAssumptions,
  FillOutcome, LiquidityState, max_timestamp, Reason,
}
use kairos_execution_engine.Simulation.Models.Valid.{
  is_empty, coherent_command, coherent_frame, coherent_assumptions,
}
use kairos_execution_engine.Simulation.Models.Coherent.{
  is_wait, coherent_outcome, coherent_cursor, coherent_depth, is_valid_depth,
}
use kairos_execution_engine.Simulation.Models.Facts.{
  IsFrame, IsAssumptions, coherent_frame-IsFrame, coherent_command-IsCommand,
  coherent_assumptions-IsAssumptions,
}
use kairos_execution_engine.Simulation.Depth.Sorted.{
  all-sort_depth, length-sort_depth, unique_keys-sort_depth,
}
use kairos_execution_engine.Simulation.Walk.{walk, walk_levels, book_levels}
use kairos_execution_engine.Simulation.Walk.Totals.{
  walk_levels-lengths, walk_levels-valid, walk_levels_unique,
}
use kairos_execution_engine.Simulation.Issues.{Fingerprints, frame_issue, command_issue}
use kairos_execution_engine.Simulation.Fill.{
  double_mid, unfilled, filled_outcome, advance, accept_frame, concluded, FillError,
}
use kairos_execution_engine.Simulation.Fill.Equations.{
  concluded-refused, concluded-blocked, concluded-walked,
}
use kairos_execution_engine.Simulation.Fill.Outcome.{unfilled-coherent, filled_outcome-coherent}
use kairos_execution_engine.Simulation.Fill.Sound.{walk-IsSound, book_levels-valid}

-- The depth after a walk is coherent if it was before and has room for the levels of one side.
pub walk-coherent_depth :
    (c : IocCommand) (f : AcceptedBookFrame) (a : FillAssumptions) (s : LiquidityState)
    → IsFrame f
    → IsAssumptions a
    → coherent_depth s.consumed_depth ≡ true
    → length s.consumed_depth + 100 ≤ 102400
    → (coherent_depth (walk c f a s).1 ≡ true)
      × (length (walk c f a s).1 ≤ length s.consumed_depth + 100)
unfolding walk coherent_depth
walk-coherent_depth c f a s hf ha d k =
    let ls = book_levels c.side f in
    let ds = s.consumed_depth in
    let after = (walk_levels c.side c.price_cap a ls c.quantity ds).1 in
    ground (
      arith,
      book_levels-valid c.side f hf,
      walk_levels-lengths c.side c.price_cap a ls c.quantity ds,
      walk_levels-valid c.side c.price_cap a ha.fraction ls c.quantity ds,
      walk_levels_unique c.side c.price_cap a ls c.quantity ds,
      length-sort_depth after,
      all-sort_depth is_valid_depth after,
      unique_keys-sort_depth after,
    )

-- A conclusion of a command that arrives at `arrival`, from the state `s`.
pub record IsConclusion (c : IocCommand) (policy : Digest) (arrival : ℕ) (s : LiquidityState)
    (o : FillOutcome) (t : LiquidityState) : Type 0 where
  pub coherent : coherent_outcome o ≡ true
  pub terminal : is_wait o.status ≡ false
  pub of_command : o.command_id ≡ c.command_id
  pub of_policy : o.assumptions_sha256 ≡ policy
  pub at_arrival : o.arrival_at_ms ≡ arrival
  pub same_receipts : t.receipts ≡ s.receipts
  pub with_policy : t.assumptions_sha256 ≡ some policy
  pub arrived : t.last_arrival_at_ms ≡ arrival
  pub cursor : coherent_cursor t ≡ true
  pub depth : coherent_depth t.consumed_depth ≡ true
  pub depth_bounded : length t.consumed_depth ≤ length s.consumed_depth + 100

abbrev pub Concludes :
    IocCommand
    → Digest
    → ℕ
    → LiquidityState
    → Result FillError (FillOutcome × LiquidityState)
    → Type 0
Concludes c policy arrival s r =
    (o : FillOutcome) × (t : LiquidityState) × (r ≡ ok (o, t)) × IsConclusion c policy arrival s o t

best_prices :
    (bids asks : List BookLevel)
    → (is_empty bids || is_empty asks) ≡ false
    → (mid : ℕ) × (double_mid bids asks ≡ some mid)
best_prices [] asks h = cc
best_prices (b ∷ bs) [] h = cc
best_prices (b ∷ bs) (k ∷ ks) h = (b.price + k.price, refl)

frame_issue-none :
    (h : Fingerprints) (f : AcceptedBookFrame) (s : LiquidityState) (arrival : ℕ)
    (a : FillAssumptions)
    → coherent_frame f ≡ true
    → frame_issue h f s arrival a ≡ none
    → (is_empty f.bids || is_empty f.asks) ≡ false
unfolding coherent_frame frame_issue
frame_issue-none h f s arrival a v e = ground arith

-- A frame without an issue is admitted, so it has a best price on each side.
pub admitted_frame :
    (h : Fingerprints) (f : AcceptedBookFrame) (s : LiquidityState) (arrival : ℕ)
    (a : FillAssumptions)
    → coherent_frame f ≡ true
    → frame_issue h f s arrival a ≡ none
    → (mid : ℕ) × (double_mid f.bids f.asks ≡ some mid)
admitted_frame h f s arrival a v e =
    best_prices f.bids f.asks (frame_issue-none h f s arrival a v e)

module _ (h : Fingerprints) (c : IocCommand) (f : AcceptedBookFrame) (a : FillAssumptions)
    (s : LiquidityState) (as_of arrival : ℕ) (vc : coherent_command c ≡ true)
    (vf : coherent_frame f ≡ true) (va : coherent_assumptions a ≡ true)
    (vs : coherent_cursor s ≡ true) (vd : coherent_depth s.consumed_depth ≡ true)
    (arrived : arrival ≤ as_of) (dated : as_of ≤ max_timestamp) where
  -- An unfilled conclusion.
  unfilled-Concludes :
      (status : Status) (reason : Reason) (barrier : Option Reason)
      → (status ≡ no_fill) ⊎ (status ≡ blocked)
      → IsConclusion c
          (h.assumptions a)
          arrival
          s
          (unfilled h c f a arrival status reason c.quantity)
          (record (advance s (h.assumptions a) as_of arrival) { barrier_reason = barrier })
  unfolding unfilled advance coherent_cursor
  unfilled-Concludes status reason barrier e = record {
    coherent =
        unfilled-coherent h c f a arrival status reason c.quantity vc (omega arith) (inr (e, refl));
    terminal = ground arith;
    of_command = refl;
    of_policy = refl;
    at_arrival = refl;
    same_receipts = refl;
    with_policy = refl;
    arrived = refl;
    cursor = ground arith;
    depth = vd;
    depth_bounded = omega arith;
  }

  walked-Concludes :
      (mid : ℕ)
      → double_mid f.bids f.asks ≡ some mid
      → length s.consumed_depth + 100 ≤ 102400
      → IsConclusion c
          (h.assumptions a)
          arrival
          s
          (filled_outcome h c f a arrival mid (walk c f a s).0)
          (accept_frame h f (walk c f a s).1 (advance s (h.assumptions a) as_of arrival))
  unfolding advance accept_frame
  walked-Concludes mid e room =
      let hf = coherent_frame-IsFrame f vf in
      let ha = coherent_assumptions-IsAssumptions a va in
      let sound = walk-IsSound c f a s mid (coherent_command-IsCommand c vc) hf ha e in
      let (depth, bounded) = walk-coherent_depth c f a s hf ha vd room in
      record {
        coherent =
            filled_outcome-coherent h c f a arrival mid (walk c f a s).0 vc (omega arith) ha.fee
              sound;
        terminal = unfold filled_outcome in ground arith;
        of_command = unfold filled_outcome in refl;
        of_policy = unfold filled_outcome in refl;
        at_arrival = unfold filled_outcome in refl;
        same_receipts = refl;
        with_policy = refl;
        arrived = refl;
        cursor = unfold coherent_cursor in ground (arith, hf);
        depth = depth;
        depth_bounded = bounded;
      }

  pub concluded-Concludes :
      length s.consumed_depth + 100 ≤ 102400
      → Concludes c (h.assumptions a) arrival s (concluded h c f a s as_of arrival)
  concluded-Concludes room = elim (Option-cases (command_issue c a arrival)) [
    | inr (r, e) ↦ (
      unfilled h c f a arrival no_fill r c.quantity,
      advance s (h.assumptions a) as_of arrival,
      concluded-refused h c f a s as_of arrival e,
      unfold advance in unfilled-Concludes no_fill r s.barrier_reason (inl refl),
    )
    | inl e ↦ elim (Option-cases (frame_issue h f s arrival a)) [
      | inr (r, i) ↦ (
        unfilled h c f a arrival blocked r c.quantity,
        record (advance s (h.assumptions a) as_of arrival) { barrier_reason = some r },
        concluded-blocked h c f a s as_of arrival e i,
        unfilled-Concludes blocked r (some r) (inr refl),
      )
      | inl i ↦
          let (mid, m) = admitted_frame h f s arrival a vf i in
          (
            filled_outcome h c f a arrival mid (walk c f a s).0,
            accept_frame h f (walk c f a s).1 (advance s (h.assumptions a) as_of arrival),
            concluded-walked h c f a s as_of arrival e i m,
            walked-Concludes mid m room,
          )
    ]
  ]
