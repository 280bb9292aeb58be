-- ===== src/Simulation/Fill/Execution.antt =====
-- When a step fills, how much, and how far the debit at a price can grow.
use kairos_execution_engine.Common.{
  ℕ, ◌+◌, ◌*◌, ◌%◌, ◌≤◌, ◌<◌, ◌≡◌, refl, true, false, List, [], ◌∷◌, arith, none, some, Option, ok,
  min, max, sum_by, Bool-cases, ◌⊎◌, inl, inr, ap, ◌==◌, ==_iff,
}
use kairos_execution_engine.Simulation.Models.{
  OrderSide, buy, sell, BookLevel, one, AcceptedBookFrame, IocCommand, FillAssumptions, FillOutcome,
  LiquidityState, ModelStep, admitted, Digest,
}
use kairos_execution_engine.Simulation.Models.Valid.{coherent_frame, is_ascending, is_descending}
use kairos_execution_engine.Simulation.Models.Coherent.{
  coherent_state, coherent_depth, fill_quantity, unique_keys, same_digest,
}
use kairos_execution_engine.Simulation.Models.Facts.{
  IsFrame, coherent_frame-IsFrame, coherent_assumptions-IsAssumptions,
}
use kairos_execution_engine.Simulation.Depth.{depth_at}
use kairos_execution_engine.Simulation.Depth.Sorted.{depth_at-sort_depth}
use kairos_execution_engine.Simulation.Walk.{walk, walk_levels, book_levels, book_side}
use kairos_execution_engine.Simulation.Walk.Totals.{walk_levels_unique}
use kairos_execution_engine.Simulation.Walk.Fills.{AllHonest, walk_levels-IsHonest}
use kairos_execution_engine.Simulation.Walk.Capacity.{
  executable, is_worsening, walk_levels-executable,
}
use kairos_execution_engine.Simulation.Walk.Participation.{ShowsAtMost, walk_levels-participation}
use kairos_execution_engine.Simulation.Issues.{
  Fingerprints, command_issue, frame_issue, sequence_issue, rule_issue, prices_fit, quantities_fit,
}
use kairos_execution_engine.Simulation.Fill.{
  unfilled, filled_outcome, advance, accept_frame, simulate_ioc,
}
use kairos_execution_engine.Simulation.Fill.Total.{state_parts}
use kairos_execution_engine.Simulation.Fill.Sound.{book_levels-valid}
use kairos_execution_engine.Simulation.Fill.Branches.{
  with_receipt, IsConcluded, refused, barred, executed,
}
use kairos_execution_engine.Simulation.Fill.Calls.{
  IsAccepted, IsCall, replay, waiting, concluding, simulate_ioc-IsAccepted, simulate_ioc-IsCall,
}

-- The walk's part in the bound on participation.
walk-participation :
    (c : IocCommand) (f : AcceptedBookFrame) (a : FillAssumptions) (s : LiquidityState) (p n : ℕ)
    → unique_keys s.consumed_depth ≡ true
    → ShowsAtMost p n (book_levels c.side f)
    → depth_at (book_side c.side) p (walk c f a s).1 * one
      ≤ max
          (depth_at (book_side c.side) p s.consumed_depth * one)
          (n * a.depth_participation_fraction)
unfolding walk
walk-participation c f a s p n u k =
    let ls = book_levels c.side f in
    let after = (walk_levels c.side c.price_cap a ls c.quantity s.consumed_depth).1 in
    rw
      (depth_at-sort_depth (book_side c.side) p after
        (walk_levels_unique c.side c.price_cap a ls c.quantity s.consumed_depth u))
      (walk_levels-participation c.side c.price_cap a p n ls c.quantity s.consumed_depth k)

ascending-worsening : (ls : List BookLevel) → is_ascending ls ≡ true → is_worsening buy ls ≡ true
ascending-worsening [] h = refl
ascending-worsening (l ∷ ls) h = h

descending-worsening : (ls : List BookLevel) → is_descending ls ≡ true → is_worsening sell ls ≡ true
descending-worsening [] h = refl
descending-worsening (l ∷ ls) h = h

book_levels-worsening :
    (side : OrderSide) (f : AcceptedBookFrame)
    → IsFrame f
    → is_worsening side (book_levels side f) ≡ true
book_levels-worsening buy f h = ascending-worsening f.asks h.asks_ascend
book_levels-worsening sell f h = descending-worsening f.bids h.bids_descend

walk-executable :
    (c : IocCommand) (f : AcceptedBookFrame) (a : FillAssumptions) (s : LiquidityState)
    → coherent_frame f ≡ true
    → 0 < a.price_tick
    → sum_by fill_quantity (walk c f a s).0
      ≡ min c.quantity (executable c.side c.price_cap a s.consumed_depth (book_levels c.side f))
unfolding walk
walk-executable c f a s v t =
    let hf = coherent_frame-IsFrame f v in
    walk_levels-executable c.side c.price_cap a t (book_levels c.side f) c.quantity s.consumed_depth
      (book_levels-valid c.side f hf).0 (book_levels-worsening c.side f hf)

-- The frame at the state's cursor, met again: the same sequence number and the same content.
pub record IsSameFrame (h : Fingerprints) (f : AcceptedBookFrame) (s : LiquidityState)
    : Type 0 where
  pub sequence : f.sequence ≡ s.last_frame_sequence
  pub identity : s.last_frame_sha256 ≡ some (h.frame f)

-- A frame past the cursor: newer by its sequence and by the exchange's own order.
pub record IsNewerFrame (f : AcceptedBookFrame) (s : LiquidityState) : Type 0 where
  pub sequence : s.last_frame_sequence < f.sequence
  pub update : s.last_exchange_update_id < f.exchange_update_id
  pub exchange : s.last_exchange_at_ms ≤ f.exchange_at_ms
  pub received : s.last_received_at_ms ≤ f.received_at_ms

-- The conditions under which the model lets a command meet a frame.
pub record IsCausal (h : Fingerprints) (c : IocCommand) (f : AcceptedBookFrame)
    (a : FillAssumptions) (s : LiquidityState) (as_of : ℕ) : Type 0 where
  pub arrived : c.submitted_at_ms + a.latency_ms ≤ as_of
  pub durable_command : c.persisted_at_ms ≤ c.submitted_at_ms + a.latency_ms
  pub eligible : c.eligible_at_ms ≤ c.submitted_at_ms
  pub unexpired : c.submitted_at_ms + a.latency_ms ≤ c.expires_at_ms
  pub stepped : c.quantity % a.quantity_step ≡ 0
  pub ticked : c.price_cap % a.price_tick ≡ 0
  pub unbarred : s.barrier_reason ≡ none
  pub admitted_frame : f.continuity ≡ admitted
  pub durable_frame : f.persisted_at_ms ≤ c.submitted_at_ms + a.latency_ms
  pub recent_frame : c.submitted_at_ms + a.latency_ms ≤ f.exchange_at_ms + a.maximum_book_age_ms
  pub prompt_frame : f.received_at_ms ≤ f.exchange_at_ms + a.maximum_frame_latency_ms
  pub same_epoch : f.stream_epoch ≡ s.stream_epoch
  pub in_order : IsSameFrame h f s ⊎ IsNewerFrame f s
  pub bid_prices : prices_fit a.price_tick f.bids ≡ true
  pub ask_prices : prices_fit a.price_tick f.asks ≡ true
  pub bid_quantities : quantities_fit a.quantity_step f.bids ≡ true
  pub ask_quantities : quantities_fit a.quantity_step f.asks ≡ true

same_digest-some : (d : Digest) (e : Option Digest) → same_digest e d ≡ true → e ≡ some d
same_digest-some d none k = absurd (ground arith)
same_digest-some d (some e) k = ap some ((==_iff _ _).0 k)

sequence_issue-in_order :
    (h : Fingerprints) (f : AcceptedBookFrame) (s : LiquidityState) (a : FillAssumptions)
    → sequence_issue h f s a ≡ none
    → IsSameFrame h f s ⊎ IsNewerFrame f s
sequence_issue-in_order h f s a i = elim (Bool-cases (f.sequence == s.last_frame_sequence)) [
  | inl same ↦ inl (record {
    sequence = (==_iff _ _).0 same;
    identity = same_digest-some (h.frame f) s.last_frame_sha256 (ground arith);
  })
  | inr other ↦ inr (record {
    sequence = ground arith;
    update = ground arith;
    exchange = ground arith;
    received = ground arith;
  })
]

rule_issue-fits :
    (f : AcceptedBookFrame) (a : FillAssumptions)
    → rule_issue f a ≡ none
    → (prices_fit a.price_tick f.bids ≡ true)
      × (prices_fit a.price_tick f.asks ≡ true)
      × (quantities_fit a.quantity_step f.bids ≡ true)
      × (quantities_fit a.quantity_step f.asks ≡ true)
rule_issue-fits f a i = ground arith

issueless-IsCausal :
    (h : Fingerprints) (c : IocCommand) (f : AcceptedBookFrame) (a : FillAssumptions)
    (s : LiquidityState) (as_of : ℕ)
    → c.submitted_at_ms + a.latency_ms ≤ as_of
    → command_issue c a (c.submitted_at_ms + a.latency_ms) ≡ none
    → frame_issue h f s (c.submitted_at_ms + a.latency_ms) a ≡ none
    → IsCausal h c f a s as_of
unfolding command_issue frame_issue
issueless-IsCausal h c f a s as_of due i j =
    let order = sequence_issue-in_order h f s a (ground arith) in
    let (bid_prices, ask_prices, bid_quantities, ask_quantities) =
      rule_issue-fits f a (ground arith) in
    record {
      arrived = due;
      durable_command = ground arith;
      eligible = ground arith;
      unexpired = ground arith;
      stepped = ground arith;
      ticked = ground arith;
      unbarred = ground arith;
      admitted_frame = ground arith;
      durable_frame = ground arith;
      recent_frame = ground arith;
      prompt_frame = ground arith;
      same_epoch = ground arith;
      in_order = order;
      bid_prices = bid_prices;
      ask_prices = ask_prices;
      bid_quantities = bid_quantities;
      ask_quantities = ask_quantities;
    }

-- An execution of the command: causal, honest fill by fill, and of all that can be had.
pub record IsExecuted (h : Fingerprints) (c : IocCommand) (f : AcceptedBookFrame)
    (a : FillAssumptions) (s : LiquidityState) (as_of : ℕ) (o : FillOutcome) : Type 0 where
  pub causal : IsCausal h c f a s as_of
  pub honest : AllHonest c.side c.price_cap a o.level_fills
  pub greedy :
      o.filled_quantity
      ≡ min c.quantity (executable c.side c.price_cap a s.consumed_depth (book_levels c.side f))

-- What the debit at a price may grow to in one step.
abbrev pub Participates :
    IocCommand → FillAssumptions → LiquidityState → LiquidityState → ℕ → ℕ → Type 0
Participates c a s t p n =
    depth_at (book_side c.side) p t.consumed_depth * one
    ≤ max (depth_at (book_side c.side) p s.consumed_depth * one)
        (n * a.depth_participation_fraction)

module _ (h : Fingerprints) (c : IocCommand) (f : AcceptedBookFrame) (a : FillAssumptions)
    (s : LiquidityState) (as_of : ℕ) where
  concluded-IsExecuted :
      (o : FillOutcome) (t : LiquidityState)
      → IsAccepted h c f a s as_of
      → c.submitted_at_ms + a.latency_ms ≤ as_of
      → IsConcluded h c f a s as_of (c.submitted_at_ms + a.latency_ms) o t
      → 0 < o.filled_quantity
      → IsExecuted h c f a s as_of o
  unfolding unfilled filled_outcome walk
  concluded-IsExecuted o t g due (refused r i p q) some_fill = absurd (ground arith)
  concluded-IsExecuted o t g due (barred r i j p q) some_fill = absurd (ground arith)
  concluded-IsExecuted o t g due (executed mid i j k p q) some_fill =
      let ha = coherent_assumptions-IsAssumptions a g.assumptions in
      rw p (record {
        causal = issueless-IsCausal h c f a s as_of due i j;
        honest =
            walk_levels-IsHonest c.price_cap a ha.tick ha.slippage c.side (book_levels c.side f)
              c.quantity s.consumed_depth;
        greedy = walk-executable c f a s g.frame ha.tick;
      })

  concluded-Participates :
      (o : FillOutcome) (t : LiquidityState) (p n : ℕ)
      → coherent_state s ≡ true
      → ShowsAtMost p n (book_levels c.side f)
      → IsConcluded h c f a s as_of (c.submitted_at_ms + a.latency_ms) o t
      → Participates c a s t p n
  unfolding advance accept_frame coherent_depth
  concluded-Participates o t p n v k (refused r i x q) = rw q (omega arith)
  concluded-Participates o t p n v k (barred r i j x q) = rw q (omega arith)
  concluded-Participates o t p n v k (executed mid i j e x q) =
      rw q (walk-participation c f a s p n (ground (arith, state_parts s v)) k)

module _ (h : Fingerprints) (c : IocCommand) (f : AcceptedBookFrame) (a : FillAssumptions)
    (s : LiquidityState) (as_of : ℕ) (m : ModelStep)
    (returned : simulate_ioc h c f a s as_of ≡ ok m) (fresh : m.replayed ≡ false) where
  -- A step that is no replay and fills something is causal: the command has arrived, was durable,
  -- eligible, unexpired and in whole steps and ticks; the state bars nothing; the frame is admitted,
  -- of the state's epoch, durable at the arrival, recent and prompt; its levels are in whole ticks
  -- and steps; and it is either the very frame of the state's cursor (the same sequence number and
  -- the same content) or newer than it by sequence and update id, and no older by the exchange's
  -- clock and the receiver's. Every fill is of a positive quantity, at the slipped price of its level, within the
  -- command's cap and no better than displayed. And the step fills the request, or all that the
  -- frame's levels within the cap can give if that is less.
  pub simulate_ioc-IsExecuted : 0 < m.outcome.filled_quantity → IsExecuted h c f a s as_of m.outcome
  unfolding unfilled
  simulate_ioc-IsExecuted some_fill = by_call (simulate_ioc-IsCall h c f a s as_of m returned)
    where
      by_call : IsCall h c f a s as_of m → IsExecuted h c f a s as_of m.outcome
      by_call (replay r n l e) = cc (fresh, e.2)
      by_call (waiting n early step) = absurd (ground arith)
      by_call (concluding o t n due k (e, _, _) valid) = rw e (
          concluded-IsExecuted h c f a s as_of o t
            (simulate_ioc-IsAccepted h c f a s as_of m returned) due k (rw e at some_fill))

  -- Where the levels of the command's book side at a price `p` show at most `n`, a step that is no
  -- replay takes the debit at `p` to at most the participation fraction of `n`, or leaves it where
  -- it was if it was above.
  pub simulate_ioc-Participates :
      (p n : ℕ) → ShowsAtMost p n (book_levels c.side f) → Participates c a s m.state p n
  unfolding with_receipt
  simulate_ioc-Participates p n shows = by_call (simulate_ioc-IsCall h c f a s as_of m returned)
    where
      by_call : IsCall h c f a s as_of m → Participates c a s m.state p n
      by_call (replay r k l e) = cc (fresh, e.2)
      by_call (waiting k early step) = rw step.1 (omega arith)
      by_call (concluding o t k due d step valid) = rw step.1 (
          concluded-Participates h c f a s as_of o t p n
            (simulate_ioc-IsAccepted h c f a s as_of m returned).state shows d)
