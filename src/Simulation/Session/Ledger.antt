-- ===== src/Simulation/Session/Ledger.antt =====
-- What holds along every sequence of calls: the receipts account for every debit, none is lost, and
-- a barrier ends all fills.
use kairos_execution_engine.Common.{
  ℕ, ◌+◌, ◌≤◌, ◌≡◌, ◌∙◌, sym, refl, ap, List, [], ◌∷◌, ◌++◌, arith, some, sum_by, sum_by-append,
  length, length-append,
}
use mathlib.Core.List.{append-nil, append_assoc}
use kairos_execution_engine.Simulation.Models.{
  Symbol, Reason, AcceptedBookFrame, IocCommand, FillAssumptions, FillOutcome, CommandReceipt,
  LiquidityState, ModelStep,
}
use kairos_execution_engine.Simulation.Models.Coherent.{
  coherent_state, coherent_cursor, coherent_depth, coherent_receipts,
}
use kairos_execution_engine.Simulation.Models.Facts.{coherent_frame-IsFrame}
use kairos_execution_engine.Simulation.Depth.Laws.{total_depth}
use kairos_execution_engine.Simulation.Issues.{Fingerprints, frame_issue}
use kairos_execution_engine.Simulation.Fill.{receipt_of, advance, accept_frame}
use kairos_execution_engine.Simulation.Fill.Total.{IsSession}
use kairos_execution_engine.Simulation.Fill.Branches.{
  with_receipt, IsConcluded, refused, barred, executed,
}
use kairos_execution_engine.Simulation.Fill.Calls.{
  IsAccepted, IsCall, replay, waiting, concluding, simulate_ioc-IsAccepted, simulate_ioc-IsCall,
}
use kairos_execution_engine.Simulation.Fill.Effects.{walk-length, concluded-conserved}
use kairos_execution_engine.Simulation.Session.{opening, Reaches, start, call}

abbrev pub receipt_quantity : CommandReceipt → ℕ
receipt_quantity r = r.outcome.filled_quantity

-- All that the receipts of a state say was filled.
abbrev pub filled_by : List CommandReceipt → ℕ
filled_by = sum_by receipt_quantity

-- From `s` to `t` receipts were added, and the debits grew by what they filled.
pub record IsLater (s t : LiquidityState) : Type 0 where
  pub added : (rs : List CommandReceipt) × (t.receipts ≡ s.receipts ++ rs)
  pub accounted :
      total_depth t.consumed_depth + filled_by s.receipts
      ≡ total_depth s.consumed_depth + filled_by t.receipts
  pub clock : s.last_as_of_ms ≤ t.last_as_of_ms

IsLater-refl : (s : LiquidityState) → IsLater s s
IsLater-refl s = record {
  added = ([], sym (append-nil s.receipts));
  accounted = omega arith;
  clock = omega arith;
}

IsLater-trans : {s t u : LiquidityState} → IsLater s t → IsLater t u → IsLater s u
IsLater-trans {s} {t} {u} p q =
    let (rs, e) = p.added in
    let (qs, k) = q.added in
    record {
      added = (rs ++ qs, k ∙ ap (λ xs. xs ++ qs) e ∙ append_assoc s.receipts rs qs);
      accounted = omega (arith, p.accounted, q.accounted);
      clock = omega (arith, p.clock, q.clock);
    }

module _ (h : Fingerprints) (c : IocCommand) (f : AcceptedBookFrame) (a : FillAssumptions)
    (s : LiquidityState) (as_of arrival : ℕ) where
  concluded-IsLater :
      (o : FillOutcome) (t : LiquidityState)
      → s.last_as_of_ms ≤ as_of
      → IsConcluded h c f a s as_of arrival o t
      → (t.receipts ≡ s.receipts) × (s.last_as_of_ms ≤ t.last_as_of_ms)
  unfolding advance accept_frame
  concluded-IsLater o t l (refused r i p q) = ground arith
  concluded-IsLater o t l (barred r i j p q) = ground arith
  concluded-IsLater o t l (executed mid i j m p q) = ground arith

module _ (h : Fingerprints) (c : IocCommand) (f : AcceptedBookFrame) (a : FillAssumptions)
    (s : LiquidityState) (as_of : ℕ) (m : ModelStep) where
  step-IsLater : IsAccepted h c f a s as_of → IsCall h c f a s as_of m → IsLater s m.state
  unfolding with_receipt receipt_of
  step-IsLater g (replay r n l (_, e, _)) = rw e (IsLater-refl s)
  step-IsLater g (waiting n early (_, e, _)) = rw e (IsLater-refl s)
  step-IsLater g (concluding o t n due k (_, e, _) valid) =
      let (kept, later) = concluded-IsLater h c f a s as_of _ o t g.clock k in
      let debits = concluded-conserved h c f a s as_of _ o t k in
      rw e (record {
        added = (receipt_of o ∷ [], ap (λ rs. rs ++ receipt_of o ∷ []) kept);
        accounted = omega (
          arith,
          debits.1,
          ap filled_by kept,
          sum_by-append {0} receipt_quantity t.receipts (receipt_of o ∷ []),
        );
        clock = later;
      })

  concluded-bounded :
      (o : FillOutcome) (t : LiquidityState) (arrival : ℕ)
      → IsAccepted h c f a s as_of
      → IsSession s
      → IsConcluded h c f a s as_of arrival o t
      → length t.consumed_depth ≤ length s.consumed_depth + 100
  unfolding advance accept_frame
  concluded-bounded o t arrival g hs (refused r i p q) = rw q (omega arith)
  concluded-bounded o t arrival g hs (barred r i j p q) = rw q (omega arith)
  concluded-bounded o t arrival g hs (executed mid i j k p q) =
      rw q (walk-length c f a s (coherent_frame-IsFrame f g.frame))

  step-IsSession :
      IsAccepted h c f a s as_of → IsCall h c f a s as_of m → IsSession s → IsSession m.state
  unfolding with_receipt
  step-IsSession g (replay r n l (_, e, _)) hs = rw e hs
  step-IsSession g (waiting n early (_, e, _)) hs = rw e hs
  step-IsSession g (concluding o t n due k (_, e, _) valid) hs =
      let (kept, _) = concluded-IsLater h c f a s as_of _ o t g.clock k in
      rw e (record {
        coherent = valid;
        few_debits = omega (
          arith,
          concluded-bounded o t _ g hs k,
          hs.few_debits,
          ap length kept,
          length-append {0} t.receipts (receipt_of o ∷ []),
        );
      })

  -- A barred state stays barred, and debits nothing more.
  step-barred :
      (r : Reason)
      → s.barrier_reason ≡ some r
      → IsCall h c f a s as_of m
      → (m.state.barrier_reason ≡ some r) × (m.state.consumed_depth ≡ s.consumed_depth)
  unfolding with_receipt advance frame_issue
  step-barred r b (replay q n l (_, e, _)) = rw e (b, refl)
  step-barred r b (waiting n early (_, e, _)) = rw e (b, refl)
  step-barred r b (concluding o t n due (refused q i p k) (_, e, _) valid) = rw (e, k) (b, refl)
  step-barred r b (concluding o t n due (barred q i j p k) (_, e, _) valid) =
      rw (e, k) (ground arith)
  step-barred r b (concluding o t n due (executed mid i j x p k) (_, e, _) valid) = ground arith

module _ (h : Fingerprints) where
  opening-IsSession :
      (session tape epoch : ℕ) (symbol : Symbol) → IsSession (opening session tape epoch symbol)
  unfolding opening
  opening-IsSession session tape epoch symbol = record {
    coherent = unfold coherent_state coherent_cursor coherent_depth coherent_receipts in refl;
    few_debits = omega arith;
  }

  Reaches-IsLater : {s t : LiquidityState} → Reaches h s t → IsLater s t
  Reaches-IsLater {s} start = IsLater-refl s
  Reaches-IsLater (call {t} c f a as_of m r e) = IsLater-trans (Reaches-IsLater r) (
      step-IsLater h c f a t as_of m (simulate_ioc-IsAccepted h c f a t as_of m e)
        (simulate_ioc-IsCall h c f a t as_of m e))

  Reaches-IsSession : {s t : LiquidityState} → IsSession s → Reaches h s t → IsSession t
  Reaches-IsSession hs start = hs
  Reaches-IsSession hs (call {t} c f a as_of m r e) =
      step-IsSession h c f a t as_of m (simulate_ioc-IsAccepted h c f a t as_of m e)
        (simulate_ioc-IsCall h c f a t as_of m e) (Reaches-IsSession hs r)

  Reaches-barred :
      {s t : LiquidityState} (r : Reason)
      → s.barrier_reason ≡ some r
      → Reaches h s t
      → (t.barrier_reason ≡ some r) × (t.consumed_depth ≡ s.consumed_depth)
  Reaches-barred r b start = (b, refl)
  Reaches-barred r b (call {t} c f a as_of m path e) =
      let (kept, debits) = Reaches-barred r b path in
      let (kept', debits') =
        step-barred h c f a t as_of m r kept (simulate_ioc-IsCall h c f a t as_of m e) in
      (kept', debits' ∙ debits)

  -- Whatever calls are made on a new liquidity state: the state is coherent, holds at most a hundred
  -- debits for each receipt, and its debits add up to what its receipts say was filled.
  pub Reaches-opening-IsSession :
      (session tape epoch : ℕ) (symbol : Symbol) (t : LiquidityState)
      → Reaches h (opening session tape epoch symbol) t
      → IsSession t × (total_depth t.consumed_depth ≡ filled_by t.receipts)
  unfolding opening
  Reaches-opening-IsSession session tape epoch symbol t r = (
    Reaches-IsSession (opening-IsSession session tape epoch symbol) r,
    omega (arith, (Reaches-IsLater r).accounted),
  )

  -- Whatever calls are made on a state: its receipts are kept, in their places, before those that
  -- are added; the debits grow by exactly what the added receipts fill; and the clock does not go
  -- back.
  pub session_keeps : (s t : LiquidityState) → Reaches h s t → IsLater s t
  session_keeps s t r = Reaches-IsLater r

  -- After a barrier, whatever calls are made: the barrier stays, the debits stay, and no receipt
  -- that is added fills anything.
  pub session_barred :
      (s t : LiquidityState) (r : Reason)
      → s.barrier_reason ≡ some r
      → Reaches h s t
      → (t.barrier_reason ≡ some r)
        × (t.consumed_depth ≡ s.consumed_depth)
        × (filled_by t.receipts ≡ filled_by s.receipts)
  session_barred s t r b path =
      let (kept, debits) = Reaches-barred r b path in
      (kept, debits, omega (arith, (Reaches-IsLater path).accounted, ap total_depth debits))
