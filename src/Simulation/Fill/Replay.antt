-- ===== src/Simulation/Fill/Replay.antt =====
-- The receipt of a command: the call that concludes the command leaves it, no call takes it away,
-- and a call with the same command answers from it.
use kairos_execution_engine.Common.{
  ℕ, ◌≡◌, ◌∙◌, ◌&&◌, sym, refl, ap, true, false, List, [], ◌∷◌, ◌++◌, arith, some, none, ok, ◌==◌,
  all, Option, Bool-cases, inl, inr, some-injective,
}
use kairos_execution_engine.Simulation.Fill.Total.{state_parts}
use kairos_execution_engine.Simulation.Models.{
  Digest, AcceptedBookFrame, IocCommand, FillAssumptions, FillOutcome, CommandReceipt,
  LiquidityState, ModelStep, same_symbol,
}
use kairos_execution_engine.Simulation.Models.Coherent.{
  coherent_state, coherent_receipt, coherent_receipts, is_wait, same_digest,
}
use kairos_execution_engine.Simulation.Issues.{Fingerprints}
use kairos_execution_engine.Simulation.Fill.{
  has_digest, unfilled, filled_outcome, advance, accept_frame, receipt_of, find_receipt, answer,
  simulate_ioc,
}
use kairos_execution_engine.Simulation.Fill.Branches.{
  with_receipt, IsConcluded, refused, barred, executed,
}
use kairos_execution_engine.Simulation.Fill.Calls.{
  IsAccepted, IsCall, replay, waiting, concluding, simulate_ioc-guarded,
}

find_receipt-append :
    (id : ℕ) (rs : List CommandReceipt) (r : CommandReceipt)
    → find_receipt id rs ≡ none
    → r.command_id ≡ id
    → find_receipt id (rs ++ r ∷ []) ≡ some r
unfolding find_receipt
find_receipt-append id [] r n e = ground arith
find_receipt-append id (q ∷ qs) r n e = ground (arith, find_receipt-append id qs r)

-- Another receipt does not hide one that is there.
find_receipt-kept :
    (id : ℕ) (rs qs : List CommandReceipt) (r : CommandReceipt)
    → find_receipt id rs ≡ some r
    → find_receipt id (rs ++ qs) ≡ some r
unfolding find_receipt
find_receipt-kept id [] qs r e = absurd (ground arith)
find_receipt-kept id (q ∷ rs) qs r e = ground (arith, find_receipt-kept id rs qs r)

-- A receipt that is found is of the state's assumptions.
find_receipt-lineage :
    (id : ℕ) (d : Option Digest) (rs : List CommandReceipt) (r : CommandReceipt)
    → all (coherent_receipt d) rs ≡ true
    → find_receipt id rs ≡ some r
    → same_digest d r.assumptions_sha256 ≡ true
unfolding find_receipt coherent_receipt
find_receipt-lineage id d [] r v e = absurd (ground arith)
find_receipt-lineage id d (q ∷ rs) r v e = elim (Bool-cases (q.command_id == id)) [
  | inl here ↦ let k : q ≡ r = some-injective (rw here at e) in rw (sym k) (ground arith)
  | inr there ↦ find_receipt-lineage id d rs r (ground arith) (rw there at e)
]

same_digest-has_digest :
    (d : Option Digest) (e : Digest) → same_digest d e ≡ true → has_digest d e ≡ true
same_digest-has_digest none e k = refl
same_digest-has_digest (some d) e k = k

-- The identity of a state, which no step changes, and the receipts before a conclusion's own.
record IsKept (s t : LiquidityState) : Type 0 where
  session : t.session_id ≡ s.session_id
  tape : t.tape_id ≡ s.tape_id
  symbol : t.symbol ≡ s.symbol
  receipts : t.receipts ≡ s.receipts

module _ (h : Fingerprints) (c : IocCommand) (f : AcceptedBookFrame) (a : FillAssumptions)
    (s : LiquidityState) (as_of arrival : ℕ) where
  concluded-IsKept :
      (o : FillOutcome) (t : LiquidityState) → IsConcluded h c f a s as_of arrival o t → IsKept s t
  unfolding advance accept_frame
  concluded-IsKept o t (refused r i p q) = ground arith
  concluded-IsKept o t (barred r i j p q) = ground arith
  concluded-IsKept o t (executed mid i j m p q) = ground arith

  concluded-lineage :
      (o : FillOutcome) (t : LiquidityState)
      → IsConcluded h c f a s as_of arrival o t
      → (o.command_id ≡ c.command_id)
        × (o.command_sha256 ≡ h.command c)
        × (o.assumptions_sha256 ≡ h.assumptions a)
  unfolding unfilled filled_outcome
  concluded-lineage o t (refused r i p q) = ground arith
  concluded-lineage o t (barred r i j p q) = ground arith
  concluded-lineage o t (executed mid i j m p q) = ground arith

-- The state `t` answers the command `c` by the outcome `o`.
pub record Answers (h : Fingerprints) (c : IocCommand) (a : FillAssumptions) (t : LiquidityState)
    (o : FillOutcome) : Type 0 where
  pub coherent : coherent_state t ≡ true
  pub session : (c.session_id == t.session_id && same_symbol c.symbol t.symbol) ≡ true
  pub receipt :
      (r : CommandReceipt) × (find_receipt c.command_id t.receipts ≡ some r)
      × (r.outcome ≡ o)
      × (r.command_sha256 ≡ h.command c)
      × (r.assumptions_sha256 ≡ h.assumptions a)

-- A state that answers a command admits the command's assumptions.
pub Answers-policy :
    (h : Fingerprints) (c : IocCommand) (a : FillAssumptions) (t : LiquidityState) (o : FillOutcome)
    → Answers h c a t o
    → has_digest t.assumptions_sha256 (h.assumptions a) ≡ true
unfolding coherent_receipts
Answers-policy h c a t o k =
    let (r, found, _, _, policy) = k.receipt in
    let parts = state_parts t k.coherent in
    let same =
      find_receipt-lineage c.command_id t.assumptions_sha256 t.receipts r
        (ground (arith, parts.lineage)) found in
    same_digest-has_digest t.assumptions_sha256 (h.assumptions a) (rw policy at same)

module _ (h : Fingerprints) (c : IocCommand) (f : AcceptedBookFrame) (a : FillAssumptions)
    (s : LiquidityState) (as_of : ℕ) where
  -- No call takes an answer away.
  pub call-keeps_Answers :
      (c0 : IocCommand) (a0 : FillAssumptions) (o0 : FillOutcome) (m : ModelStep)
      → IsAccepted h c f a s as_of
      → IsCall h c f a s as_of m
      → Answers h c0 a0 s o0
      → Answers h c0 a0 m.state o0
  unfolding with_receipt
  call-keeps_Answers c0 a0 o0 m g (replay r n l (o, e, p)) k = rw e k
  call-keeps_Answers c0 a0 o0 m g (waiting n early (_, e, _)) k = rw e k
  call-keeps_Answers c0 a0 o0 m g (concluding o t n due x (_, e, _) valid) k =
      let kept = concluded-IsKept h c f a s as_of _ o t x in
      let (r, found, same, command, assumptions) = k.receipt in
      rw e (record {
        coherent = valid;
        session = rw (kept.session, kept.symbol) k.session;
        receipt = (
          r,
          rw kept.receipts (find_receipt-kept c0.command_id s.receipts (receipt_of o ∷ []) r found),
          same,
          command,
          assumptions,
        );
      })

  -- The call that concludes a command makes the state answer it.
  pub call-Answers :
      (m : ModelStep)
      → IsAccepted h c f a s as_of
      → IsCall h c f a s as_of m
      → is_wait m.outcome.status ≡ false
      → Answers h c a m.state m.outcome
  unfolding unfilled with_receipt receipt_of
  call-Answers m g (replay r n l (o, e, p)) w = record {
    coherent = rw e g.state;
    session = rw e g.session;
    receipt = rw e (r, n, sym o, l.0, l.1);
  }
  call-Answers m g (waiting n early step) w =
      let e : is_wait m.outcome.status ≡ true = ap (λ o. is_wait o.status) step.0 in cc (e, w)
  call-Answers m g (concluding o t n due k step valid) w =
      let kept = concluded-IsKept h c f a s as_of _ o t k in
      let (id, command, assumptions) = concluded-lineage h c f a s as_of _ o t k in
      record {
        coherent = rw step.1 valid;
        session = rw (step.1, kept.session, kept.symbol) g.session;
        receipt = (
          receipt_of o,
          rw (step.1, kept.receipts)
              (find_receipt-append c.command_id s.receipts (receipt_of o) n id),
          sym step.0,
          command,
          assumptions,
        );
      }

answer-some :
    (h : Fingerprints) (c : IocCommand) (f : AcceptedBookFrame) (a : FillAssumptions)
    (s : LiquidityState) (as_of : ℕ) (r : CommandReceipt) (o : FillOutcome)
    → r.outcome ≡ o
    → r.command_sha256 ≡ h.command c
    → r.assumptions_sha256 ≡ h.assumptions a
    → answer h c f a s as_of (some r) ≡ ok (record { outcome = o; state = s; replayed = true })
unfolding answer
answer-some h c f a s as_of r o e k p = ground arith

-- A call that passes the guards on a state that answers its command replays the outcome.
pub Answers-replays :
    (h : Fingerprints) (c : IocCommand) (f : AcceptedBookFrame) (a : FillAssumptions)
    (t : LiquidityState) (as_of : ℕ) (o : FillOutcome)
    → IsAccepted h c f a t as_of
    → Answers h c a t o
    → simulate_ioc h c f a t as_of ≡ ok (record { outcome = o; state = t; replayed = true })
Answers-replays h c f a t as_of o g k =
    let (r, found, same, command, policy) = k.receipt in
    simulate_ioc-guarded h c f a t as_of g
    ∙ rw found (answer-some h c f a t as_of r o same command policy)
