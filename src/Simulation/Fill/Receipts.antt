-- ===== src/Simulation/Fill/Receipts.antt =====
-- A receipt is added to those of a state: they stay unique, ordered by arrival and of one lineage.
use kairos_execution_engine.Common.{
  ℕ, ◌≤◌, ◌<◌, ◌≡◌, refl, true, false, not, List, [], ◌∷◌, ◌++◌, all, length, all-append,
  length-append, arith, some, none, Option, ◌==◌,
}
use kairos_execution_engine.Simulation.Models.{Digest, CommandReceipt, FillOutcome, max_commands}
use kairos_execution_engine.Simulation.Models.Coherent.{
  coherent_outcome, coherent_receipt, coherent_receipts, unique_commands, arrivals_from,
  arrivals_match, is_wait,
}
use kairos_execution_engine.Simulation.Fill.{find_receipt, receipt_of, has_digest}

-- A command without a receipt differs from all that have one.
find_receipt-none :
    (id : ℕ) (rs : List CommandReceipt)
    → find_receipt id rs ≡ none
    → all (λ r. not (r.command_id == id)) rs ≡ true
unfolding find_receipt
find_receipt-none id [] h = refl
find_receipt-none id (r ∷ rs) h = ground (arith, find_receipt-none id rs)

unique_commands-append :
    (rs : List CommandReceipt) (r : CommandReceipt)
    → unique_commands rs ≡ true
    → all (λ q. not (q.command_id == r.command_id)) rs ≡ true
    → unique_commands (rs ++ r ∷ []) ≡ true
unique_commands-append [] r u h = refl
unique_commands-append (q ∷ qs) r u h = ground (
  arith,
  unique_commands-append qs r,
  all-append (λ p. not (q.command_id == p.command_id)) qs (r ∷ []),
)

arrivals_from-append :
    (first last : ℕ) (rs : List CommandReceipt) (r : CommandReceipt)
    → arrivals_from first rs last ≡ true
    → last ≤ r.outcome.arrival_at_ms
    → arrivals_from first (rs ++ r ∷ []) r.outcome.arrival_at_ms ≡ true
arrivals_from-append first last [] r h k = ground arith
arrivals_from-append first last (q ∷ qs) r h k =
    ground (arith, arrivals_from-append q.outcome.arrival_at_ms last qs r)

arrivals_match-append :
    (last : ℕ) (rs : List CommandReceipt) (r : CommandReceipt)
    → arrivals_match rs last ≡ true
    → last ≤ r.outcome.arrival_at_ms
    → arrivals_match (rs ++ r ∷ []) r.outcome.arrival_at_ms ≡ true
arrivals_match-append last [] r h k = ground arith
arrivals_match-append last (q ∷ qs) r h k =
    arrivals_from-append q.outcome.arrival_at_ms last qs r h k

-- Receipts of a state keep their lineage when its assumptions become known.
lineage :
    (o : Option Digest) (policy : Digest) (rs : List CommandReceipt)
    → has_digest o policy ≡ true
    → all (coherent_receipt o) rs ≡ true
    → all (coherent_receipt (some policy)) rs ≡ true
unfolding coherent_receipt
lineage o policy [] h k = refl
lineage none policy (r ∷ rs) h k = ground arith
lineage (some e) policy (r ∷ rs) h k = ground (arith, lineage (some e) policy rs h)

pub coherent_receipts-append :
    (o : Option Digest) (last : ℕ) (rs : List CommandReceipt) (outcome : FillOutcome)
    → coherent_receipts o last rs ≡ true
    → has_digest o outcome.assumptions_sha256 ≡ true
    → length rs < max_commands
    → last ≤ outcome.arrival_at_ms
    → find_receipt outcome.command_id rs ≡ none
    → coherent_outcome outcome ≡ true
    → is_wait outcome.status ≡ false
    → coherent_receipts
        (some outcome.assumptions_sha256)
        outcome.arrival_at_ms
        (rs ++ receipt_of outcome ∷ [])
      ≡ true
unfolding coherent_receipts coherent_receipt receipt_of
coherent_receipts-append o last rs x h d l k f c w = ground (
  arith,
  lineage o x.assumptions_sha256 rs d,
  all-append (coherent_receipt (some x.assumptions_sha256)) rs (receipt_of x ∷ []),
  arrivals_match-append last rs (receipt_of x),
  unique_commands-append rs (receipt_of x),
  find_receipt-none x.command_id rs f,
  length-append rs (receipt_of x ∷ []),
)
