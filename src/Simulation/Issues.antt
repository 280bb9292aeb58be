-- ===== src/Simulation/Issues.antt =====
-- `_frame_issue` and the first tests of `_evaluate` (kairos_execution/simulation/fill_model.py):
-- why a command or a frame cannot be used. The digests of hashlib over canonical JSON are a
-- parameter.
use kairos_execution_engine.Common.{
  ℕ, ◌-◌, ◌%◌, Bool, not, Option, none, some, List, ltb, leb, ◌==◌, ◌&&◌, ◌||◌, if◌then◌else◌, all,
}
use kairos_execution_engine.Simulation.Models.{
  Digest, Reason, command_not_durable, not_yet_eligible, entry_expired, invalid_quantity_step,
  invalid_price_cap_step, stream_epoch_changed, source, frame_not_durable, stale_book,
  excessive_frame_latency, frame_sequence_regression, frame_identity_conflict,
  exchange_order_regression, book_price_rule_mismatch, book_quantity_rule_mismatch, BookLevel,
  AcceptedBookFrame, IocCommand, FillAssumptions, LiquidityState,
}
use kairos_execution_engine.Simulation.Models.Valid.{is_admitted}
use kairos_execution_engine.Simulation.Models.Coherent.{same_digest}

-- `fingerprint()` of each model.
pub record Fingerprints : Type 0 where
  pub frame : AcceptedBookFrame → Digest
  pub command : IocCommand → Digest
  pub assumptions : FillAssumptions → Digest

-- Every price of a side is a multiple of the tick; every quantity, of the step.
abbrev pub prices_fit : ℕ → List BookLevel → Bool
prices_fit tick = all (λ l. l.price % tick == 0)

abbrev pub quantities_fit : ℕ → List BookLevel → Bool
quantities_fit step = all (λ l. l.quantity % step == 0)

-- The exchange's order between a new frame and the state's cursor.
abbrev is_behind : AcceptedBookFrame → LiquidityState → Bool
is_behind f s =
    leb f.exchange_update_id s.last_exchange_update_id
    || (ltb f.exchange_at_ms s.last_exchange_at_ms || ltb f.received_at_ms s.last_received_at_ms)

-- The tests of `_frame_issue` behind those on the sequence.
abbrev pub rule_issue : AcceptedBookFrame → FillAssumptions → Option Reason
rule_issue f a =
    if not (prices_fit a.price_tick f.bids && prices_fit a.price_tick f.asks)
    then some book_price_rule_mismatch
    else if not (quantities_fit a.quantity_step f.bids && quantities_fit a.quantity_step f.asks)
    then some book_quantity_rule_mismatch
    else none

abbrev pub sequence_issue :
    Fingerprints → AcceptedBookFrame → LiquidityState → FillAssumptions → Option Reason
sequence_issue h f s a =
    if ltb f.sequence s.last_frame_sequence
    then some frame_sequence_regression
    else if f.sequence == s.last_frame_sequence && not (same_digest s.last_frame_sha256 (h.frame f))
    then some frame_identity_conflict
    else if not (f.sequence == s.last_frame_sequence) && is_behind f s
    then some exchange_order_regression
    else rule_issue f a

abbrev admission_issue :
    Fingerprints → AcceptedBookFrame → LiquidityState → ℕ → FillAssumptions → Option Reason
admission_issue h f s arrival a =
    if not (f.stream_epoch == s.stream_epoch)
    then some stream_epoch_changed
    else if not (is_admitted f.continuity)
    then some (source f.continuity)
    else if ltb arrival f.persisted_at_ms
    then some frame_not_durable
    else if ltb a.maximum_book_age_ms (arrival - f.exchange_at_ms)
    then some stale_book
    else if ltb a.maximum_frame_latency_ms (f.received_at_ms - f.exchange_at_ms)
    then some excessive_frame_latency
    else sequence_issue h f s a

-- `_frame_issue`. Its differences of times are not negative: a frame that is tested for its age is
-- durable at the arrival, and is received no earlier than the exchange made it.
unfoldable pub frame_issue :
    Fingerprints → AcceptedBookFrame → LiquidityState → ℕ → FillAssumptions → Option Reason
frame_issue h f s arrival a = elim s.barrier_reason [
  | some r ↦ some r
  | none ↦ admission_issue h f s arrival a
]

-- The first tests of `_evaluate`, on the command alone.
unfoldable pub command_issue : IocCommand → FillAssumptions → ℕ → Option Reason
command_issue c a arrival =
    if ltb arrival c.persisted_at_ms
    then some command_not_durable
    else if ltb arrival c.eligible_at_ms || ltb c.submitted_at_ms c.eligible_at_ms
    then some not_yet_eligible
    else if ltb c.expires_at_ms arrival
    then some entry_expired
    else if not (c.quantity % a.quantity_step == 0)
    then some invalid_quantity_step
    else if not (c.price_cap % a.price_tick == 0)
    then some invalid_price_cap_step
    else none
