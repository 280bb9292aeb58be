-- ===== src/Simulation/Models/Coherent.antt =====
-- The validators of outcomes, debits, receipts and states (kairos_execution/simulation/models.py),
-- as Boolean tests: `false` where pydantic raises.
use kairos_execution_engine.Common.{
  ℕ, ◌+◌, ◌*◌, Bool, true, false, not, ◌&&◌, ◌||◌, Option, none, some, List, [], ◌∷◌, ltb, leb,
  ◌==◌, all, length, sum_by, every, is_some,
}
use kairos_execution_engine.Common.Int.{ℤ, pos, negsuc}
use kairos_execution_engine.Simulation.Models.{
  max_timestamp, max_commands, Digest, BookSide, same_side, ConsumedDepth, LevelFill, Quotient,
  Status, wait, filled, partial, no_fill, blocked, FillOutcome, CommandReceipt, LiquidityState,
}
use kairos_execution_engine.Simulation.Models.Valid.{
  is_empty, is_positive_amount, max_amount, max_fee, max_notional, max_price, max_shortfall,
}

abbrev pub is_valid_fill : LevelFill → Bool
is_valid_fill f =
    is_positive_amount f.book_price
    && (ltb 0 f.execution_price
        && (leb f.execution_price max_price
            && (is_positive_amount f.quantity && leb f.fee_quote max_fee)))

abbrev pub fill_quantity : LevelFill → ℕ
fill_quantity f = f.quantity

abbrev pub fill_notional : LevelFill → ℕ
fill_notional f = f.quantity * f.execution_price

abbrev pub fill_fee : LevelFill → ℕ
fill_fee f = f.fee_quote

-- `CalculatedNonnegative`, at the scale of a shortfall.
abbrev is_valid_shortfall : ℤ → Bool
is_valid_shortfall (pos n) = leb n max_shortfall
is_valid_shortfall (negsuc _) = false

abbrev is_valid_quotient : Option Quotient → Bool
is_valid_quotient none = true
is_valid_quotient (some r) =
    ltb 0 r.denominator && (ltb 0 r.numerator && leb r.numerator (max_price * r.denominator))

-- `CalculatedPositive | None` for a mid price, in halves of 10^-18.
abbrev is_valid_mid : Option ℕ → Bool
is_valid_mid none = true
is_valid_mid (some m) = ltb 0 m && leb m (2 * max_price)

abbrev is_zero_shortfall : ℤ → Bool
is_zero_shortfall (pos n) = n == 0
is_zero_shortfall (negsuc _) = false

-- `average_price == (notional / quantity if quantity else None)`.
abbrev pub average_matches : Option Quotient → ℕ → ℕ → Bool
average_matches none notional quantity = quantity == 0
average_matches (some r) notional quantity =
    not (quantity == 0) && r.numerator * quantity == notional * r.denominator

-- The tests of `coherent_outcome` that turn on the status.
abbrev pub status_matches : Status → ℕ → ℕ → ℕ → Bool
status_matches wait quantity cancelled requested = quantity == 0 && cancelled == 0
status_matches filled quantity cancelled requested =
    quantity + cancelled == requested && quantity == requested
status_matches partial quantity cancelled requested =
    quantity + cancelled == requested && (ltb 0 quantity && ltb quantity requested)
status_matches no_fill quantity cancelled requested =
    quantity + cancelled == requested && quantity == 0
status_matches blocked quantity cancelled requested =
    quantity + cancelled == requested && quantity == 0

-- The bounds on the fields of an outcome.
unfoldable pub bounded_outcome : FillOutcome → Bool
bounded_outcome o = every (
    leb o.arrival_at_ms max_timestamp
    ∷ is_positive_amount o.requested_quantity
    ∷ leb o.filled_quantity max_amount
    ∷ leb o.cancelled_quantity max_amount
    ∷ leb o.notional_quote max_notional
    ∷ leb o.fee_quote max_fee
    ∷ is_valid_quotient o.average_price
    ∷ is_valid_mid o.arrival_mid_price
    ∷ is_valid_shortfall o.implementation_shortfall_quote
    ∷ all is_valid_fill o.level_fills
    ∷ leb (length o.level_fills) 100
    ∷ [])

-- The tests of its `coherent_outcome`.
unfoldable pub consistent_outcome : FillOutcome → Bool
consistent_outcome o = every (
    (sum_by fill_quantity o.level_fills == o.filled_quantity)
    ∷ (sum_by fill_notional o.level_fills == o.notional_quote)
    ∷ (sum_by fill_fee o.level_fills == o.fee_quote)
    ∷ status_matches o.status o.filled_quantity o.cancelled_quantity o.requested_quantity
    ∷ (o.filled_quantity == 0 || is_some o.frame_sha256)
    ∷ average_matches o.average_price o.notional_quote o.filled_quantity
    ∷ (o.filled_quantity == 0 || is_some o.arrival_mid_price)
    ∷ (ltb 0 o.filled_quantity || is_zero_shortfall o.implementation_shortfall_quote)
    ∷ [])

unfoldable pub coherent_outcome : FillOutcome → Bool
coherent_outcome o = bounded_outcome o && consistent_outcome o

-- `(a == 0) == (b is None)` and `(a == 0) == (b == 0)`.
abbrev cursor_has_digest : ℕ → Option Digest → Bool
cursor_has_digest n none = n == 0
cursor_has_digest n (some _) = not (n == 0)

abbrev cursor_has_update : ℕ → ℕ → Bool
cursor_has_update n m = (n == 0 && m == 0) || (ltb 0 n && ltb 0 m)

abbrev pub is_keyed : BookSide → ℕ → ConsumedDepth → Bool
is_keyed s p d = same_side s d.side && p == d.price

-- `len(keys) == len(set(keys))`.
abbrev pub unique_keys : List ConsumedDepth → Bool
unique_keys [] = true
unique_keys (d ∷ ds) = all (λ e. not (is_keyed d.side d.price e)) ds && unique_keys ds

-- `len(commands) == len(set(commands))`.
abbrev pub unique_commands : List CommandReceipt → Bool
unique_commands [] = true
unique_commands (r ∷ rs) = all (λ q. not (r.command_id == q.command_id)) rs && unique_commands rs

abbrev pub is_valid_depth : ConsumedDepth → Bool
is_valid_depth d = is_positive_amount d.price && (ltb 0 d.quantity && leb d.quantity max_price)

-- `arrivals == sorted(arrivals) and (not arrivals or arrivals[-1] == last)`, from an earlier arrival.
abbrev pub arrivals_from : ℕ → List CommandReceipt → ℕ → Bool
arrivals_from first [] last = first == last
arrivals_from first (r ∷ rs) last =
    leb first r.outcome.arrival_at_ms && arrivals_from r.outcome.arrival_at_ms rs last

abbrev pub arrivals_match : List CommandReceipt → ℕ → Bool
arrivals_match [] last = true
arrivals_match (r ∷ rs) last = arrivals_from r.outcome.arrival_at_ms rs last

abbrev pub is_wait : Status → Bool
is_wait wait = true
is_wait _ = false

abbrev pub same_digest : Option Digest → Digest → Bool
same_digest none d = false
same_digest (some e) d = e == d

-- The lineage tests on one receipt, after the validator of the outcome that it holds.
unfoldable pub coherent_receipt : Option Digest → CommandReceipt → Bool
unfolding coherent_outcome
coherent_receipt assumptions r = every (
    coherent_outcome r.outcome
    ∷ (r.command_id == r.outcome.command_id)
    ∷ (r.command_sha256 == r.outcome.command_sha256)
    ∷ (r.assumptions_sha256 == r.outcome.assumptions_sha256)
    ∷ same_digest assumptions r.assumptions_sha256
    ∷ not (is_wait r.outcome.status)
    ∷ [])

-- The clocks and the frame cursor of a state.
unfoldable pub coherent_cursor : LiquidityState → Bool
coherent_cursor s = every (
    leb s.last_as_of_ms max_timestamp
    ∷ leb s.last_exchange_at_ms max_timestamp
    ∷ leb s.last_received_at_ms max_timestamp
    ∷ cursor_has_digest s.last_frame_sequence s.last_frame_sha256
    ∷ cursor_has_update s.last_frame_sequence s.last_exchange_update_id
    ∷ leb s.last_arrival_at_ms s.last_as_of_ms
    ∷ [])

-- Its debits.
unfoldable pub coherent_depth : List ConsumedDepth → Bool
coherent_depth ds = every (leb (length ds) 102400 ∷ all is_valid_depth ds ∷ unique_keys ds ∷ [])

-- Its receipts, in the order of their arrivals and under its own assumptions.
unfoldable pub coherent_receipts : Option Digest → ℕ → List CommandReceipt → Bool
coherent_receipts assumptions last rs = every (
    leb (length rs) max_commands
    ∷ unique_commands rs
    ∷ arrivals_match rs last
    ∷ all (coherent_receipt assumptions) rs
    ∷ [])

unfoldable pub coherent_state : LiquidityState → Bool
coherent_state s = every (
    coherent_cursor s
    ∷ coherent_depth s.consumed_depth
    ∷ coherent_receipts s.assumptions_sha256 s.last_arrival_at_ms s.receipts
    ∷ ((is_empty s.receipts && is_empty s.consumed_depth) || is_some s.assumptions_sha256)
    ∷ [])
