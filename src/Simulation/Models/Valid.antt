-- ===== src/Simulation/Models/Valid.antt =====
-- The field bounds and validators of kairos_execution/simulation/models.py, as Boolean tests:
-- `false` where pydantic raises. A bound that another test on the same record implies is left out
-- (a received time between two others, `max_digits=38` below 10^36), as are the patterns of
-- identifiers and digests, which are numbers here.
use kairos_execution_engine.Common.{
  ℕ, ◌*◌, ◌^◌, Bool, true, false, not, ◌&&◌, ◌||◌, List, [], ◌∷◌, ltb, leb, all, length, every,
}
use kairos_execution_engine.Simulation.Models.{
  one, all_bps, max_timestamp, BookLevel, AcceptedBookFrame, Continuity, admitted, IocCommand,
  FillAssumptions,
}

-- `le=Decimal("1e18")` in units of 10^-18.
abbrev pub max_amount : ℕ
max_amount = 10 ^ 36

-- `le=Decimal("1e40")`, in units of 10^-18, of 10^-36, of 10^-58 and of halves of 10^-36.
abbrev pub max_price : ℕ
max_price = 10 ^ 58

abbrev pub max_notional : ℕ
max_notional = 10 ^ 76

abbrev pub max_fee : ℕ
max_fee = 10 ^ 98

abbrev pub max_shortfall : ℕ
max_shortfall = 2 * 10 ^ 76

-- `PositiveAmount`.
abbrev pub is_positive_amount : ℕ → Bool
is_positive_amount n = ltb 0 n && leb n max_amount

abbrev pub is_valid_level : BookLevel → Bool
is_valid_level l = is_positive_amount l.price && is_positive_amount l.quantity

-- `prices == sorted(set(prices))`, and the same reversed: strictly monotone.
abbrev pub ascending_from : ℕ → List BookLevel → Bool
ascending_from p [] = true
ascending_from p (l ∷ ls) = ltb p l.price && ascending_from l.price ls

abbrev pub descending_from : ℕ → List BookLevel → Bool
descending_from p [] = true
descending_from p (l ∷ ls) = ltb l.price p && descending_from l.price ls

abbrev pub is_ascending : List BookLevel → Bool
is_ascending [] = true
is_ascending (l ∷ ls) = ascending_from l.price ls

abbrev pub is_descending : List BookLevel → Bool
is_descending [] = true
is_descending (l ∷ ls) = descending_from l.price ls

abbrev pub is_empty {ℓ} : {A : Type ℓ} → List A → Bool
is_empty [] = true
is_empty (_ ∷ _) = false

abbrev pub is_admitted : Continuity → Bool
is_admitted admitted = true
is_admitted _ = false

-- `not (bids and asks and bids[0].price >= asks[0].price)`.
abbrev pub is_uncrossed : List BookLevel → List BookLevel → Bool
is_uncrossed (b ∷ _) (a ∷ _) = ltb b.price a.price
is_uncrossed _ _ = true

abbrev pub frame_checks : AcceptedBookFrame → List Bool
frame_checks f =
    ltb 0 f.sequence
    ∷ ltb 0 f.exchange_update_id
    ∷ leb f.persisted_at_ms max_timestamp
    ∷ all is_valid_level f.bids
    ∷ all is_valid_level f.asks
    ∷ leb (length f.bids) 100
    ∷ leb (length f.asks) 100
    ∷ leb f.exchange_at_ms f.received_at_ms
    ∷ leb f.received_at_ms f.persisted_at_ms
    ∷ (not (is_admitted f.continuity && (is_empty f.bids || is_empty f.asks)))
    ∷ is_descending f.bids
    ∷ is_ascending f.asks
    ∷ is_uncrossed f.bids f.asks
    ∷ []

unfoldable pub coherent_frame : AcceptedBookFrame → Bool
coherent_frame f = every (frame_checks f)

abbrev pub command_checks : IocCommand → List Bool
command_checks c =
    is_positive_amount c.quantity
    ∷ is_positive_amount c.price_cap
    ∷ leb c.persisted_at_ms max_timestamp
    ∷ leb c.expires_at_ms max_timestamp
    ∷ leb c.submitted_at_ms c.persisted_at_ms
    ∷ leb c.eligible_at_ms c.expires_at_ms
    ∷ []

unfoldable pub coherent_command : IocCommand → Bool
coherent_command c = every (command_checks c)

abbrev pub assumptions_checks : FillAssumptions → List Bool
assumptions_checks a =
    leb a.latency_ms 60000
    ∷ ltb 0 a.maximum_book_age_ms
    ∷ leb a.maximum_book_age_ms 60000
    ∷ ltb 0 a.maximum_frame_latency_ms
    ∷ leb a.maximum_frame_latency_ms 60000
    ∷ ltb 0 a.depth_participation_fraction
    ∷ leb a.depth_participation_fraction one
    ∷ is_positive_amount a.price_tick
    ∷ is_positive_amount a.quantity_step
    ∷ ltb a.adverse_slippage_bps all_bps
    ∷ leb a.taker_fee_bps all_bps
    ∷ []

unfoldable pub coherent_assumptions : FillAssumptions → Bool
coherent_assumptions a = every (assumptions_checks a)
