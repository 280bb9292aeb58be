-- ===== src/Production/Accounting.antt =====
-- production_accounting.py: the economics of a terminal receipt, its verification, and the release
-- of the capital that it accounts for. The inspection of identities and privileges passes; timestamps
-- are UTC and decimals are finite by their types.
-- The sums of the economics are exact, as they are in the default context of `decimal` while they fit
-- in its 28 digits.
pub mod Conservative
use kairos_execution_engine.Common.{
  ℕ, ◌+◌, ◌-◌, Bool, true, false, not, ◌&&◌, List, [], ◌∷◌, ◌++◌, Option, none, some, leb, ltb,
  ◌==◌, every, if◌then◌else◌, is_some, Result, ok, err, checked,
}
use kairos_execution_engine.Common.Int.{ℤ, pos, sub_ℕ, neg_ℤ, ◌-ℤ◌, pos_part, neg_part, same_ℤ}
use kairos_execution_engine.Production.Records.{Digest, Side, buy, sell, other_side, Hashes}
use kairos_execution_engine.Production.Messages.{is_side, same_bool}
use kairos_execution_engine.Production.Authorization.{same_text, same_side, same_option}
use kairos_execution_engine.Production.Database.{
  RiskRow, Reservation, Facts, TerminalReceipt, Release, Database, find,
}
use kairos_execution_engine.Production.Guard.{is_decision, is_effect}

pub data AccountingError : Type 0 where
  incomplete_side no_gross_fills no_receipt payload_mismatch column_conflict : AccountingError
  nonterminal_receipt residual_exposure not_fully_closed stale_receipt : AccountingError
  identity_rebound scope_mismatch unresolved_outcome : AccountingError

-- Two minutes.
abbrev pub max_evidence_age : ℕ
max_evidence_age = 120000

pub record Economics : Type 0 where
  pub gross_pnl_usd : ℤ
  pub fees_usd : ℕ
  pub funding_cost_usd : ℤ
  pub net_pnl_usd : ℤ
  pub loss_charge_usd : ℕ

abbrev pub gross_pnl : Facts → ℤ
gross_pnl f =
    let gross = sub_ℕ f.exit_notional_usd f.entry_notional_usd in
    if same_side f.entry_side sell then neg_ℤ gross else gross

unfoldable pub economics_of : Facts → Economics
economics_of f =
    let fees = f.entry_fees_usd + f.exit_fees_usd in
    record {
      gross_pnl_usd = gross_pnl f;
      fees_usd = fees;
      funding_cost_usd = f.funding_cost_usd;
      net_pnl_usd = gross_pnl f -ℤ pos fees -ℤ f.funding_cost_usd;
      loss_charge_usd = neg_part (gross_pnl f) + fees + pos_part f.funding_cost_usd;
    }

unfoldable pub economics_checks : Facts → List (Bool × AccountingError)
economics_checks f =
    (is_side f.entry_side && f.funding_complete, incomplete_side)
    ∷ (ltb 0 f.entry_notional_usd && ltb 0 f.exit_notional_usd, no_gross_fills)
    ∷ []

unfoldable pub terminal_economics : Facts → Result AccountingError Economics
terminal_economics f = checked (economics_checks f) (economics_of f)

-- Each projected column against the payload.
unfoldable pub same_facts : Facts → Facts → Bool
same_facts f g = every (
    (f.database_uuid == g.database_uuid)
    ∷ (f.context_sha256 == g.context_sha256)
    ∷ (f.account_sha256 == g.account_sha256)
    ∷ (f.trade_id == g.trade_id)
    ∷ (f.decision_id == g.decision_id)
    ∷ (f.effect_id == g.effect_id)
    ∷ (f.signing_request_id == g.signing_request_id)
    ∷ same_text f.client_order_id g.client_order_id
    ∷ (f.owner_arm_sha256 == g.owner_arm_sha256)
    ∷ (f.reservation_request_sha256 == g.reservation_request_sha256)
    ∷ same_side f.entry_side g.entry_side
    ∷ (f.entry_filled_quantity == g.entry_filled_quantity)
    ∷ (f.closed_quantity == g.closed_quantity)
    ∷ (f.entry_notional_usd == g.entry_notional_usd)
    ∷ (f.exit_notional_usd == g.exit_notional_usd)
    ∷ (f.entry_fees_usd == g.entry_fees_usd)
    ∷ (f.exit_fees_usd == g.exit_fees_usd)
    ∷ same_ℤ f.funding_cost_usd g.funding_cost_usd
    ∷ same_bool f.funding_complete g.funding_complete
    ∷ same_bool f.venue_complete g.venue_complete
    ∷ same_bool f.venue_terminal g.venue_terminal
    ∷ (f.collection_started_at == g.collection_started_at)
    ∷ (f.collection_finished_at == g.collection_finished_at)
    ∷ (f.observed_at == g.observed_at)
    ∷ (f.settled_at == g.settled_at)
    ∷ (f.residual_position_quantity == g.residual_position_quantity)
    ∷ (f.residual_order_count == g.residual_order_count)
    ∷ (f.residual_protection_count == g.residual_protection_count)
    ∷ (f.unowned_exposure_count == g.unowned_exposure_count)
    ∷ [])

unfoldable pub is_settled : Facts → ℕ → ℕ → Bool
is_settled f inserted now = every (
    leb f.settled_at f.collection_finished_at
    ∷ leb f.collection_finished_at f.observed_at
    ∷ leb f.observed_at inserted
    ∷ leb inserted now
    ∷ leb f.collection_started_at f.collection_finished_at
    ∷ leb (inserted - f.observed_at) max_evidence_age
    ∷ [])

-- The digest of a payload is `_canonical_sha256`, a parameter.
unfoldable pub receipt_checks :
    (Facts → Digest) → TerminalReceipt → ℕ → List (Bool × AccountingError)
receipt_checks sha256 t now =
    let f = t.payload in
    (sha256 f == t.payload_sha256, payload_mismatch)
    ∷ (same_facts t.columns f, column_conflict)
    ∷ (f.venue_complete && (f.venue_terminal && f.funding_complete), nonterminal_receipt)
    ∷ (
      every (
          (f.residual_position_quantity == 0)
          ∷ (f.residual_order_count == 0)
          ∷ (f.residual_protection_count == 0)
          ∷ (f.unowned_exposure_count == 0)
          ∷ []),
      residual_exposure,
    )
    ∷ (
      ltb 0 f.entry_filled_quantity && f.entry_filled_quantity == f.closed_quantity,
      not_fully_closed,
    )
    ∷ (is_settled f t.inserted_at now, stale_receipt)
    ∷ []

unfoldable pub verify_terminal_receipt :
    (Facts → Digest) → Option TerminalReceipt → ℕ → Result AccountingError Facts
verify_terminal_receipt sha256 row now = elim row [
  | none ↦ err no_receipt
  | some t ↦ elim (checked (receipt_checks sha256 t now) tt) [
    | err raised ↦ err raised
    | ok _ ↦ elim (terminal_economics t.payload) [ err raised ↦ err raised | ok _ ↦ ok t.payload ]
  ]
]
