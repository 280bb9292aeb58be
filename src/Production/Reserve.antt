-- ===== src/Production/Reserve.antt =====
-- production_state.py: `reserve_entry_async`, one transaction on the account's database.
pub mod Again
pub mod Capital
pub mod Daily
pub mod Effects
pub mod Outcomes
use kairos_execution_engine.Common.{
  ℕ, ◌+◌, ◌-◌, Bool, true, false, not, ◌&&◌, List, [], ◌∷◌, Option, none, some, leb, ltb, ◌==◌,
  if◌then◌else◌, every, is_some, Result, ok, err, checked,
}
use kairos_execution_engine.Production.Records.{
  Digest, thirty_seconds, Message, ManagedSigningRequest, CustodyBinding, ManualArmRequest,
  LiveOperatorState, RiskGeometry, SigningEvidence, Hashes,
}
use kairos_execution_engine.Production.Messages.{typed_message, entry_notional_usd, is_exit}
use kairos_execution_engine.Production.Authorization.{same_option, same_command, is_armed}
use kairos_execution_engine.Production.Database.{
  RiskRow, ArmRow, OperatorRow, ClaimRow, manual_nonce, Reservation, Release, Database, find,
  latest, select, is_claim,
}
use kairos_execution_engine.Production.Limits.{
  SchemaVersion, reservation_totals, current_limits, is_within,
}
use kairos_execution_engine.Production.Guard.{
  is_decision, is_effect, is_request, insert_reservation,
}
use kairos_execution_engine.Production.Lineage.{
  no_exact_notional, loss_not_positive, no_operator_state, operator_changed, effect_rebound,
  request_reused, exceeds_current_cap, append_rejected, Source, StateError, evidence_checks,
  is_current_command, latest_operator, lineage_checks,
}

-- The row that the INSERT writes.
unfoldable pub new_reservation :
    Hashes → Source → ManagedSigningRequest → CustodyBinding → SigningEvidence → ℕ → Reservation
new_reservation h c r b e notional = record {
  context_sha256 = h.context c.context;
  account_sha256 = h.account c.context;
  effect_id = e.risk.effect_id;
  signing_request_id = r.request_id;
  decision_id = e.risk.decision_id;
  owner_arm_sha256 = h.arm e.owner_arm.request;
  observed_at = e.risk.observed_at;
  risk_usd = e.risk.worst_case_loss_usd;
  notional_usd = notional;
  account_equity_usd = e.risk.account_equity_usd;
  daily_realized_loss_usd = e.risk.daily_realized_loss_usd;
  aggregate_open_risk_usd = e.risk.aggregate_open_risk_usd;
  aggregate_open_notional_usd = e.risk.aggregate_open_notional_usd;
  dollar_cap = e.owner_arm.request.dollar_cap;
  daily_stop_loss_usd = e.owner_arm.request.daily_stop_loss_usd;
  evidence_sha256 = h.risk e.risk;
  request_sha256 = h.reservation r b (h.risk e.risk) (h.arm e.owner_arm.request);
}

-- The comparison with an existing row of the effect.
unfoldable pub is_same_reservation : Reservation → Reservation → Bool
is_same_reservation p q = every (
    (p.context_sha256 == q.context_sha256)
    ∷ (p.owner_arm_sha256 == q.owner_arm_sha256)
    ∷ (p.account_sha256 == q.account_sha256)
    ∷ (p.signing_request_id == q.signing_request_id)
    ∷ (p.decision_id == q.decision_id)
    ∷ (p.risk_usd == q.risk_usd)
    ∷ (p.notional_usd == q.notional_usd)
    ∷ (p.account_equity_usd == q.account_equity_usd)
    ∷ (p.daily_realized_loss_usd == q.daily_realized_loss_usd)
    ∷ (p.aggregate_open_risk_usd == q.aggregate_open_risk_usd)
    ∷ (p.aggregate_open_notional_usd == q.aggregate_open_notional_usd)
    ∷ (p.dollar_cap == q.dollar_cap)
    ∷ (p.daily_stop_loss_usd == q.daily_stop_loss_usd)
    ∷ (p.evidence_sha256 == q.evidence_sha256)
    ∷ (p.request_sha256 == q.request_sha256)
    ∷ [])

-- The transaction from the totals on.
unfoldable pub append_reservation :
    Source → Database → RiskGeometry → Reservation → ℕ → Result StateError Database
append_reservation c db k new now_at =
    let v = c.schema_version in
    let totals = reservation_totals v db.releases db.reservations new.account_sha256 in
    if k.leverage == 1 && is_within totals (current_limits v totals new) new
    then elim (insert_reservation v db new now_at) [
      | err _ ↦ err append_rejected
      | ok next ↦ ok next
    ]
    else err exceeds_current_cap

-- An effect that is reserved is left as it is, or is refused; a request reserves one effect.
unfoldable pub reserve_row :
    Source → Database → RiskGeometry → Reservation → ℕ → Result StateError Database
reserve_row c db k new now_at =
    elim (find (is_effect new.account_sha256 new.effect_id) db.reservations) [
      | some existing ↦ if is_same_reservation existing new then ok db else err effect_rebound
      | none ↦
          if is_some (find (is_request new.account_sha256 new.signing_request_id) db.reservations)
          then err request_reused
          else append_reservation c db k new now_at
    ]

-- `reserve`, with the clock as it reads it and as the trigger does.
unfoldable pub reserve :
    Hashes
    → Source
    → Database
    → ManagedSigningRequest
    → CustodyBinding
    → SigningEvidence
    → ℕ
    → ℕ
    → ℕ
    → Result StateError Database
reserve h c db r b e notional db_now now_at =
    elim (checked (evidence_checks h c db r e db_now) tt) [
      | err raised ↦ err raised
      | ok _ ↦ elim (latest_operator (h.context c.context) db) [
        | none ↦ err no_operator_state
        | some o ↦
            if is_current_command h e o db_now
            then reserve_row c db e.risk (new_reservation h c r b e notional) now_at
            else err operator_changed
      ]
    ]

unfoldable pub reserve_entry :
    Hashes
    → Source
    → Database
    → ManagedSigningRequest
    → CustodyBinding
    → SigningEvidence
    → ℕ
    → ℕ
    → Result StateError Database
reserve_entry h c db r b e db_now now_at =
    if is_exit r.operation then ok db else elim (checked (lineage_checks h c r b e) tt) [
      | err raised ↦ err raised
      | ok _ ↦ elim (typed_message r b) [
        | err _ ↦ err no_exact_notional
        | ok m ↦ elim (entry_notional_usd m) [
          | err _ ↦ err no_exact_notional
          | ok notional ↦
              if ltb 0 e.risk.worst_case_loss_usd
              then reserve h c db r b e notional db_now now_at
              else err loss_not_positive
        ]
      ]
    ]
