-- ===== src/Production/Guard.antt =====
-- production_state.py: the trigger `enforce_risk_reservation`, and the constraints of its table.
use kairos_execution_engine.Common.{
  ℕ, ◌-◌, ◌*◌, ◌^◌, Bool, not, ◌&&◌, List, [], ◌∷◌, ◌++◌, none, some, leb, ltb, ◌==◌, every,
  is_some, Result, ok, err, checked, if◌then◌else◌,
}
use kairos_execution_engine.Production.Records.{five_seconds, RiskGeometry, ManualArmRequest}
use kairos_execution_engine.Production.Database.{RiskRow, ArmRow, Reservation, Database, find}
use kairos_execution_engine.Production.Limits.{
  SchemaVersion, reservation_totals, guard_limits, is_admitted,
}

pub data DatabaseError : Type 0 where
  wrong_account differs_from_decision no_entry_price invalid_lease no_owner_arm : DatabaseError
  owner_limits_changed exceeds_cap check_constraint duplicate_effect : DatabaseError
  duplicate_request no_decision : DatabaseError

abbrev pub is_decision : ℕ → ℕ → RiskRow → Bool
is_decision context request d = d.context_sha256 == context && d.signing_request_id == request

abbrev pub is_arm : ℕ → ℕ → ArmRow → Bool
is_arm context request a = a.context_sha256 == context && a.request_sha256 == request

abbrev pub is_effect : ℕ → ℕ → Reservation → Bool
is_effect account effect r = r.account_sha256 == account && r.effect_id == effect

abbrev pub is_request : ℕ → ℕ → Reservation → Bool
is_request account request r = r.account_sha256 == account && r.signing_request_id == request

-- The first IF on the decision row, denied.
unfoldable pub matches_decision : RiskRow → Reservation → Bool
matches_decision d new = every (
    (d.decision_id == new.decision_id)
    ∷ (d.observed_at == new.observed_at)
    ∷ (d.payload_sha256 == new.evidence_sha256)
    ∷ (d.payload.effect_id == new.effect_id)
    ∷ (d.payload.worst_case_loss_usd == new.risk_usd)
    ∷ (d.payload.account_equity_usd == new.account_equity_usd)
    ∷ (d.payload.daily_realized_loss_usd == new.daily_realized_loss_usd)
    ∷ (d.payload.aggregate_open_risk_usd == new.aggregate_open_risk_usd)
    ∷ (d.payload.aggregate_open_notional_usd == new.aggregate_open_notional_usd)
    ∷ (d.payload.leverage == 1)
    ∷ [])

-- `expected_notional`. The division of `numeric` is exact where the quotient needs no more decimals
-- than the scale that PostgreSQL gives it.
unfoldable pub expected_notional : RiskGeometry → Result DatabaseError ℕ
expected_notional k = elim k.cash_quantity [
  | some amount ↦ ok (amount * 10 ^ 8)
  | none ↦ elim k.price [ none ↦ err no_entry_price | some price ↦ ok (k.quantity * price) ]
]

unfoldable pub matches_lease : RiskRow → Reservation → ℕ → ℕ → Bool
matches_lease d new expected now_at =
    expected == new.notional_usd
    && (ltb now_at d.valid_until
        && (ltb d.observed_at now_at && leb (now_at - d.observed_at) five_seconds))

unfoldable pub matches_arm : ManualArmRequest → Reservation → ℕ → Bool
matches_arm a new now_at =
    a.dollar_cap == new.dollar_cap
    && (a.daily_stop_loss_usd == new.daily_stop_loss_usd && ltb now_at a.expires_at)

-- The trigger's checks after its two rows are found.
unfoldable pub guard_checks :
    SchemaVersion → Database → ArmRow → Reservation → ℕ → List (Bool × DatabaseError)
guard_checks v db a new now_at =
    let prior = reservation_totals v db.releases db.reservations new.account_sha256 in
    (matches_arm a.payload.request new now_at, owner_limits_changed)
    ∷ (is_admitted prior (guard_limits v prior new) new, exceeds_cap)
    ∷ []

-- The trigger from the owner's arm on.
unfoldable pub guard_arm :
    SchemaVersion → Database → Reservation → ℕ → Result DatabaseError (Unit {0})
guard_arm v db new now_at =
    elim (find (is_arm new.context_sha256 new.owner_arm_sha256) db.owner_arms) [
      | none ↦ err no_owner_arm
      | some a ↦ checked (guard_checks v db a new now_at) tt
    ]

-- A missing row is NULL, which every comparison refuses. A decision's payload is approved by its type.
unfoldable pub enforce_risk_reservation :
    SchemaVersion → Database → Reservation → ℕ → Result DatabaseError (Unit {0})
enforce_risk_reservation v db new now_at =
    if not (db.account_sha256 == new.account_sha256)
    then err wrong_account
    else elim (find (is_decision new.context_sha256 new.signing_request_id) db.risk_decisions) [
      | none ↦ err differs_from_decision
      | some d ↦
          if not (matches_decision d new)
          then err differs_from_decision
          else elim (expected_notional d.payload) [
            | err raised ↦ err raised
            | ok expected ↦
                if not (matches_lease d new expected now_at)
                then err invalid_lease
                else guard_arm v db new now_at
          ]
    ]

-- The CHECK constraints of `risk_reservations` on amounts.
unfoldable pub is_positive_row : Reservation → Bool
is_positive_row r =
    ltb 0 r.risk_usd
    && (ltb 0 r.notional_usd
        && (ltb 0 r.account_equity_usd && (ltb 0 r.dollar_cap && ltb 0 r.daily_stop_loss_usd)))

unfoldable pub table_checks : Database → Reservation → List (Bool × DatabaseError)
table_checks db new =
    (is_positive_row new, check_constraint)
    ∷ (
      not (is_some (find (is_effect new.account_sha256 new.effect_id) db.reservations)),
      duplicate_effect,
    )
    ∷ (
      not (is_some (find (is_request new.account_sha256 new.signing_request_id) db.reservations)),
      duplicate_request,
    )
    ∷ []

-- `INSERT INTO risk_reservations`: the trigger, and then the constraints.
unfoldable pub insert_reservation :
    SchemaVersion → Database → Reservation → ℕ → Result DatabaseError Database
insert_reservation v db new now_at = elim (enforce_risk_reservation v db new now_at) [
  | err raised ↦ err raised
  | ok _ ↦ checked (table_checks db new) (record db { reservations = db.reservations ++ new ∷ [] })
]
