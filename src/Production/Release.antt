-- ===== src/Production/Release.antt =====
-- production_accounting.py: the trigger `enforce_release`, the constraints of `accepted_releases`,
-- and `accept_terminal_receipt`, one transaction.
pub mod Accept
pub mod Insert
pub mod Amounts
use kairos_execution_engine.Common.{
  ℕ, ◌+◌, ◌-◌, Bool, true, false, not, ◌&&◌, List, [], ◌∷◌, ◌++◌, Option, none, some, leb, ltb,
  ◌==◌, every, if◌then◌else◌, is_some, Result, ok, err, checked,
}
use kairos_execution_engine.Common.Int.{ℤ, pos, sub_ℕ, ◌-ℤ◌, pos_part, neg_part, same_ℤ}
use kairos_execution_engine.Production.Records.{Digest, buy}
use kairos_execution_engine.Production.Authorization.{same_text, same_side, same_option}
use kairos_execution_engine.Production.Database.{
  RiskRow, Reservation, Facts, TerminalReceipt, Release, Database, find,
}
use kairos_execution_engine.Production.Guard.{is_decision, is_effect}
use kairos_execution_engine.Production.Accounting.{
  AccountingError, identity_rebound, scope_mismatch, unresolved_outcome, no_receipt,
  max_evidence_age, Economics, same_facts, verify_terminal_receipt, terminal_economics,
}

pub data ReleaseError : Type 0 where
  absent_lineage payload_conflict wrong_identity wrong_gross release_check duplicate_release :
      ReleaseError

abbrev pub is_receipt : ℕ → TerminalReceipt → Bool
is_receipt id t = t.receipt_id == id

abbrev pub is_release : ℕ → Release → Bool
is_release id a = a.receipt_id == id

-- The long IF of the trigger, denied.
unfoldable pub matches_lineage :
    Database → TerminalReceipt → Reservation → RiskRow → Release → ℕ → Bool
matches_lineage db t r d new now_at =
    let f = t.columns in
    every (
      (db.database_uuid == new.database_uuid)
      ∷ (db.account_sha256 == new.account_sha256)
      ∷ (f.database_uuid == new.database_uuid)
      ∷ (f.context_sha256 == new.context_sha256)
      ∷ (r.context_sha256 == new.context_sha256)
      ∷ (f.account_sha256 == new.account_sha256)
      ∷ (f.effect_id == new.effect_id)
      ∷ (f.trade_id == new.trade_id)
      ∷ (t.payload_sha256 == new.receipt_payload_sha256)
      ∷ (f.owner_arm_sha256 == new.owner_arm_sha256)
      ∷ (r.owner_arm_sha256 == new.owner_arm_sha256)
      ∷ (f.reservation_request_sha256 == new.reservation_request_sha256)
      ∷ (r.request_sha256 == new.reservation_request_sha256)
      ∷ (f.signing_request_id == r.signing_request_id)
      ∷ (f.decision_id == r.decision_id)
      ∷ same_option same_side d.payload.side (some f.entry_side)
      ∷ same_option same_text d.payload.client_order_id (some f.client_order_id)
      ∷ (d.payload_sha256 == r.evidence_sha256)
      ∷ (f.venue_complete && (f.venue_terminal && f.funding_complete))
      ∷ (f.unowned_exposure_count == 0)
      ∷ (f.residual_position_quantity == 0)
      ∷ (f.residual_order_count == 0)
      ∷ (f.residual_protection_count == 0)
      ∷ (ltb 0 f.entry_filled_quantity && f.entry_filled_quantity == f.closed_quantity)
      ∷ (leb f.collection_finished_at f.observed_at
          && leb f.collection_started_at f.collection_finished_at)
      ∷ (leb f.settled_at f.collection_finished_at && leb r.observed_at f.settled_at)
      ∷ (leb f.observed_at t.inserted_at && leb t.inserted_at now_at)
      ∷ leb (t.inserted_at - f.observed_at) max_evidence_age
      ∷ (new.settled_at == f.settled_at)
      ∷ same_ℤ new.funding_cost_usd f.funding_cost_usd
      ∷ (new.fees_usd == f.entry_fees_usd + f.exit_fees_usd)
      ∷ [])

-- The gross of the trigger.
abbrev pub guard_gross : Facts → ℤ
guard_gross f =
    if same_side f.entry_side buy
    then sub_ℕ f.exit_notional_usd f.entry_notional_usd
    else sub_ℕ f.entry_notional_usd f.exit_notional_usd

unfoldable pub release_checks :
    Database → TerminalReceipt → Reservation → Release → ℕ → List (Bool × ReleaseError)
release_checks db t r new now_at =
    (same_facts t.payload t.columns, payload_conflict)
    ∷ (
      elim (find (is_decision r.context_sha256 r.signing_request_id) db.risk_decisions) [
        | none ↦ false
        | some d ↦ matches_lineage db t r d new now_at
      ],
      wrong_identity,
    )
    ∷ (same_ℤ new.gross_pnl_usd (guard_gross t.columns), wrong_gross)
    ∷ []

unfoldable pub enforce_release : Database → Release → ℕ → Result ReleaseError (Unit {0})
enforce_release db new now_at = elim (find (is_receipt new.receipt_id) db.terminal_receipts) [
  | none ↦ err absent_lineage
  | some t ↦ elim (find (is_effect new.account_sha256 new.effect_id) db.reservations) [
    | none ↦ err absent_lineage
    | some r ↦ checked (release_checks db t r new now_at) tt
  ]
]

abbrev pub is_released : Digest → Digest → Release → Bool
is_released account effect a = a.account_sha256 == account && a.effect_id == effect

abbrev is_trade : Digest → ℕ → Release → Bool
is_trade account trade a = a.account_sha256 == account && a.trade_id == trade

-- The two CHECK constraints on the amounts, and the three keys.
unfoldable pub release_constraints : Database → Release → List (Bool × ReleaseError)
release_constraints db new =
    (
      same_ℤ new.net_pnl_usd (new.gross_pnl_usd -ℤ pos new.fees_usd -ℤ new.funding_cost_usd)
          && new.loss_charge_usd
            == neg_part new.gross_pnl_usd + new.fees_usd + pos_part new.funding_cost_usd,
      release_check,
    )
    ∷ (not (is_some (find (is_release new.receipt_id) db.releases)), duplicate_release)
    ∷ (
      not (is_some (find (is_released new.account_sha256 new.effect_id) db.releases)),
      duplicate_release,
    )
    ∷ (
      not (is_some (find (is_trade new.account_sha256 new.trade_id) db.releases)),
      duplicate_release,
    )
    ∷ []

unfoldable pub insert_release : Database → Release → ℕ → Result ReleaseError Database
insert_release db new now_at = elim (enforce_release db new now_at) [
  | err raised ↦ err raised
  | ok _ ↦ checked (release_constraints db new) (record db { releases = db.releases ++ new ∷ [] })
]

-- The scope of a `PostgresProductionAccounting`.
pub record Acceptor : Type 0 where
  pub database_uuid : ℕ
  pub context_sha256 : Digest
  pub account_sha256 : Digest

-- The row that the INSERT writes.
unfoldable pub new_release : Acceptor → ℕ → Digest → TerminalReceipt → Economics → Release
new_release a id payload_sha256 t e = record {
  receipt_id = id;
  database_uuid = a.database_uuid;
  context_sha256 = t.columns.context_sha256;
  account_sha256 = t.columns.account_sha256;
  effect_id = t.columns.effect_id;
  trade_id = t.columns.trade_id;
  owner_arm_sha256 = t.columns.owner_arm_sha256;
  reservation_request_sha256 = t.columns.reservation_request_sha256;
  settled_at = t.columns.settled_at;
  receipt_payload_sha256 = payload_sha256;
  gross_pnl_usd = e.gross_pnl_usd;
  fees_usd = e.fees_usd;
  funding_cost_usd = e.funding_cost_usd;
  net_pnl_usd = e.net_pnl_usd;
  loss_charge_usd = e.loss_charge_usd;
}

unfoldable pub in_scope : Acceptor → Digest → TerminalReceipt → Bool
in_scope a payload_sha256 t = every (
    (t.payload_sha256 == payload_sha256)
    ∷ (t.columns.database_uuid == a.database_uuid)
    ∷ (t.columns.context_sha256 == a.context_sha256)
    ∷ (t.columns.account_sha256 == a.account_sha256)
    ∷ [])

-- The transaction from the insertion on; the database's refusal leaves the outcome unresolved.
unfoldable pub release_row :
    Acceptor
    → Database
    → ℕ
    → Digest
    → TerminalReceipt
    → Facts
    → ℕ
    → Result AccountingError (Bool × Database)
release_row a db id payload_sha256 t payload now_at = elim (terminal_economics payload) [
  | err raised ↦ err raised
  | ok e ↦ elim (insert_release db (new_release a id payload_sha256 t e) now_at) [
    | err _ ↦ err unresolved_outcome
    | ok next ↦ ok (true, next)
  ]
]

unfoldable pub release_receipt :
    (Facts → Digest)
    → Acceptor
    → Database
    → ℕ
    → Digest
    → TerminalReceipt
    → ℕ
    → ℕ
    → Result AccountingError (Bool × Database)
release_receipt sha256 a db id payload_sha256 t now now_at =
    elim (verify_terminal_receipt sha256 (some t) now) [
      | err raised ↦ err raised
      | ok payload ↦
          if in_scope a payload_sha256 t
          then release_row a db id payload_sha256 t payload now_at
          else err scope_mismatch
    ]

-- Whether the release is new, and the database.
unfoldable pub accept_terminal_receipt :
    (Facts → Digest)
    → Acceptor
    → Database
    → ℕ
    → Digest
    → ℕ
    → ℕ
    → Result AccountingError (Bool × Database)
accept_terminal_receipt sha256 a db id payload_sha256 now now_at =
    elim (find (is_release id) db.releases) [
      | some existing ↦
          if existing.receipt_payload_sha256 == payload_sha256
            && existing.context_sha256 == a.context_sha256
          then ok (false, db)
          else err identity_rebound
      | none ↦ elim (find (is_receipt id) db.terminal_receipts) [
        | none ↦ err no_receipt
        | some t ↦ release_receipt sha256 a db id payload_sha256 t now now_at
      ]
    ]
