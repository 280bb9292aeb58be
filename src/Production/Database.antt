-- ===== src/Production/Database.antt =====
-- The tables of production_state.py, production_accounting.py and production_claims.py, as lists of
-- rows in the order of insertion: no row is ever updated or deleted. Roles, privileges and the
-- advisory locks, which put the transactions of one account in a sequence, are not modelled.
pub mod Rows
use kairos_execution_engine.Common.{
  ℕ, ◌+◌, Bool, true, false, ◌&&◌, List, [], ◌∷◌, Option, none, some, leb, ◌==◌, if◌then◌else◌, max,
  min,
}
use kairos_execution_engine.Common.Int.{ℤ}
use kairos_execution_engine.Production.Records.{
  Text, Digest, Side, RiskGeometry, SignedManualArm, LiveOperatorState,
}

pub record RiskRow : Type 0 where
  pub context_sha256 : Digest
  pub signing_request_id : ℕ
  pub decision_id : ℕ
  pub observed_at : ℕ
  pub valid_until : ℕ
  pub payload : RiskGeometry
  pub payload_sha256 : Digest

pub record ArmRow : Type 0 where
  pub context_sha256 : Digest
  pub request_sha256 : Digest
  pub owner_identity : ℕ
  pub nonce : ℕ
  pub payload : SignedManualArm
  pub payload_sha256 : Digest

pub record OperatorRow : Type 0 where
  pub context_sha256 : Digest
  pub version : ℕ
  pub observed_at : ℕ
  pub payload : LiveOperatorState
  pub payload_sha256 : Digest

pub data ClaimKind : Type 0 where
  manual_nonce typed_signing wire_dispatch : ClaimKind

pub record ClaimRow : Type 0 where
  pub kind : ClaimKind
  pub namespace : ℕ
  pub identity : ℕ
  pub request_sha256 : Digest
  pub context_sha256 : Digest

pub record Reservation : Type 0 where
  pub context_sha256 : Digest
  pub account_sha256 : Digest
  pub effect_id : Digest
  pub signing_request_id : ℕ
  pub decision_id : ℕ
  pub owner_arm_sha256 : Digest
  pub observed_at : ℕ
  pub risk_usd : ℕ
  pub notional_usd : ℕ
  pub account_equity_usd : ℕ
  pub daily_realized_loss_usd : ℕ
  pub aggregate_open_risk_usd : ℕ
  pub aggregate_open_notional_usd : ℕ
  pub dollar_cap : ℕ
  pub daily_stop_loss_usd : ℕ
  pub evidence_sha256 : Digest
  pub request_sha256 : Digest

-- The facts that a terminal receipt projects into columns.
pub record Facts : Type 0 where
  pub database_uuid : ℕ
  pub context_sha256 : Digest
  pub account_sha256 : Digest
  pub trade_id : ℕ
  pub decision_id : ℕ
  pub effect_id : Digest
  pub signing_request_id : ℕ
  pub client_order_id : Text
  pub owner_arm_sha256 : Digest
  pub reservation_request_sha256 : Digest
  pub entry_side : Side
  pub entry_filled_quantity : ℕ
  pub closed_quantity : ℕ
  pub entry_notional_usd : ℕ
  pub exit_notional_usd : ℕ
  pub entry_fees_usd : ℕ
  pub exit_fees_usd : ℕ
  pub funding_cost_usd : ℤ
  pub funding_complete : Bool
  pub venue_complete : Bool
  pub venue_terminal : Bool
  pub collection_started_at : ℕ
  pub collection_finished_at : ℕ
  pub observed_at : ℕ
  pub settled_at : ℕ
  pub residual_position_quantity : ℕ
  pub residual_order_count : ℕ
  pub residual_protection_count : ℕ
  pub unowned_exposure_count : ℕ

-- A row of `terminal_receipts`: its columns, and the payload that they project.
pub record TerminalReceipt : Type 0 where
  pub receipt_id : ℕ
  pub columns : Facts
  pub payload : Facts
  pub payload_sha256 : Digest
  pub inserted_at : ℕ

-- A row of `accepted_releases`.
pub record Release : Type 0 where
  pub receipt_id : ℕ
  pub database_uuid : ℕ
  pub context_sha256 : Digest
  pub account_sha256 : Digest
  pub effect_id : Digest
  pub trade_id : ℕ
  pub owner_arm_sha256 : Digest
  pub reservation_request_sha256 : Digest
  pub settled_at : ℕ
  pub receipt_payload_sha256 : Digest
  pub gross_pnl_usd : ℤ
  pub fees_usd : ℕ
  pub funding_cost_usd : ℤ
  pub net_pnl_usd : ℤ
  pub loss_charge_usd : ℕ

pub record Database : Type 0 where
  pub database_uuid : ℕ
  pub account_sha256 : Digest
  pub risk_decisions : List RiskRow
  pub owner_arms : List ArmRow
  pub operator_observations : List OperatorRow
  pub claims : List ClaimRow
  pub reservations : List Reservation
  pub terminal_receipts : List TerminalReceipt
  pub releases : List Release

-- `SELECT ... WHERE ...` of at most one row.
abbrev pub find {ℓ} : {A : Type ℓ} → (A → Bool) → List A → Option A
find test [] = none
find test (x ∷ xs) = if test x then some x else find test xs

-- The rows that a test selects, and aggregates over them.
abbrev pub select {ℓ} : {A : Type ℓ} → (A → Bool) → List A → List A
select test [] = []
select test (x ∷ xs) = let rest = select test xs in if test x then x ∷ rest else rest

abbrev pub max_by {ℓ} : {A : Type ℓ} → (A → ℕ) → List A → Option ℕ
max_by f [] = none
max_by f (x ∷ xs) = elim (max_by f xs) [ none ↦ some (f x) | some m ↦ some (max (f x) m) ]

abbrev pub min_by {ℓ} : {A : Type ℓ} → (A → ℕ) → List A → Option ℕ
min_by f [] = none
min_by f (x ∷ xs) = elim (min_by f xs) [ none ↦ some (f x) | some m ↦ some (min (f x) m) ]

-- SQL's `coalesce(total, default)`.
abbrev pub coalesce : Option ℕ → ℕ → ℕ
coalesce none d = d
coalesce (some n) d = n

-- `ORDER BY observed_at DESC, inserted_at DESC LIMIT 1`, of rows in the order of insertion.
abbrev pub latest {ℓ} : {A : Type ℓ} → (A → ℕ) → List A → Option A
latest time [] = none
latest time (x ∷ xs) = elim (latest time xs) [
  | none ↦ some x
  | some y ↦ if leb (time x) (time y) then some y else some x
]

abbrev kind_index : ClaimKind → ℕ
kind_index manual_nonce = 0
kind_index typed_signing = 1
kind_index wire_dispatch = 2

abbrev pub same_kind : ClaimKind → ClaimKind → Bool
same_kind a b = kind_index a == kind_index b

-- The primary key of a claim.
abbrev pub is_claim : ClaimKind → ℕ → ℕ → ClaimRow → Bool
is_claim kind namespace identity c =
    same_kind kind c.kind && (c.namespace == namespace && c.identity == identity)
