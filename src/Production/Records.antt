-- ===== src/Production/Records.antt =====
-- The records of signing_authorization.py, production_readiness.py and managed_signer.py.
-- A dollar amount counts units of 10^-16 USD, and finer amounts are not represented; a time counts milliseconds. Identities, contexts and
-- digests are only compared, so they are numbers; the digest functions of hashlib are a parameter.
use kairos_execution_engine.Common.{ℕ, List, Option, Bool}

-- The code points of a text.
abbrev pub Text : Type 0
Text = List ℕ

abbrev pub Digest : Type 0
Digest = ℕ

-- Five and thirty seconds.
abbrev pub five_seconds : ℕ
five_seconds = 5000

abbrev pub thirty_seconds : ℕ
thirty_seconds = 30000

pub data Operation : Type 0 where
  new_limit_order new_market_order new_stop_limit_order : Operation
  position_close_order new_protection : Operation

pub data Side : Type 0 where
  buy sell other_side : Side

pub data ProtectionType : Type 0 where
  stop_loss take_profit other_type : ProtectionType

-- The fields of a typed message, each present or absent. Prices and quantities count 10^-8.
pub record Message : Type 0 where
  pub id : Option Text
  pub instrument : Option ℕ
  pub side : Option Side
  pub time_in_force_ioc : Option Bool
  pub leverage : Option ℕ
  pub quantity : Option ℕ
  pub cash_quantity : Option ℕ
  pub limit_price : Option ℕ
  pub stop_price : Option ℕ
  pub price : Option ℕ
  pub type : Option ProtectionType
  pub order : Option Text
  pub chain_id : Option ℕ

pub record ManagedSigningRequest : Type 0 where
  pub request_id : ℕ
  pub context : ℕ
  pub manual_request_sha256 : Digest
  pub custody_receipt_sha256 : Digest
  pub operation : Operation
  pub message : Message
  pub expires_at : ℕ

pub record CustodyBinding : Type 0 where
  pub context : ℕ
  pub chain_id : ℕ
  pub schema_sha256 : Digest
  pub approved_instruments : List ℕ
  pub custody_receipt_sha256 : Digest

pub record ManualArmRequest : Type 0 where
  pub context : ℕ
  pub preconditions_sha256 : Digest
  pub nonce : ℕ
  pub owner_identity : ℕ
  pub created_at : ℕ
  pub expires_at : ℕ
  pub dollar_cap : ℕ
  pub daily_stop_loss_usd : ℕ

pub record SignedManualArm : Type 0 where
  pub request : ManualArmRequest
  pub key_id : ℕ
  pub signature : ℕ

pub record AcceptedManualNonce : Type 0 where
  pub owner_identity : ℕ
  pub nonce : ℕ
  pub request_sha256 : Digest
  pub context_sha256 : Digest
  pub database_uuid : ℕ
  pub claimed_at : ℕ

pub data LatchState : Type 0 where
  armed disarmed killed : LatchState

pub record LiveOperatorState : Type 0 where
  pub context : ℕ
  pub version : ℕ
  pub state : LatchState
  pub arm_nonce : Option ℕ
  pub arm_request_sha256 : Option Digest
  pub observed_at : ℕ
  pub changed_at : ℕ
  pub expires_at : Option ℕ
  pub command_sha256 : Digest
  pub previous_command_sha256 : Digest

pub record RiskGeometry : Type 0 where
  pub context : ℕ
  pub decision_id : ℕ
  pub signing_request_id : ℕ
  pub effect_id : Digest
  pub client_order_id : Option Text
  pub operation : Operation
  pub instrument : ℕ
  pub side : Option Side
  pub quantity : ℕ
  pub cash_quantity : Option ℕ
  pub price : Option ℕ
  pub stop_price : Option ℕ
  pub protection_type : Option ProtectionType
  pub trigger_price : Option ℕ
  pub parent_order_id : Option Text
  pub leverage : ℕ
  pub worst_case_loss_usd : ℕ
  pub account_equity_usd : ℕ
  pub daily_realized_loss_usd : ℕ
  pub aggregate_open_risk_usd : ℕ
  pub aggregate_open_notional_usd : ℕ
  pub observed_at : ℕ
  pub valid_until : ℕ

pub record ExposureSnapshot : Type 0 where
  pub context : ℕ
  pub instrument : ℕ
  pub position_side : Side
  pub remaining_quantity : ℕ
  pub parent_order_id : Text
  pub observed_at : ℕ
  pub valid_until : ℕ

pub record SigningEvidence : Type 0 where
  pub owner_arm : SignedManualArm
  pub owner_nonce_claim : AcceptedManualNonce
  pub operator : Option LiveOperatorState
  pub risk : RiskGeometry
  pub exposure : Option ExposureSnapshot
  pub resolved_at : ℕ

pub record Preconditions : Type 0 where
  pub context : ℕ
  pub verified_at : ℕ
  pub valid_until : ℕ
  pub owner_identity : ℕ
  pub dollar_cap : ℕ
  pub daily_stop_loss_usd : ℕ

pub record OwnerArmKey : Type 0 where
  pub owner_identity : ℕ
  pub key_id : ℕ
  pub context : ℕ
  pub valid_from : ℕ
  pub valid_until : ℕ

-- SHA-256 of the canonical JSON of each record, and the Ed25519 test of a signature by a key.
pub record Hashes : Type 0 where
  pub context : ℕ → Digest
  pub account : ℕ → Digest
  pub arm : ManualArmRequest → Digest
  pub signed_arm : SignedManualArm → Digest
  pub preconditions : Preconditions → Digest
  pub owner_key : OwnerArmKey → Digest
  pub operator : LiveOperatorState → Digest
  pub risk : RiskGeometry → Digest
  pub reviewed_schema : ℕ → Digest
  pub signing_effect : ManagedSigningRequest → ℕ → Digest
  pub reservation : ManagedSigningRequest → CustodyBinding → Digest → Digest → Digest
  pub signed_by : OwnerArmKey → SignedManualArm → Bool
