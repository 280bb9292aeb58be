-- ===== src/Simulation/Models.antt =====
-- The immutable records of kairos_execution/simulation/models.py, field by field. Fields of a
-- `Literal` type with one value carry no information and are left out.
--
-- A `Decimal` is a natural number of its smallest unit, and the model's arithmetic is exact:
--   prices, quantities, ticks, steps, fractions and basis points: 10^-18 (`decimal_places=18`)
--   a notional (quantity * price): 10^-36; a fee (quantity * price * bps / 10^4): 10^-58
--   a mid price (bid + ask) / 2: halves of 10^-18; a shortfall: halves of 10^-36
-- The source computes in 96 digits. Every sum and product here has at most 95 digits, so nothing
-- is rounded but `average_price`, a quotient, which is kept as its two operands.
-- Identifiers and SHA-256 digests are only compared, so they are numbers.
pub mod Valid
pub mod Coherent
pub mod Facts
use kairos_execution_engine.Common.{ℕ, Bool, Option, List, ◌*◌, ◌^◌, ◌==◌, true, false}
use kairos_execution_engine.Common.Int.{ℤ}

-- One, in units of 10^-18.
abbrev pub one : ℕ
one = 10 ^ 18

-- 10_000 basis points, in units of 10^-18.
abbrev pub all_bps : ℕ
all_bps = 10000 * one

abbrev pub max_timestamp : ℕ
max_timestamp = 9223372036854775807

abbrev pub max_commands : ℕ
max_commands = 1024

abbrev pub Digest : Type 0
Digest = ℕ

pub data Symbol : Type 0 where
  btcusdt ethusdt solusdt bnbusdt xrpusdt : Symbol

abbrev symbol_index : Symbol → ℕ
symbol_index btcusdt = 0
symbol_index ethusdt = 1
symbol_index solusdt = 2
symbol_index bnbusdt = 3
symbol_index xrpusdt = 4

abbrev pub same_symbol : Symbol → Symbol → Bool
same_symbol a b = symbol_index a == symbol_index b

pub data OrderSide : Type 0 where
  buy sell : OrderSide

pub data BookSide : Type 0 where
  bid ask : BookSide

abbrev pub same_side : BookSide → BookSide → Bool
same_side bid bid = true
same_side ask ask = true
same_side _ _ = false

pub data Continuity : Type 0 where
  admitted gap reconnect unknown unavailable clock_skew : Continuity

pub data Status : Type 0 where
  wait filled partial no_fill blocked : Status

-- The reason strings that the kernel and the controller write; `source` is `SOURCE_<continuity>`.
pub data Reason : Type 0 where
  not_arrived command_not_durable not_yet_eligible entry_expired : Reason
  invalid_quantity_step invalid_price_cap_step : Reason
  stream_epoch_changed : Reason
  source : Continuity → Reason
  frame_not_durable stale_book excessive_frame_latency frame_sequence_regression : Reason
  frame_identity_conflict exchange_order_regression : Reason
  book_price_rule_mismatch book_quantity_rule_mismatch : Reason
  no_executable_capacity model_ioc : Reason
  command_expired no_admitted_book : Reason

pub record BookLevel : Type 0 where
  pub price : ℕ
  pub quantity : ℕ

pub record AcceptedBookFrame : Type 0 where
  pub tape_id : ℕ
  pub stream_epoch : ℕ
  pub symbol : Symbol
  pub sequence : ℕ
  pub exchange_update_id : ℕ
  pub exchange_at_ms : ℕ
  pub received_at_ms : ℕ
  pub persisted_at_ms : ℕ
  pub raw_payload_sha256 : Digest
  pub continuity : Continuity
  pub bids : List BookLevel
  pub asks : List BookLevel

pub record IocCommand : Type 0 where
  pub session_id : ℕ
  pub command_id : ℕ
  pub symbol : Symbol
  pub side : OrderSide
  pub quantity : ℕ
  pub price_cap : ℕ
  pub submitted_at_ms : ℕ
  pub persisted_at_ms : ℕ
  pub eligible_at_ms : ℕ
  pub expires_at_ms : ℕ

pub record FillAssumptions : Type 0 where
  pub latency_ms : ℕ
  pub maximum_book_age_ms : ℕ
  pub maximum_frame_latency_ms : ℕ
  pub depth_participation_fraction : ℕ
  pub adverse_slippage_bps : ℕ
  pub taker_fee_bps : ℕ
  pub price_tick : ℕ
  pub quantity_step : ℕ

pub record ConsumedDepth : Type 0 where
  pub side : BookSide
  pub price : ℕ
  pub quantity : ℕ

pub record LevelFill : Type 0 where
  pub book_price : ℕ
  pub execution_price : ℕ
  pub quantity : ℕ
  pub fee_quote : ℕ

-- The two operands of the division that gives an average price.
pub record Quotient : Type 0 where
  pub numerator : ℕ
  pub denominator : ℕ

pub record FillOutcome : Type 0 where
  pub command_id : ℕ
  pub command_sha256 : Digest
  pub assumptions_sha256 : Digest
  pub frame_sha256 : Option Digest
  pub status : Status
  pub reason : Reason
  pub arrival_at_ms : ℕ
  pub requested_quantity : ℕ
  pub filled_quantity : ℕ
  pub cancelled_quantity : ℕ
  pub average_price : Option Quotient
  pub notional_quote : ℕ
  pub fee_quote : ℕ
  pub arrival_mid_price : Option ℕ
  pub implementation_shortfall_quote : ℤ
  pub level_fills : List LevelFill

pub record CommandReceipt : Type 0 where
  pub command_id : ℕ
  pub command_sha256 : Digest
  pub assumptions_sha256 : Digest
  pub outcome : FillOutcome

pub record LiquidityState : Type 0 where
  pub session_id : ℕ
  pub tape_id : ℕ
  pub stream_epoch : ℕ
  pub symbol : Symbol
  pub assumptions_sha256 : Option Digest
  pub last_as_of_ms : ℕ
  pub last_arrival_at_ms : ℕ
  pub last_frame_sequence : ℕ
  pub last_exchange_update_id : ℕ
  pub last_exchange_at_ms : ℕ
  pub last_received_at_ms : ℕ
  pub last_frame_sha256 : Option Digest
  pub barrier_reason : Option Reason
  pub consumed_depth : List ConsumedDepth
  pub receipts : List CommandReceipt

pub record ModelStep : Type 0 where
  pub outcome : FillOutcome
  pub state : LiquidityState
  pub replayed : Bool
