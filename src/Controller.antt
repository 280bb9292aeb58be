-- ===== src/Controller.antt =====
-- kairos_execution/simulation/controller.py, for one trade: the exit decision on a closed bar, the
-- lifecycle event of a receipt, and the checks on the evidence of a terminal trade. Prices and
-- quantities are counts of fixed units. The journal of kairos_persistence is a parameter.
mod Tests
pub mod Settled
pub mod Store
pub mod Triggers
pub mod Balance
pub mod Bars
pub mod Results
pub mod Evidence
pub mod Exits
pub mod Lifecycle
pub mod Progress
use kairos_execution_engine.Common.{
  ℕ, ◌+◌, ◌-◌, ◌*◌, ◌/◌, min, Bool, true, false, not, ◌&&◌, ◌||◌, List, [], ◌∷◌, Option, none, some,
  leb, ltb, ◌==◌, if◌then◌else◌, Result, ok, err, ◌>>=◌, ◌>>◌, require,
}
use kairos_execution_engine.Simulation.Models.{Status, Quotient, Reason, FillOutcome}

pub data TradeState : Type 0 where
  pending active flat unresolved no_fill blocked : TradeState

-- `_TERMINAL_STATES`.
unfoldable pub is_terminal : TradeState → Bool
is_terminal pending = false
is_terminal active = false
is_terminal _ = true

pub data CommandKind : Type 0 where
  entry_ioc stop_exit_ioc target_exit_ioc timeout_exit_ioc : CommandKind

-- `Side` of kairos_core, as far as the controller tells its members apart.
pub data Side : Type 0 where
  long short not_directional : Side

pub data EventType : Type 0 where
  admitted entry_filled entry_partial entry_no_fill no_admitted_book source_barrier : EventType
  stop_triggered target_triggered timeout_triggered trade_unresolved : EventType

-- The fields of `SimulationCommandReceiptV1` that the lifecycle reads; `without_book` is
-- `"NO_ADMITTED_BOOK" in reason_codes`.
pub record Receipt : Type 0 where
  pub receipt_id : ℕ
  pub status : Status
  pub without_book : Bool
  pub filled_quantity : ℕ
  pub average_price : Option Quotient
  pub fee_quote : ℕ
  pub arrival_at_ms : ℕ

-- The fields of `SimulationTradeEventV2` that the controller reads back.
pub record TradeEvent : Type 0 where
  pub event_type : EventType
  pub to_state : TradeState
  pub occurred_at_ms : ℕ
  pub filled_quantity : ℕ
  pub command_id : Option ℕ
  pub receipt_id : Option ℕ

pub data ControllerError : Type 0 where
  entry_not_pending exit_not_active receipt_exceeds_exposure : ControllerError
  not_one_entry not_directional_trade no_exposure cap_not_positive : ControllerError
  no_command_lineage no_durable_receipt no_average_price : ControllerError
  outcome_waits no_book_frame no_outcome_price : ControllerError
  no_events no_entry_fill unmatched_fills no_remaining_exposure : ControllerError

abbrev is_wait : Status → Bool
is_wait Status.wait = true
is_wait _ = false

abbrev names_no_book : Reason → Bool
names_no_book Reason.no_admitted_book = true
names_no_book _ = false

abbrev outcome_receipt : ℕ → FillOutcome → Option Quotient → Receipt
outcome_receipt receipt_id o average_price = record {
  receipt_id = receipt_id;
  status = o.status;
  without_book = names_no_book o.reason;
  filled_quantity = o.filled_quantity;
  average_price = average_price;
  fee_quote = elim average_price [ none ↦ 0 | some _ ↦ o.fee_quote ];
  arrival_at_ms = o.arrival_at_ms;
}

-- `command_receipt` of bridge.py: a fill needs its recorded frame and both of its prices.
unfoldable pub command_receipt : ℕ → Bool → FillOutcome → Result ControllerError Receipt
command_receipt receipt_id has_frame o =
    if is_wait o.status
    then err outcome_waits
    else if ltb 0 o.filled_quantity
    then if has_frame
      then elim o.average_price [
        | none ↦ err no_outcome_price
        | some price ↦ elim o.arrival_mid_price [
          | none ↦ err no_outcome_price
          | some _ ↦ ok (outcome_receipt receipt_id o (some price))
        ]
      ]
      else err no_book_frame
    else ok (outcome_receipt receipt_id o none)

abbrev pub is_entry_fill : EventType → Bool
is_entry_fill entry_filled = true
is_entry_fill entry_partial = true
is_entry_fill _ = false

abbrev pub is_exit_fill : EventType → Bool
is_exit_fill stop_triggered = true
is_exit_fill target_triggered = true
is_exit_fill timeout_triggered = true
is_exit_fill _ = false

-- `sum(event.filled_quantity for event in events if event.event_type in ...)`.
unfoldable pub filled_by : (EventType → Bool) → List TradeEvent → ℕ
filled_by is_fill [] = 0
filled_by is_fill (e ∷ es) =
    let rest = filled_by is_fill es in
    if is_fill e.event_type then e.filled_quantity + rest else rest

abbrev pub entry_filled_quantity : List TradeEvent → ℕ
entry_filled_quantity = filled_by is_entry_fill

abbrev pub exit_filled_quantity : List TradeEvent → ℕ
exit_filled_quantity = filled_by is_exit_fill

-- `[event for event in events if event.event_type in {"ENTRY_FILLED", "ENTRY_PARTIAL"}]`.
unfoldable pub entry_events : List TradeEvent → List TradeEvent
entry_events [] = []
entry_events (e ∷ es) =
    let rest = entry_events es in if is_entry_fill e.event_type then e ∷ rest else rest

unfoldable pub first_entry_event : List TradeEvent → Result ControllerError TradeEvent
first_entry_event es = elim (entry_events es) [ e ∷ [] ↦ ok e | _ ↦ err not_one_entry ]

abbrev pub exit_event_type : CommandKind → EventType
exit_event_type stop_exit_ioc = stop_triggered
exit_event_type target_exit_ioc = target_triggered
exit_event_type _ = timeout_triggered

unfoldable pub entry_outcome : Receipt → EventType × TradeState
entry_outcome r = elim r.status [
  | Status.filled ↦ (entry_filled, active)
  | Status.partial ↦ (entry_partial, active)
  | Status.no_fill ↦ (entry_no_fill, no_fill)
  | _ ↦ if r.without_book then (no_admitted_book, blocked) else (source_barrier, blocked)
]

abbrev pub has_fill : Status → Bool
has_fill Status.filled = true
has_fill Status.partial = true
has_fill _ = false

unfoldable pub exit_outcome :
    CommandKind → Receipt → List TradeEvent → Result ControllerError (EventType × TradeState)
exit_outcome kind r es =
    let current = exit_filled_quantity es in
    let entry = entry_filled_quantity es in
    if has_fill r.status
    then if leb r.filled_quantity 0 || ltb entry (current + r.filled_quantity)
      then err receipt_exceeds_exposure
      else ok (
        exit_event_type kind,
        (if current + r.filled_quantity == entry then flat else unresolved),
      )
    else ok (trade_unresolved, unresolved)

abbrev pub is_pending : TradeState → Bool
is_pending pending = true
is_pending _ = false

abbrev pub is_active : TradeState → Bool
is_active active = true
is_active _ = false

unfoldable pub outcome_of :
    CommandKind
    → Receipt
    → TradeState
    → List TradeEvent
    → Result ControllerError (EventType × TradeState)
outcome_of entry_ioc r s es = if is_pending s then ok (entry_outcome r) else err entry_not_pending
outcome_of kind r s es = if is_active s then exit_outcome kind r es else err exit_not_active

abbrev pub receipt_event : ℕ → Receipt → EventType × TradeState → TradeEvent
receipt_event command_id r (type, to) = record {
  event_type = type;
  to_state = to;
  occurred_at_ms = r.arrival_at_ms;
  filled_quantity = r.filled_quantity;
  command_id = some command_id;
  receipt_id = some r.receipt_id;
}

-- `_event_for_receipt`.
unfoldable pub event_for_receipt :
    CommandKind → ℕ → Receipt → TradeState → List TradeEvent → Result ControllerError TradeEvent
event_for_receipt kind command_id r s es = elim (outcome_of kind r s es) [
  | err e ↦ err e
  | ok o ↦ ok (receipt_event command_id r o)
]
