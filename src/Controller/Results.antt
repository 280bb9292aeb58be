-- ===== src/Controller/Results.antt =====
-- `_fill_totals` and the checks of `_ensure_terminal_result`: the evidence of a terminal trade.
-- The Decimal product of a quantity and an average price is a parameter.
use kairos_execution_engine.Common.{
  ℕ, ◌+◌, ◌==◌, Bool, true, false, not, ◌&&◌, List, [], ◌∷◌, Option, none, some, leb, if◌then◌else◌,
  Result, ok, err,
}
use kairos_execution_engine.Simulation.Models.{Quotient}
use kairos_execution_engine.Controller.{
  TradeState, flat, unresolved, EventType, TradeEvent, Receipt, ControllerError, no_command_lineage,
  no_durable_receipt, no_average_price, no_events, no_entry_fill, unmatched_fills,
  no_remaining_exposure, is_entry_fill, is_exit_fill, is_terminal,
}

pub record Totals : Type 0 where
  pub quantity : ℕ
  pub notional : ℕ
  pub fees : ℕ

module _ (times : ℕ → Quotient → ℕ) where
  -- One event's receipt, which the repository must hold under the event's command.
  unfoldable pub fill_receipt :
      (ℕ → Option Receipt) → TradeEvent → Result ControllerError (Receipt × Quotient)
  fill_receipt load e = elim e.command_id [
    | none ↦ err no_command_lineage
    | some command_id ↦ elim (load command_id) [
      | none ↦ err no_durable_receipt
      | some r ↦ elim e.receipt_id [
        | none ↦ err no_durable_receipt
        | some receipt_id ↦
            if r.receipt_id == receipt_id
            then elim r.average_price [ none ↦ err no_average_price | some price ↦ ok (r, price) ]
            else err no_durable_receipt
      ]
    ]
  ]

  abbrev pub add_fill : Totals → Receipt × Quotient → Totals
  add_fill total (r, price) = record {
    quantity = total.quantity + r.filled_quantity;
    notional = total.notional + times r.filled_quantity price;
    fees = total.fees + r.fee_quote;
  }

  -- The loop of `_fill_totals`, from the totals so far.
  unfoldable pub fill_totals :
      (EventType → Bool)
      → (ℕ → Option Receipt)
      → List TradeEvent
      → Totals
      → Result ControllerError Totals
  fill_totals is_fill load [] total = ok total
  fill_totals is_fill load (e ∷ es) total = elim (is_fill e.event_type) [
    | false ↦ fill_totals is_fill load es total
    | true ↦ elim (fill_receipt load e) [
      | err raised ↦ err raised
      | ok fill ↦ fill_totals is_fill load es (add_fill total fill)
    ]
  ]

-- `journal.events[-1]`.
unfoldable pub last_event : List TradeEvent → Option TradeEvent
last_event [] = none
last_event (e ∷ es) = elim (last_event es) [ none ↦ some e | some l ↦ some l ]

-- The recorded result, less the quotients of its prices and its profit.
pub record FinalResult : Type 0 where
  pub final_state : TradeState
  pub completed_at_ms : ℕ
  pub entry_filled_quantity : ℕ
  pub exit_filled_quantity : ℕ
  pub fee_quote : ℕ

abbrev pub no_totals : Totals
no_totals = record { quantity = 0; notional = 0; fees = 0 }

abbrev pub was_filled : TradeState → Bool
was_filled flat = true
was_filled unresolved = true
was_filled _ = false

abbrev is_flat : TradeState → Bool
is_flat flat = true
is_flat _ = false

-- The three tests on the totals of a trade that was entered.
unfoldable pub matched_result :
    TradeState → ℕ → Totals → Totals → Result ControllerError FinalResult
matched_result s at entry exit =
    if leb entry.quantity 0
    then err no_entry_fill
    else if is_flat s && not (exit.quantity == entry.quantity)
    then err unmatched_fills
    else if not (is_flat s) && leb entry.quantity exit.quantity
    then err no_remaining_exposure
    else ok record {
      final_state = s;
      completed_at_ms = at;
      entry_filled_quantity = entry.quantity;
      exit_filled_quantity = exit.quantity;
      fee_quote = entry.fees + exit.fees;
    }

-- The result of a trade that was never entered.
abbrev pub empty_result : TradeState → ℕ → FinalResult
empty_result s at = record {
  final_state = s;
  completed_at_ms = at;
  entry_filled_quantity = 0;
  exit_filled_quantity = 0;
  fee_quote = 0;
}

unfoldable pub terminal_result :
    (ℕ → Quotient → ℕ)
    → (ℕ → Option Receipt)
    → TradeState
    → List TradeEvent
    → ℕ
    → Result ControllerError FinalResult
terminal_result times load s es at =
    if was_filled s
    then elim (fill_totals times is_entry_fill load es no_totals) [
      | err raised ↦ err raised
      | ok entry ↦ elim (fill_totals times is_exit_fill load es no_totals) [
        | err raised ↦ err raised
        | ok exit ↦ matched_result s at entry exit
      ]
    ]
    else ok (empty_result s at)

-- `_ensure_terminal_result`: nothing for a trade that is not terminal.
unfoldable pub ensure_terminal_result :
    (ℕ → Quotient → ℕ)
    → (ℕ → Option Receipt)
    → TradeState
    → List TradeEvent
    → Result ControllerError (Option FinalResult)
ensure_terminal_result times load s es =
    if is_terminal s
    then elim (last_event es) [
      | none ↦ err no_events
      | some l ↦ elim (terminal_result times load s es l.occurred_at_ms) [
        | err raised ↦ err raised
        | ok result ↦ ok (some result)
      ]
    ]
    else ok none
