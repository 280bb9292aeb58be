-- ===== src/Controller/Bars.antt =====
-- `process_closed_bar`: the exits of an active trade on a stored closed bar, and the command's terms.
-- The checks of the clock, of the bar's symbol, venue and digest and of the journal's lineage, which
-- come first, have passed; an exit that is due is the last step here, and its completion by
-- `_process_command` is a step of Lifecycle.
use kairos_execution_engine.Common.{
  ℕ, ◌+◌, ◌-◌, ◌*◌, ◌/◌, min, List, Option, none, some, leb, ltb, if◌then◌else◌, Result, ok, err,
}
use kairos_execution_engine.Controller.{
  TradeState, unresolved, CommandKind, stop_exit_ioc, target_exit_ioc, timeout_exit_ioc, Side, long,
  short, not_directional, TradeEvent, trade_unresolved, ControllerError, not_directional_trade,
  no_exposure, cap_not_positive, entry_filled_quantity, exit_filled_quantity, first_entry_event,
  is_active,
}

-- The closed bar, after the checks of its symbol, its venue and its digest.
pub record ClosedBar : Type 0 where
  pub low : ℕ
  pub high : ℕ
  pub close : ℕ
  pub close_time_ms : ℕ

pub record ExitPlan : Type 0 where
  pub stop_price : ℕ
  pub target_price : ℕ
  pub max_holding_ms : ℕ

-- The trade's immutable terms that the decision reads, of a trade whose intent has an exit plan.
pub record Terms : Type 0 where
  pub side : Side
  pub plan : ExitPlan
  pub ends_at_ms : ℕ
  pub maximum_book_age_ms : ℕ
  pub price_tick : ℕ

pub record ExitCommand : Type 0 where
  pub command_kind : CommandKind
  pub quantity : ℕ
  pub price_cap : ℕ
  pub submitted_at_ms : ℕ
  pub eligible_at_ms : ℕ
  pub expires_at_ms : ℕ

-- What a closed bar leads to: nothing, the event of `_mark_unresolved`, or a command to process.
pub data BarAction : Type 0 where
  nothing_due : BarAction
  mark_unresolved : TradeEvent → BarAction
  submit : ExitCommand → BarAction

-- The stop is tested before the target.
unfoldable pub crossed :
    Side → ExitPlan → ClosedBar → Result ControllerError (Option (CommandKind × ℕ))
crossed long p b =
    if leb b.low p.stop_price
    then ok (some (stop_exit_ioc, p.stop_price))
    else if leb p.target_price b.high
    then ok (some (target_exit_ioc, p.target_price))
    else ok none
crossed short p b =
    if leb p.stop_price b.high
    then ok (some (stop_exit_ioc, p.stop_price))
    else if leb b.low p.target_price
    then ok (some (target_exit_ioc, p.target_price))
    else ok none
crossed not_directional p b = err not_directional_trade

-- With the timeout, where no price was crossed.
unfoldable pub exit_trigger :
    Side → ExitPlan → ClosedBar → ℕ → Result ControllerError (Option (CommandKind × ℕ))
exit_trigger side p b entered_at_ms = elim (crossed side p b) [
  | err e ↦ err e
  | ok (some t) ↦ ok (some t)
  | ok none ↦
      if leb (entered_at_ms + p.max_holding_ms) (b.close_time_ms + 1)
      then ok (some (timeout_exit_ioc, b.close))
      else ok none
]

-- `to_integral_value` by ROUND_FLOOR for a long trade and ROUND_CEILING for a short one.
unfoldable pub adverse_exit_cap : Side → ℕ → ℕ → Result ControllerError ℕ
adverse_exit_cap long tick price =
    if leb (price / tick * tick) 0 then err cap_not_positive else ok (price / tick * tick)
adverse_exit_cap _ tick price =
    let rounded = (price + tick - 1) / tick * tick in
    if leb rounded 0 then err cap_not_positive else ok rounded

unfoldable pub exit_command : Terms → CommandKind → ℕ → ℕ → ℕ → ExitCommand
exit_command t kind quantity cap trigger_at_ms = record {
  command_kind = kind;
  quantity = quantity;
  price_cap = cap;
  submitted_at_ms = trigger_at_ms;
  eligible_at_ms = trigger_at_ms;
  expires_at_ms = min (trigger_at_ms + t.maximum_book_age_ms) t.ends_at_ms;
}

abbrev pub unresolved_event : ℕ → TradeEvent
unresolved_event occurred_at_ms = record {
  event_type = trade_unresolved;
  to_state = unresolved;
  occurred_at_ms = occurred_at_ms;
  filled_quantity = 0;
  command_id = none;
  receipt_id = none;
}

-- The command of a trigger: all that remains, at the rounded cap.
unfoldable pub exit_order :
    Terms → List TradeEvent → ℕ → Option (CommandKind × ℕ) → Result ControllerError BarAction
exit_order t es trigger_at_ms none = ok nothing_due
exit_order t es trigger_at_ms (some (kind, price)) =
    let entry = entry_filled_quantity es in
    let exit = exit_filled_quantity es in
    if leb entry exit then err no_exposure else elim (adverse_exit_cap t.side t.price_tick price) [
      | err e ↦ err e
      | ok cap ↦ ok (submit (exit_command t kind (entry - exit) cap trigger_at_ms))
    ]

unfoldable pub active_bar :
    Terms → List TradeEvent → ClosedBar → ℕ → Result ControllerError BarAction
active_bar t es b entered_at_ms = elim (exit_trigger t.side t.plan b entered_at_ms) [
  | err e ↦ err e
  | ok trigger ↦ exit_order t es (b.close_time_ms + 1) trigger
]

unfoldable pub process_closed_bar :
    Terms → TradeState → List TradeEvent → ClosedBar → ℕ → Result ControllerError BarAction
process_closed_bar t s es b as_of_ms =
    let trigger_at_ms = b.close_time_ms + 1 in
    if ltb as_of_ms trigger_at_ms
    then ok nothing_due
    else if is_active s
    then if ltb t.ends_at_ms trigger_at_ms
      then ok (mark_unresolved (unresolved_event trigger_at_ms))
      else elim (first_entry_event es) [
        | err e ↦ err e
        | ok entry ↦ active_bar t es b entry.occurred_at_ms
      ]
    else ok nothing_due
