-- ===== src/Controller/Tests.antt =====
-- The controller: a store in memory, and one trade that is entered, stopped out and settled.
use kairos_execution_engine.Common.{
  ℕ, ◌==◌, ◌≡◌, ◌≢◌, ◌<◌, ◌∷◌, [], ◌++◌, List, Option, none, some, ok, err, ◌*◌, ◌/◌, refl, true,
  false, arith, ==_refl, if◌then◌else◌,
}
use kairos_execution_engine.Common.Int.{pos}
use kairos_execution_engine.Simulation.Models.{FillOutcome, Quotient, Status, Reason}
use kairos_execution_engine.Simulation.Models.Coherent.{
  coherent_outcome, bounded_outcome, consistent_outcome,
}
use kairos_execution_engine.Controller.{
  TradeState, pending, active, flat, long, not_directional, TradeEvent, Receipt, entry_ioc,
  stop_exit_ioc, ControllerError, entry_filled, stop_triggered, receipt_event, command_receipt,
  event_for_receipt, outcome_of, exit_outcome, entry_outcome, filled_by, is_entry_fill, is_terminal,
  cap_not_positive, first_entry_event, entry_events,
}
use kairos_execution_engine.Controller.Store.{TradeStore}
use kairos_execution_engine.Controller.Bars.{
  Terms, ClosedBar, ExitCommand, submit, process_closed_bar, active_bar, exit_order, exit_trigger,
  crossed, adverse_exit_cap, exit_command,
}
use kairos_execution_engine.Controller.Results.{FinalResult, ensure_terminal_result}
use kairos_execution_engine.Controller.Lifecycle.{
  Reached, start_trade, process_command, root_event, IsJournal, Reached-IsJournal,
}
use kairos_execution_engine.Controller.Progress.{
  Advances, stays, completes, IsProgress, Advances-IsProgress,
}
use kairos_execution_engine.Controller.Exits.{IsExit, Reached-IsExit, Reached-process_closed_bar}
use kairos_execution_engine.Controller.Settled.{IsSettled, Reached-ensure_terminal_result}

record Memory : Type 0 where
  state : TradeState
  events : List TradeEvent
  load : ℕ → Option Receipt

abbrev stored : (ℕ → Option Receipt) → ℕ → Receipt → ℕ → Option Receipt
stored load i r k = if k == i then some r else load k

stored_new : (load : ℕ → Option Receipt) (i : ℕ) (r : Receipt) → stored load i r i ≡ some r
stored_new load i r = rw (==_refl i) refl

stored_other :
    (load : ℕ → Option Receipt) (i k : ℕ) (r : Receipt) → k ≢ i → stored load i r k ≡ load k
stored_other load i k r h = ground arith

abbrev memory : TradeStore
memory = record {
  Store = Memory;
  state = λ s. s.state;
  events = λ s. s.events;
  load_receipt = λ s. s.load;
  append_trade_event =
      λ s e. record { state = e.to_state; events = s.events ++ e ∷ []; load = s.load };
  complete_command = λ s i r e. record {
    state = e.to_state;
    events = s.events ++ e ∷ [];
    load = stored s.load i r;
  };
  append-state = λ s e. refl;
  append-events = λ s e. refl;
  append-receipt = λ s e i. refl;
  complete-state = λ s i r e new. refl;
  complete-events = λ s i r e new. refl;
  complete-receipt = λ s i r e new. stored_new s.load i r;
  complete-receipt_other = λ s i k r e new other. stored_other s.load i k r other;
}

abbrev outcome : FillOutcome
outcome = record {
  command_id = 1;
  command_sha256 = 11;
  assumptions_sha256 = 12;
  frame_sha256 = some 13;
  status = Status.filled;
  reason = Reason.model_ioc;
  arrival_at_ms = 1000;
  requested_quantity = 10;
  filled_quantity = 10;
  cancelled_quantity = 0;
  average_price = some (record { numerator = 500; denominator = 1 });
  notional_quote = 5000;
  fee_quote = 3;
  arrival_mid_price = some 1000;
  implementation_shortfall_quote = pos 0;
  level_fills =
      record { book_price = 500; execution_price = 500; quantity = 10; fee_quote = 3 } ∷ [];
}

outcome-coherent : coherent_outcome outcome ≡ true
unfolding coherent_outcome bounded_outcome consistent_outcome
outcome-coherent = refl

abbrev receipt_of : ℕ → Receipt
receipt_of receipt_id = record {
  receipt_id = receipt_id;
  status = Status.filled;
  without_book = false;
  filled_quantity = 10;
  average_price = some (record { numerator = 500; denominator = 1 });
  fee_quote = 3;
  arrival_at_ms = 1000;
}

abbrev entry_event : TradeEvent
entry_event = receipt_event 1 (receipt_of 21) (entry_filled, active)

abbrev exit_event : TradeEvent
exit_event = receipt_event 2 (receipt_of 22) (stop_triggered, flat)

abbrev new_trade : Memory
new_trade = record { state = pending; events = root_event 900 ∷ []; load = λ i. none }

abbrev entered : Memory
entered = memory.complete_command new_trade 1 (receipt_of 21) entry_event

abbrev stopped : Memory
stopped = memory.complete_command entered 2 (receipt_of 22) exit_event

entry_receipt : command_receipt 21 true outcome ≡ ok (receipt_of 21)
unfolding command_receipt
entry_receipt = refl

exit_receipt : command_receipt 22 true outcome ≡ ok (receipt_of 22)
unfolding command_receipt
exit_receipt = refl

entry_completes :
    event_for_receipt entry_ioc 1 (receipt_of 21) (memory.state new_trade) (memory.events new_trade)
    ≡ ok entry_event
unfolding event_for_receipt outcome_of entry_outcome
entry_completes = refl

exit_completes :
    event_for_receipt stop_exit_ioc 2 (receipt_of 22) (memory.state entered) (memory.events entered)
    ≡ ok exit_event
unfolding event_for_receipt outcome_of exit_outcome filled_by
exit_completes = refl

entered-Reached : Reached memory entered
entered-Reached =
    process_command entry_ioc 1 21 true outcome (receipt_of 21) entry_event
      (start_trade new_trade 900 refl refl) refl outcome-coherent entry_receipt entry_completes

stopped-Reached : Reached memory stopped
stopped-Reached =
    process_command stop_exit_ioc 2 22 true outcome (receipt_of 22) exit_event entered-Reached refl
      outcome-coherent exit_receipt exit_completes

Reached-IsJournal_example : IsJournal (memory.state stopped) (memory.events stopped)
Reached-IsJournal_example = Reached-IsJournal memory stopped stopped-Reached

is_flat : is_terminal (memory.state stopped) ≡ true
unfolding is_terminal
is_flat = refl

-- The product of a quantity and an average price, rounded down.
abbrev times : ℕ → Quotient → ℕ
times quantity price = quantity * price.numerator / price.denominator

Reached-ensure_terminal_result_example :
    (f : FinalResult) × (ensure_terminal_result times
        (memory.load_receipt stopped)
        (memory.state stopped)
        (memory.events stopped)
      ≡ ok (some f))
    × IsSettled (memory.state stopped) (memory.events stopped) f
Reached-ensure_terminal_result_example =
    Reached-ensure_terminal_result times memory stopped stopped-Reached is_flat

-- A bar that reaches the stop and the target.
abbrev wide_bar : ClosedBar
wide_bar = record { low = 400; high = 700; close = 600; close_time_ms = 1999 }

abbrev terms : Terms
terms = record {
  side = long;
  plan = record { stop_price = 455; target_price = 650; max_holding_ms = 5000 };
  ends_at_ms = 100000;
  maximum_book_age_ms = 500;
  price_tick = 10;
}

abbrev stop_exit : ExitCommand
stop_exit = record {
  command_kind = stop_exit_ioc;
  quantity = 10;
  price_cap = 450;
  submitted_at_ms = 2000;
  eligible_at_ms = 2000;
  expires_at_ms = 2500;
}

stop_wins :
    process_closed_bar terms (memory.state entered) (memory.events entered) wide_bar 2000
    ≡ ok (submit stop_exit)
unfolding process_closed_bar active_bar exit_order exit_trigger crossed adverse_exit_cap
    exit_command filled_by first_entry_event entry_events
stop_wins = refl

Reached-IsExit_example :
    (memory.state entered ≡ active)
    × (1999 < 2000)
    × (stop_exit.quantity ≡ filled_by is_entry_fill (memory.events entered))
    × (0 < stop_exit.quantity)
    × IsExit terms (memory.events entered) wide_bar stop_exit
Reached-IsExit_example =
    Reached-IsExit memory entered terms wide_bar 2000 stop_exit entered-Reached stop_wins

-- A tick above the stop leaves a long trade no cap.
abbrev coarse_terms : Terms
coarse_terms = record terms { price_tick = 1000 }

no_cap :
    process_closed_bar coarse_terms (memory.state entered) (memory.events entered) wide_bar 2000
    ≡ err cap_not_positive
unfolding process_closed_bar active_bar exit_order exit_trigger crossed adverse_exit_cap
    exit_command filled_by first_entry_event entry_events
no_cap = refl

long-is_directional : long ≢ not_directional
long-is_directional h = cc

Reached-process_closed_bar_example : ◌≡◌ {A = ControllerError} cap_not_positive cap_not_positive
Reached-process_closed_bar_example =
    Reached-process_closed_bar memory entered coarse_terms wide_bar 2000 cap_not_positive
      entered-Reached long-is_directional no_cap

-- From a new trade, an entry and an exit are all there can be.
stopped-Advances : Advances memory new_trade stopped
stopped-Advances =
    completes stop_exit_ioc 2 (receipt_of 22) exit_event
      (completes entry_ioc 1 (receipt_of 21) entry_event stays refl entry_completes) refl
      exit_completes

Advances-IsProgress_example :
    IsProgress
      (memory.state new_trade)
      (memory.state stopped)
      (memory.events new_trade)
      (memory.events stopped)
Advances-IsProgress_example = Advances-IsProgress memory new_trade stopped stopped-Advances
