-- ===== src/Controller/Lifecycle.antt =====
-- The lifecycle of one trade: its journal under the completions of its commands and the closed bars.
use kairos_execution_engine.Common.{
  ℕ, ◌+◌, ◌≤◌, ◌≡◌, refl, true, Bool, List, [], ◌∷◌, ◌++◌, none, ok, arith, sym, length,
}
use kairos_execution_engine.Simulation.Models.{FillOutcome}
use kairos_execution_engine.Simulation.Models.Coherent.{coherent_outcome}
use kairos_execution_engine.Controller.{
  TradeState, pending, active, unresolved, CommandKind, TradeEvent, admitted, Receipt,
  command_receipt, filled_by, is_entry_fill, is_exit_fill, event_for_receipt, entry_events,
}
use kairos_execution_engine.Controller.Store.{TradeStore}
use kairos_execution_engine.Controller.Bars.{
  Terms, ClosedBar, mark_unresolved, process_closed_bar, unresolved_event, active_bar, exit_order,
}
use kairos_execution_engine.Controller.Balance.{
  Balanced, Entered, Sound, filled_by-append, entry_events-append, event-Balanced, event_entered,
  command_receipt-Sound,
}

-- The root event of `start_trade`.
abbrev pub root_event : ℕ → TradeEvent
root_event created_at_ms = record {
  event_type = admitted;
  to_state = pending;
  occurred_at_ms = created_at_ms;
  filled_quantity = 0;
  command_id = none;
  receipt_id = none;
}

-- The stores that `start_trade`, `_process_command` and `process_closed_bar` lead to. A command
-- that is not completed has no receipt; its outcome is a coherent one of the fill model.
pub data Reached (j : TradeStore) : j.Store → Type 0 where
  start_trade :
      (s : j.Store) (created_at_ms : ℕ)
      → j.state s ≡ pending
      → j.events s ≡ root_event created_at_ms ∷ []
      → Reached j s
  process_command :
      {s : j.Store} (kind : CommandKind) (command_id receipt_id : ℕ) (has_frame : Bool)
      (o : FillOutcome) (r : Receipt) (e : TradeEvent)
      → Reached j s
      → j.load_receipt s command_id ≡ none
      → coherent_outcome o ≡ true
      → command_receipt receipt_id has_frame o ≡ ok r
      → event_for_receipt kind command_id r (j.state s) (j.events s) ≡ ok e
      → Reached j (j.complete_command s command_id r e)
  closed_bar :
      {s : j.Store} (t : Terms) (b : ClosedBar) (as_of_ms : ℕ) (e : TradeEvent)
      → Reached j s
      → process_closed_bar t (j.state s) (j.events s) b as_of_ms ≡ ok (mark_unresolved e)
      → Reached j (j.append_trade_event s e)

-- What a journal's state says of its events.
pub record IsJournal (s : TradeState) (es : List TradeEvent) : Type 0 where
  pub balanced : Balanced s (filled_by is_entry_fill es) (filled_by is_exit_fill es)
  pub entered : Entered s (length (entry_events es))

root-IsJournal : (created_at_ms : ℕ) → IsJournal pending (root_event created_at_ms ∷ [])
unfolding filled_by entry_events
root-IsJournal created_at_ms = record { balanced = (refl, refl); entered = refl }

receipt-IsJournal :
    (kind : CommandKind) (command_id : ℕ) (r : Receipt) (e : TradeEvent) (s : TradeState)
    (es : List TradeEvent)
    → Sound r
    → IsJournal s es
    → event_for_receipt kind command_id r s es ≡ ok e
    → IsJournal e.to_state (es ++ e ∷ [])
receipt-IsJournal kind command_id r e s es sound h k = record {
  balanced = event-Balanced kind r es e command_id s sound h.balanced k;
  entered =
      rw (entry_events-append es e)
        (event_entered kind r es e command_id s (length (entry_events es)) h.entered k);
}

-- `mark_unresolved` comes from an active trade only.
pub marked :
    (t : Terms) (b : ClosedBar) (as_of_ms : ℕ) (e : TradeEvent) (s : TradeState)
    (es : List TradeEvent)
    → process_closed_bar t s es b as_of_ms ≡ ok (mark_unresolved e)
    → (s ≡ active) × (e ≡ unresolved_event (b.close_time_ms + 1)) × (t.ends_at_ms ≤ b.close_time_ms)
unfolding process_closed_bar active_bar exit_order
marked t b as_of_ms e s es h = ground arith

marked-IsJournal :
    (at : ℕ) (es : List TradeEvent)
    → IsJournal active es
    → IsJournal unresolved (es ++ unresolved_event at ∷ [])
unfolding filled_by entry_events
marked-IsJournal at es h =
    let (filled, no_exit) = h.balanced in
    let one = h.entered in
    record {
      balanced =
          rw
            (
              filled_by-append is_entry_fill es (unresolved_event at),
              filled_by-append is_exit_fill es (unresolved_event at),
            )
            (omega arith);
      entered = rw (entry_events-append es (unresolved_event at)) (omega arith);
    }

closed-IsJournal :
    (t : Terms) (b : ClosedBar) (as_of_ms : ℕ) (e : TradeEvent) (s : TradeState)
    (es : List TradeEvent)
    → IsJournal s es
    → process_closed_bar t s es b as_of_ms ≡ ok (mark_unresolved e)
    → IsJournal e.to_state (es ++ e ∷ [])
closed-IsJournal t b as_of_ms e s es h k =
    let (is_active, is_unresolved, _) = marked t b as_of_ms e s es k in
    rw is_unresolved (marked-IsJournal (b.close_time_ms + 1) es (rw (sym is_active) h))

-- In every store that a trade reaches, the state agrees with the journal's fills: PENDING, NO_FILL
-- and BLOCKED stand for none, ACTIVE for one entry and no exit, FLAT for an entry that is all exited
-- and UNRESOLVED for an entry that is not.
pub Reached-IsJournal :
    (j : TradeStore) (s : j.Store) → Reached j s → IsJournal (j.state s) (j.events s)
Reached-IsJournal j s (start_trade _ at h k) = rw (h, k) (root-IsJournal at)
Reached-IsJournal j _ (process_command {s = s} kind i receipt_id has_frame o r e before new h k l) =
    rw (j.complete-state s i r e new, j.complete-events s i r e new)
      (receipt-IsJournal kind i r e (j.state s) (j.events s)
        (command_receipt-Sound receipt_id has_frame o r h k) (Reached-IsJournal j s before) l)
Reached-IsJournal j _ (closed_bar {s = s} t b as_of e before h) =
    rw (j.append-state s e, j.append-events s e)
      (closed-IsJournal t b as_of e (j.state s) (j.events s) (Reached-IsJournal j s before) h)
