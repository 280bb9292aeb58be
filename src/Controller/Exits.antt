-- ===== src/Controller/Exits.antt =====
-- What a closed bar leads to in a store that the trade has reached.
use kairos_execution_engine.Common.{
  ℕ, ◌+◌, ◌-◌, ◌≤◌, ◌<◌, ◌≡◌, ◌≢◌, inl, inr, refl, List, Result, Option, none, some, ok, err, arith,
  length, sym,
}
use kairos_execution_engine.Controller.{
  TradeState, active, CommandKind, not_directional, TradeEvent, ControllerError, cap_not_positive,
  filled_by, is_entry_fill, is_exit_fill, entry_events, first_entry_event,
}
use kairos_execution_engine.Controller.Store.{TradeStore}
use kairos_execution_engine.Controller.Bars.{
  Terms, ClosedBar, ExitCommand, submit, process_closed_bar, active_bar, exit_order, exit_trigger,
  adverse_exit_cap, exit_command,
}
use kairos_execution_engine.Controller.Lifecycle.{IsJournal, Reached, Reached-IsJournal}
use kairos_execution_engine.Controller.Triggers.{
  Triggered, trigger_lem, first_entry_total, bar_raises,
}

raises_active :
    (t : Terms) (s : TradeState) (es : List TradeEvent) (b : ClosedBar) (as_of_ms : ℕ)
    (raised : ControllerError)
    → process_closed_bar t s es b as_of_ms ≡ err raised
    → s ≡ active
unfolding process_closed_bar
raises_active t s es b as_of_ms raised h = ground arith

active_journal :
    (s : TradeState) (es : List TradeEvent)
    → IsJournal s es
    → s ≡ active
    → (filled_by is_exit_fill es ≡ 0)
      × (0 < filled_by is_entry_fill es)
      × (length (entry_events es) ≡ 1)
active_journal s es h k = let b = h.balanced in let c = h.entered in ground arith

-- For a directional trade with an exit plan the integrity checks of `process_closed_bar` never fail in a reached store:
-- it raises only where the rounded cap is zero.
pub Reached-process_closed_bar :
    (j : TradeStore) (s : j.Store) (t : Terms) (b : ClosedBar) (as_of_ms : ℕ)
    (raised : ControllerError)
    → Reached j s
    → t.side ≢ not_directional
    → process_closed_bar t (j.state s) (j.events s) b as_of_ms ≡ err raised
    → raised ≡ cap_not_positive
Reached-process_closed_bar j s t b as_of_ms raised h directional k =
    let is_active = raises_active t (j.state s) (j.events s) b as_of_ms raised k in
    let (no_exit, filled, one) =
      active_journal (j.state s) (j.events s) (Reached-IsJournal j s h) is_active in
    let (entry, found) = first_entry_total (j.events s) one in
    elim (bar_raises t (j.state s) (j.events s) b as_of_ms entry raised found (omega arith) k) [
      | inl q ↦ absurd (directional q)
      | inr q ↦ q
    ]

-- What a submitted exit is, in a store that the trade has reached.
pub record IsExit (t : Terms) (es : List TradeEvent) (b : ClosedBar) (c : ExitCommand)
    : Type 0 where
  pub entry : TradeEvent
  pub price : ℕ
  pub enters : first_entry_event es ≡ ok entry
  pub triggered : Triggered t.side t.plan b entry.occurred_at_ms c.command_kind price
  pub capped : adverse_exit_cap t.side t.price_tick price ≡ ok c.price_cap
  pub quantity : c.quantity ≡ filled_by is_entry_fill es - filled_by is_exit_fill es
  pub submitted : c.submitted_at_ms ≡ b.close_time_ms + 1
  pub expires : (c.submitted_at_ms ≤ c.expires_at_ms) × (c.expires_at_ms ≤ t.ends_at_ms)

order_lem :
    (t : Terms) (es : List TradeEvent) (at : ℕ) (kind : CommandKind) (price : ℕ) (c : ExitCommand)
    → at ≤ t.ends_at_ms
    → exit_order t es at (some (kind, price)) ≡ ok (submit c)
    → (kind ≡ c.command_kind)
      × (adverse_exit_cap t.side t.price_tick price ≡ ok c.price_cap)
      × (c.quantity ≡ filled_by is_entry_fill es - filled_by is_exit_fill es)
      × (c.submitted_at_ms ≡ at)
      × (at ≤ c.expires_at_ms)
      × (c.expires_at_ms ≤ t.ends_at_ms)
unfolding exit_order exit_command
order_lem t es at kind price c h k = ground arith

active_submits :
    (t : Terms) (es : List TradeEvent) (b : ClosedBar) (entry : TradeEvent) (c : ExitCommand)
    → b.close_time_ms + 1 ≤ t.ends_at_ms
    → first_entry_event es ≡ ok entry
    → active_bar t es b entry.occurred_at_ms ≡ ok (submit c)
    → IsExit t es b c
unfolding active_bar exit_order
active_submits t es b entry c h found k =
    split (exit_trigger t.side t.plan b entry.occurred_at_ms) refl
  where
    split :
        (r : Result ControllerError (Option (CommandKind × ℕ)))
        → exit_trigger t.side t.plan b entry.occurred_at_ms ≡ r
        → IsExit t es b c
    split (err d) l = cc
    split (ok none) l = cc
    split (ok (some (kind, price))) l =
        let (is_kind, capped, quantity, submitted, later, ends) =
          order_lem t es (b.close_time_ms + 1) kind price c h cc in
        record {
          entry = entry;
          price = price;
          enters = found;
          triggered =
              rw (sym is_kind) (trigger_lem t.side t.plan b entry.occurred_at_ms kind price l);
          capped = capped;
          quantity = quantity;
          submitted = submitted;
          expires = (omega arith, ends);
        }

bar_submits :
    (t : Terms) (s : TradeState) (es : List TradeEvent) (b : ClosedBar) (as_of_ms : ℕ)
    (c : ExitCommand)
    → process_closed_bar t s es b as_of_ms ≡ ok (submit c)
    → (s ≡ active) × (b.close_time_ms < as_of_ms) × (b.close_time_ms < t.ends_at_ms)
unfolding process_closed_bar
bar_submits t s es b as_of_ms c h = ground arith

bar_follows :
    (t : Terms) (es : List TradeEvent) (b : ClosedBar) (as_of_ms : ℕ) (entry : TradeEvent)
    (c : ExitCommand)
    → first_entry_event es ≡ ok entry
    → process_closed_bar t active es b as_of_ms ≡ ok (submit c)
    → active_bar t es b entry.occurred_at_ms ≡ ok (submit c)
unfolding process_closed_bar
bar_follows t es b as_of_ms entry c found h = ground arith

-- An exit command is submitted for an active trade only, by a bar that has closed within the session:
-- on the stop wherever the bar reached it, else on the target, else on the timeout alone, at the
-- rounded price of that trigger, for exactly the quantity that the entry filled.
pub Reached-IsExit :
    (j : TradeStore) (s : j.Store) (t : Terms) (b : ClosedBar) (as_of_ms : ℕ) (c : ExitCommand)
    → Reached j s
    → process_closed_bar t (j.state s) (j.events s) b as_of_ms ≡ ok (submit c)
    → (j.state s ≡ active)
      × (b.close_time_ms < as_of_ms)
      × (c.quantity ≡ filled_by is_entry_fill (j.events s))
      × (0 < c.quantity)
      × IsExit t (j.events s) b c
Reached-IsExit j s t b as_of_ms c h k =
    let (is_active, closed, within) = bar_submits t (j.state s) (j.events s) b as_of_ms c k in
    let (no_exit, filled, one) =
      active_journal (j.state s) (j.events s) (Reached-IsJournal j s h) is_active in
    let (entry, found) = first_entry_total (j.events s) one in
    let exit : IsExit t (j.events s) b c =
      active_submits t (j.events s) b entry c (omega arith) found
        (bar_follows t (j.events s) b as_of_ms entry c found (rw (sym is_active) k)) in
    let all_of_it = exit.quantity in (is_active, closed, omega arith, omega arith, exit)
