-- ===== src/Controller/Progress.antt =====
-- What the completions and the closed bars do to a trade from any store on: they only add to its
-- journal, and every event takes the trade to a later stage.
use kairos_execution_engine.Common.{
  ℕ, ◌+◌, ◌≤◌, ◌<◌, ◌≡◌, ◌∙◌, refl, sym, ap, List, [], ◌∷◌, ◌++◌, none, ok, arith, length,
  length-append,
}
use mathlib.Core.List.{append-nil, append_assoc}
use kairos_execution_engine.Controller.{
  TradeState, pending, active, CommandKind, TradeEvent, Receipt, event_for_receipt, outcome_of,
  entry_outcome, exit_outcome,
}
use kairos_execution_engine.Controller.Store.{TradeStore}
use kairos_execution_engine.Controller.Bars.{Terms, ClosedBar, mark_unresolved, process_closed_bar}
use kairos_execution_engine.Controller.Lifecycle.{marked}

-- The stores that completions of any commands, and closed bars of any terms, lead to from a store.
pub data Advances (j : TradeStore) (s : j.Store) : j.Store → Type 0 where
  stays : Advances j s s
  completes :
      {t : j.Store} (kind : CommandKind) (command_id : ℕ) (r : Receipt) (e : TradeEvent)
      → Advances j s t
      → j.load_receipt t command_id ≡ none
      → event_for_receipt kind command_id r (j.state t) (j.events t) ≡ ok e
      → Advances j s (j.complete_command t command_id r e)
  closes :
      {t : j.Store} (terms : Terms) (b : ClosedBar) (as_of_ms : ℕ) (e : TradeEvent)
      → Advances j s t
      → process_closed_bar terms (j.state t) (j.events t) b as_of_ms ≡ ok (mark_unresolved e)
      → Advances j s (j.append_trade_event t e)

-- PENDING, then ACTIVE, then the terminal states.
abbrev pub stage : TradeState → ℕ
stage pending = 0
stage active = 1
stage _ = 2

-- The state after the events of a list, from a state on.
abbrev pub state_after : TradeState → List TradeEvent → TradeState
state_after s [] = s
state_after s (e ∷ es) = state_after e.to_state es

-- The events that were added to a journal, each of a later stage than the state before it.
pub record IsProgress (s t : TradeState) (before after : List TradeEvent) : Type 0 where
  pub added : List TradeEvent
  pub journal : after ≡ before ++ added
  pub state : t ≡ state_after s added
  pub rises : length added + stage s ≤ stage t
  pub few : length added + stage s ≤ 2

state_after-append :
    (s : TradeState) (es : List TradeEvent) (e : TradeEvent)
    → state_after s (es ++ e ∷ []) ≡ e.to_state
state_after-append s [] e = refl
state_after-append s (d ∷ es) e = state_after-append d.to_state es e

at_most_two : (s : TradeState) → stage s ≤ 2
at_most_two s = ground arith

event_rises :
    (kind : CommandKind) (command_id : ℕ) (r : Receipt) (s : TradeState) (es : List TradeEvent)
    (e : TradeEvent)
    → event_for_receipt kind command_id r s es ≡ ok e
    → stage s < stage e.to_state
unfolding event_for_receipt outcome_of entry_outcome exit_outcome
event_rises kind command_id r s es e h = ground arith

add_event :
    (s t : TradeState) (before after : List TradeEvent) (e : TradeEvent)
    → IsProgress s t before after
    → stage t < stage e.to_state
    → IsProgress s e.to_state before (after ++ e ∷ [])
add_event s t before after e p h = record {
  added = p.added ++ e ∷ [];
  journal = ap (λ es. es ++ e ∷ []) p.journal ∙ append_assoc before p.added (e ∷ []);
  state = sym (state_after-append s p.added e);
  rises = omega (arith, p.rises, length-append p.added (e ∷ []));
  few = omega (arith, p.rises, length-append p.added (e ∷ []), at_most_two e.to_state);
}

-- Whatever commands are completed and bars are closed from a store on, in any order: the journal
-- keeps its events and only gets new ones at its end, the state is that of the last event, and each
-- event takes the trade from PENDING to ACTIVE or a terminal state, or from ACTIVE to a terminal
-- state. So a pending trade gets two events at most, an active one one, and a terminal one keeps
-- its journal and its state.
pub Advances-IsProgress :
    (j : TradeStore) (s t : j.Store)
    → Advances j s t
    → IsProgress (j.state s) (j.state t) (j.events s) (j.events t)
Advances-IsProgress j s _ stays = record {
  added = [];
  journal = sym (append-nil (j.events s));
  state = refl;
  rises = omega arith;
  few = omega (arith, at_most_two (j.state s));
}
Advances-IsProgress j s _ (completes {t = t} kind i r e before new h) =
    rw (j.complete-state t i r e new, j.complete-events t i r e new)
      (add_event (j.state s) (j.state t) (j.events s) (j.events t) e
        (Advances-IsProgress j s t before) (event_rises kind i r (j.state t) (j.events t) e h))
Advances-IsProgress j s _ (closes {t = t} terms b as_of e before h) =
    let (from_active, to_unresolved, _) = marked terms b as_of e (j.state t) (j.events t) h in
    rw (j.append-state t e, j.append-events t e)
      (add_event (j.state s) (j.state t) (j.events s) (j.events t) e
        (Advances-IsProgress j s t before) (rw (from_active, to_unresolved) (omega arith)))
