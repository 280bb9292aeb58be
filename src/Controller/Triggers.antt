-- ===== src/Controller/Triggers.antt =====
-- The triggers of a closed bar, and what its checks raise.
use kairos_execution_engine.Common.{
  ℕ, ◌+◌, ◌≤◌, ◌<◌, ◌≡◌, ◌⊎◌, inl, inr, refl, List, [], ◌∷◌, Result, Option, none, some, ok, err,
  arith, length,
}
use kairos_execution_engine.Controller.{
  TradeState, CommandKind, entry_ioc, stop_exit_ioc, Side, long, not_directional, target_exit_ioc,
  timeout_exit_ioc, TradeEvent, ControllerError, cap_not_positive, filled_by, is_entry_fill,
  is_exit_fill, entry_events, first_entry_event,
}
use kairos_execution_engine.Controller.Bars.{
  Terms, ClosedBar, ExitPlan, process_closed_bar, active_bar, exit_order, exit_trigger, crossed,
  adverse_exit_cap,
}

-- The bar reached the stop, or the target.
abbrev pub StopReached : Side → ExitPlan → ClosedBar → Type 0
StopReached long p b = b.low ≤ p.stop_price
StopReached _ p b = p.stop_price ≤ b.high

abbrev pub TargetReached : Side → ExitPlan → ClosedBar → Type 0
TargetReached long p b = p.target_price ≤ b.high
TargetReached _ p b = b.low ≤ p.target_price

-- What a trigger says of its bar.
abbrev pub Triggered : Side → ExitPlan → ClosedBar → ℕ → CommandKind → ℕ → Type 0
Triggered side p b entered_at_ms entry_ioc price = ⊥
Triggered side p b entered_at_ms stop_exit_ioc price = StopReached side p b × (price ≡ p.stop_price)
Triggered side p b entered_at_ms target_exit_ioc price =
    (¬ StopReached side p b) × TargetReached side p b × (price ≡ p.target_price)
Triggered side p b entered_at_ms timeout_exit_ioc price =
    (¬ StopReached side p b)
    × (¬ TargetReached side p b)
    × (entered_at_ms + p.max_holding_ms ≤ b.close_time_ms + 1)
    × (price ≡ b.close)

pub trigger_lem :
    (side : Side) (p : ExitPlan) (b : ClosedBar) (entered_at_ms : ℕ) (kind : CommandKind)
    (price : ℕ)
    → exit_trigger side p b entered_at_ms ≡ ok (some (kind, price))
    → Triggered side p b entered_at_ms kind price
unfolding exit_trigger crossed
trigger_lem side p b at kind price h = ground arith

trigger_raises :
    (side : Side) (p : ExitPlan) (b : ClosedBar) (entered_at_ms : ℕ) (e : ControllerError)
    → exit_trigger side p b entered_at_ms ≡ err e
    → side ≡ not_directional
unfolding exit_trigger crossed
trigger_raises side p b at e h = ground arith

cap_raises :
    (side : Side) (tick price : ℕ) (e : ControllerError)
    → adverse_exit_cap side tick price ≡ err e
    → e ≡ cap_not_positive
unfolding adverse_exit_cap
cap_raises side tick price e h = ground arith

order_raises :
    (t : Terms) (es : List TradeEvent) (at : ℕ) (o : Option (CommandKind × ℕ)) (e : ControllerError)
    → filled_by is_exit_fill es < filled_by is_entry_fill es
    → exit_order t es at o ≡ err e
    → e ≡ cap_not_positive
unfolding exit_order
order_raises t es at none e h k = cc
order_raises t es at (some (kind, price)) e h k =
    ground (arith, cap_raises t.side t.price_tick price e)

pub first_entry_total :
    (es : List TradeEvent)
    → length (entry_events es) ≡ 1
    → (e : TradeEvent) × (first_entry_event es ≡ ok e)
unfolding first_entry_event
first_entry_total es h = one (entry_events es) refl h
  where
    one :
        (ds : List TradeEvent)
        → entry_events es ≡ ds
        → length ds ≡ 1
        → (e : TradeEvent) × (first_entry_event es ≡ ok e)
    one [] k l = absurd (omega arith)
    one (d ∷ []) k l = (d, rw (k, first_entry_event) refl)
    one (d ∷ c ∷ ds) k l = absurd (omega arith)

active_raises :
    (t : Terms) (es : List TradeEvent) (b : ClosedBar) (at : ℕ) (e : ControllerError)
    → filled_by is_exit_fill es < filled_by is_entry_fill es
    → active_bar t es b at ≡ err e
    → (t.side ≡ not_directional) ⊎ (e ≡ cap_not_positive)
unfolding active_bar
active_raises t es b at e h k = split (exit_trigger t.side t.plan b at) refl
  where
    split :
        (r : Result ControllerError (Option (CommandKind × ℕ)))
        → exit_trigger t.side t.plan b at ≡ r
        → (t.side ≡ not_directional) ⊎ (e ≡ cap_not_positive)
    split (err d) l = inl (trigger_raises t.side t.plan b at d l)
    split (ok o) l = inr (order_raises t es (b.close_time_ms + 1) o e h cc)

pub bar_raises :
    (t : Terms) (s : TradeState) (es : List TradeEvent) (b : ClosedBar) (as_of_ms : ℕ)
    (entry : TradeEvent) (raised : ControllerError)
    → first_entry_event es ≡ ok entry
    → filled_by is_exit_fill es < filled_by is_entry_fill es
    → process_closed_bar t s es b as_of_ms ≡ err raised
    → (t.side ≡ not_directional) ⊎ (raised ≡ cap_not_positive)
unfolding process_closed_bar
bar_raises t s es b as_of_ms entry raised one h k =
    ground (arith, active_raises t es b entry.occurred_at_ms raised h)
