-- ===== src/Controller/Balance.antt =====
-- The balance of entry fills and exit fills that each trade state stands for, and how an event keeps it.
use kairos_execution_engine.Common.{
  is_some, length, and_parts, ℕ, ◌+◌, ◌≤◌, ◌<◌, ◌≡◌, ◌≢◌, ◌⊎◌, true, false, Bool, List, [], ◌∷◌,
  ◌++◌, some, ok, arith,
}
use kairos_execution_engine.Simulation.Models.{FillOutcome, Status}
use kairos_execution_engine.Simulation.Models.Coherent.{
  coherent_outcome, consistent_outcome, bounded_outcome, status_matches,
}
use kairos_execution_engine.Controller.{
  TradeState, pending, active, flat, unresolved, no_fill, blocked, CommandKind, entry_ioc,
  TradeEvent, EventType, Receipt, command_receipt, filled_by, is_entry_fill, is_exit_fill, has_fill,
  entry_outcome, exit_outcome, outcome_of, event_for_receipt, entry_events,
}

-- What a state says of the quantities of its entry fills and of its exit fills.
abbrev pub Balanced : TradeState → ℕ → ℕ → Type 0
Balanced pending entry exit = (entry ≡ 0) × (exit ≡ 0)
Balanced active entry exit = (0 < entry) × (exit ≡ 0)
Balanced flat entry exit = (0 < entry) × (exit ≡ entry)
Balanced unresolved entry exit = exit < entry
Balanced no_fill entry exit = (entry ≡ 0) × (exit ≡ 0)
Balanced blocked entry exit = (entry ≡ 0) × (exit ≡ 0)

pub filled_by-append :
    (is_fill : EventType → Bool) (es : List TradeEvent) (e : TradeEvent)
    → filled_by is_fill (es ++ e ∷ []) ≡ filled_by is_fill es + filled_by is_fill (e ∷ [])
unfolding filled_by
filled_by-append is_fill [] e = omega arith
filled_by-append is_fill (d ∷ es) e = ground (arith, filled_by-append is_fill es e)

status_fills :
    (t : Status) (quantity cancelled requested : ℕ)
    → status_matches t quantity cancelled requested ≡ true
    → 0 < requested
    → ((has_fill t ≡ true) × (0 < quantity)) ⊎ ((has_fill t ≡ false) × (quantity ≡ 0))
status_fills t quantity cancelled requested h k = ground arith

outcome_status :
    (o : FillOutcome)
    → consistent_outcome o ≡ true
    → status_matches o.status o.filled_quantity o.cancelled_quantity o.requested_quantity ≡ true
unfolding consistent_outcome
outcome_status o h = ground arith

outcome_requests : (o : FillOutcome) → bounded_outcome o ≡ true → 0 < o.requested_quantity
unfolding bounded_outcome
outcome_requests o h = ground arith

-- An outcome fills exactly where its status says so.
outcome_fills :
    (o : FillOutcome)
    → coherent_outcome o ≡ true
    → ((has_fill o.status ≡ true) × (0 < o.filled_quantity))
      ⊎ ((has_fill o.status ≡ false) × (o.filled_quantity ≡ 0))
unfolding coherent_outcome
outcome_fills o h =
    let (bounded, consistent) = and_parts (bounded_outcome o) (consistent_outcome o) h in
    status_fills o.status o.filled_quantity o.cancelled_quantity o.requested_quantity
      (outcome_status o consistent) (outcome_requests o bounded)

-- So does its receipt, with an average price where it fills.
abbrev pub Sound : Receipt → Type 0
Sound r =
    ((has_fill r.status ≡ true) × (0 < r.filled_quantity) × (is_some r.average_price ≡ true))
    ⊎ ((has_fill r.status ≡ false) × (r.filled_quantity ≡ 0))

pub command_receipt-Sound :
    (receipt_id : ℕ) (has_frame : Bool) (o : FillOutcome) (r : Receipt)
    → coherent_outcome o ≡ true
    → command_receipt receipt_id has_frame o ≡ ok r
    → Sound r
unfolding command_receipt
command_receipt-Sound receipt_id has_frame o r h k = ground (arith, outcome_fills o h)

-- The balance after a completion.
entry-Balanced :
    (r : Receipt) (es : List TradeEvent) (e : TradeEvent) (command_id : ℕ) (s : TradeState)
    → Sound r
    → Balanced s (filled_by is_entry_fill es) (filled_by is_exit_fill es)
    → event_for_receipt entry_ioc command_id r s es ≡ ok e
    → Balanced e.to_state
        (filled_by is_entry_fill es + filled_by is_entry_fill (e ∷ []))
        (filled_by is_exit_fill es + filled_by is_exit_fill (e ∷ []))
unfolding event_for_receipt outcome_of entry_outcome filled_by
entry-Balanced r es e command_id s sound h k = ground arith

exit-Balanced :
    (kind : CommandKind) (r : Receipt) (es : List TradeEvent) (e : TradeEvent) (command_id : ℕ)
    (s : TradeState)
    → kind ≢ entry_ioc
    → Sound r
    → Balanced s (filled_by is_entry_fill es) (filled_by is_exit_fill es)
    → event_for_receipt kind command_id r s es ≡ ok e
    → Balanced e.to_state
        (filled_by is_entry_fill es + filled_by is_entry_fill (e ∷ []))
        (filled_by is_exit_fill es + filled_by is_exit_fill (e ∷ []))
unfolding event_for_receipt outcome_of exit_outcome filled_by
exit-Balanced kind r es e command_id s other sound h k = ground arith

-- The number of entry fills that a state stands for.
abbrev pub Entered : TradeState → ℕ → Type 0
Entered pending n = n ≡ 0
Entered active n = n ≡ 1
Entered _ n = n ≤ 1

pub entry_events-append :
    (es : List TradeEvent) (e : TradeEvent)
    → length (entry_events (es ++ e ∷ []))
      ≡ length (entry_events es) + length (entry_events (e ∷ []))
unfolding entry_events
entry_events-append [] e = omega arith
entry_events-append (d ∷ es) e = ground (arith, entry_events-append es e)

pub event_entered :
    (kind : CommandKind) (r : Receipt) (es : List TradeEvent) (e : TradeEvent) (command_id : ℕ)
    (s : TradeState) (n : ℕ)
    → Entered s n
    → event_for_receipt kind command_id r s es ≡ ok e
    → Entered e.to_state (n + length (entry_events (e ∷ [])))
unfolding event_for_receipt outcome_of exit_outcome entry_outcome entry_events
event_entered kind r es e command_id s n h k = ground arith

-- A receipt's event refers to its command and its receipt, and carries its quantity.
pub event_carries :
    (kind : CommandKind) (r : Receipt) (es : List TradeEvent) (e : TradeEvent) (command_id : ℕ)
    (s : TradeState)
    → event_for_receipt kind command_id r s es ≡ ok e
    → (e.command_id ≡ some command_id)
      × (e.receipt_id ≡ some r.receipt_id)
      × (e.filled_quantity ≡ r.filled_quantity)
      × ((is_entry_fill e.event_type ≡ true) ⊎ (is_exit_fill e.event_type ≡ true)
          → has_fill r.status ≡ true)
unfolding event_for_receipt outcome_of exit_outcome entry_outcome
event_carries kind r es e command_id s h = ground arith

pub event-Balanced :
    (kind : CommandKind) (r : Receipt) (es : List TradeEvent) (e : TradeEvent) (command_id : ℕ)
    (s : TradeState)
    → Sound r
    → Balanced s (filled_by is_entry_fill es) (filled_by is_exit_fill es)
    → event_for_receipt kind command_id r s es ≡ ok e
    → Balanced e.to_state
        (filled_by is_entry_fill (es ++ e ∷ []))
        (filled_by is_exit_fill (es ++ e ∷ []))
event-Balanced entry_ioc r es e i s sound h k =
    rw (filled_by-append is_entry_fill es e, filled_by-append is_exit_fill es e)
      (entry-Balanced r es e i s sound h k)
event-Balanced kind r es e i s sound h k =
    rw (filled_by-append is_entry_fill es e, filled_by-append is_exit_fill es e)
      (exit-Balanced kind r es e i s (λ q. cc) sound h k)
