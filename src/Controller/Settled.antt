-- ===== src/Controller/Settled.antt =====
-- The result of a terminal trade, in a store that the trade has reached.
use kairos_execution_engine.Common.{
  ℕ, ◌+◌, ◌≤◌, ◌≡◌, ◌⊎◌, inl, inr, refl, true, List, [], ◌∷◌, ◌++◌, Option, none, some, ok, arith,
  sym, ◌∙◌, All, Option-cases,
}
use kairos_execution_engine.Simulation.Models.{Quotient}
use kairos_execution_engine.Controller.{
  TradeState, pending, active, flat, unresolved, no_fill, blocked, TradeEvent, Receipt, CommandKind,
  filled_by, is_entry_fill, is_exit_fill, event_for_receipt, is_terminal, has_fill,
}
use kairos_execution_engine.Controller.Store.{TradeStore}
use kairos_execution_engine.Controller.Bars.{unresolved_event}
use kairos_execution_engine.Controller.Results.{
  Totals, no_totals, last_event, FinalResult, was_filled, empty_result, matched_result,
  terminal_result, ensure_terminal_result,
}
use kairos_execution_engine.Controller.Balance.{
  Balanced, Sound, event_carries, command_receipt-Sound,
}
use kairos_execution_engine.Controller.Evidence.{Evidenced, fill_totals-filled_by}
use kairos_execution_engine.Controller.Lifecycle.{
  Reached, start_trade, process_command, closed_bar, Reached-IsJournal, marked, root_event,
}

last_event-append : (es : List TradeEvent) (e : TradeEvent) → last_event (es ++ e ∷ []) ≡ some e
unfolding last_event
last_event-append [] e = refl
last_event-append (d ∷ es) e = rw (last_event-append es e) refl

-- The receipts held so far are still held, and the new event has its own.
evidence_extends :
    (load load' : ℕ → Option Receipt) (es : List TradeEvent) (e : TradeEvent)
    → ((k : ℕ) (r : Receipt) → load k ≡ some r → load' k ≡ some r)
    → All (Evidenced load) es
    → Evidenced load' e
    → All (Evidenced load') (es ++ e ∷ [])
evidence_extends load load' [] e keeps held new = (new, tt)
evidence_extends load load' (d ∷ es) e keeps (held, rest) new = (
  λ q.
      let w = held q in
      record {
        command_id = w.command_id;
        receipt = w.receipt;
        price = w.price;
        names_command = w.names_command;
        names_receipt = w.names_receipt;
        loads = keeps w.command_id w.receipt w.loads;
        prices = w.prices;
        fills = w.fills;
      },
  evidence_extends load load' es e keeps rest new,
)

Sound-price :
    (r : Receipt)
    → Sound r
    → has_fill r.status ≡ true
    → (price : Quotient) × (r.average_price ≡ some price)
Sound-price r sound h = elim (Option-cases r.average_price) [
  | inl q ↦ absurd (ground arith)
  | inr q ↦ q
]

receipt_evidence :
    (kind : CommandKind) (command_id : ℕ) (r : Receipt) (e : TradeEvent) (s : TradeState)
    (es : List TradeEvent) (load : ℕ → Option Receipt)
    → Sound r
    → event_for_receipt kind command_id r s es ≡ ok e
    → load command_id ≡ some r
    → Evidenced load e
receipt_evidence kind i r e s es load sound h loads q =
    let (names_command, names_receipt, fills, filled) = event_carries kind r es e i s h in
    let (price, prices) = Sound-price r sound (filled q) in
    record {
      command_id = i;
      receipt = r;
      price = price;
      names_command = names_command;
      names_receipt = names_receipt;
      loads = loads;
      prices = prices;
      fills = sym fills;
    }

complete_keeps :
    (j : TradeStore) (s : j.Store) (i : ℕ) (r : Receipt) (e : TradeEvent)
    → j.load_receipt s i ≡ none
    → (k : ℕ) (p : Receipt) → j.load_receipt s k ≡ some p
    → j.load_receipt (j.complete_command s i r e) k ≡ some p
complete_keeps j s i r e new k p h = j.complete-receipt_other s i k r e new (λ q. cc) ∙ h

unresolved_evidence :
    (load : ℕ → Option Receipt) (at : ℕ) (e : TradeEvent)
    → e ≡ unresolved_event at
    → Evidenced load e
unresolved_evidence load at e h q = absurd (ground arith)

Reached-Evidenced :
    (j : TradeStore) (s : j.Store) → Reached j s → All (Evidenced (j.load_receipt s)) (j.events s)
Reached-Evidenced j s (start_trade _ at h k) = rw k (λ q. absurd (ground arith), tt)
Reached-Evidenced j _ (process_command {s = s} kind i receipt_id has_frame o r e before new h k l) =
    rw (j.complete-events s i r e new) (
      evidence_extends (j.load_receipt s) (j.load_receipt (j.complete_command s i r e)) (j.events s)
        e (complete_keeps j s i r e new) (Reached-Evidenced j s before)
        (receipt_evidence kind i r e (j.state s) (j.events s)
          (j.load_receipt (j.complete_command s i r e))
          (command_receipt-Sound receipt_id has_frame o r h k) l (j.complete-receipt s i r e new)))
Reached-Evidenced j _ (closed_bar {s = s} t b as_of e before h) =
    let (_, is_unresolved, _) = marked t b as_of e (j.state s) (j.events s) h in
    rw (j.append-events s e) (
      evidence_extends (j.load_receipt s) (j.load_receipt (j.append_trade_event s e)) (j.events s) e
        (λ k p q. j.append-receipt s e k ∙ q) (Reached-Evidenced j s before)
        (unresolved_evidence (j.load_receipt (j.append_trade_event s e)) (b.close_time_ms + 1) e
          is_unresolved))

matched_settles :
    (s : TradeState) (at : ℕ) (entry exit : Totals)
    → (s ≡ flat) ⊎ (s ≡ unresolved)
    → Balanced s entry.quantity exit.quantity
    → (f : FinalResult) × (matched_result s at entry exit ≡ ok f)
      × (f.final_state ≡ s)
      × (f.entry_filled_quantity ≡ entry.quantity)
      × (f.exit_filled_quantity ≡ exit.quantity)
unfolding matched_result
matched_settles s at entry exit h k = (
  record {
    final_state = s;
    completed_at_ms = at;
    entry_filled_quantity = entry.quantity;
    exit_filled_quantity = exit.quantity;
    fee_quote = entry.fees + exit.fees;
  },
  ground arith,
  refl,
  refl,
  refl,
)

-- A recorded result that agrees with its journal.
pub record IsSettled (s : TradeState) (es : List TradeEvent) (f : FinalResult) : Type 0 where
  pub final_state : f.final_state ≡ s
  pub entry : f.entry_filled_quantity ≡ filled_by is_entry_fill es
  pub exit : f.exit_filled_quantity ≡ filled_by is_exit_fill es
  pub matched : (f.exit_filled_quantity ≤ f.entry_filled_quantity)

filled_settles :
    (times : ℕ → Quotient → ℕ) (load : ℕ → Option Receipt) (s : TradeState) (es : List TradeEvent)
    (at : ℕ)
    → (s ≡ flat) ⊎ (s ≡ unresolved)
    → was_filled s ≡ true
    → All (Evidenced load) es
    → Balanced s (filled_by is_entry_fill es) (filled_by is_exit_fill es)
    → filled_by is_exit_fill es ≤ filled_by is_entry_fill es
    → (f : FinalResult) × (terminal_result times load s es at ≡ ok f) × IsSettled s es f
unfolding terminal_result
filled_settles times load s es at h k evidence balanced less =
    let (entry, entries, counts) =
      fill_totals-filled_by times is_entry_fill load es no_totals (λ e q. inl q) evidence in
    let (exit, exits, sums) =
      fill_totals-filled_by times is_exit_fill load es no_totals (λ e q. inr q) evidence in
    let counts' : entry.quantity ≡ filled_by is_entry_fill es = omega arith in
    let sums' : exit.quantity ≡ filled_by is_exit_fill es = omega arith in
    let (f, returns, is_state, is_entry, is_exit) =
      matched_settles s at entry exit h (rw (counts', sums') balanced) in
    (
      f,
      rw (k, entries, exits, terminal_result) returns,
      record {
        final_state = is_state;
        entry = is_entry ∙ counts';
        exit = is_exit ∙ sums';
        matched = omega arith;
      },
    )

result_settles :
    (times : ℕ → Quotient → ℕ) (load : ℕ → Option Receipt) (s : TradeState) (es : List TradeEvent)
    (at : ℕ)
    → is_terminal s ≡ true
    → All (Evidenced load) es
    → Balanced s (filled_by is_entry_fill es) (filled_by is_exit_fill es)
    → (f : FinalResult) × (terminal_result times load s es at ≡ ok f) × IsSettled s es f
unfolding terminal_result is_terminal
result_settles times load pending es at h evidence balanced = absurd (ground arith)
result_settles times load active es at h evidence balanced = absurd (ground arith)
result_settles times load flat es at h evidence balanced =
    filled_settles times load flat es at (inl refl) refl evidence balanced (omega arith)
result_settles times load unresolved es at h evidence balanced =
    filled_settles times load unresolved es at (inr refl) refl evidence balanced (omega arith)
result_settles times load no_fill es at h evidence balanced = (
  empty_result no_fill at,
  refl,
  record { final_state = refl; entry = omega arith; exit = omega arith; matched = omega arith },
)
result_settles times load blocked es at h evidence balanced = (
  empty_result blocked at,
  refl,
  record { final_state = refl; entry = omega arith; exit = omega arith; matched = omega arith },
)

Reached-last_event :
    (j : TradeStore) (s : j.Store)
    → Reached j s
    → (l : TradeEvent) × (last_event (j.events s) ≡ some l)
unfolding last_event
Reached-last_event j s (start_trade _ at h k) = (root_event at, rw (k, last_event) refl)
Reached-last_event j _
      (process_command {s = s} kind i receipt_id has_frame o r e before new h k l) =
    (e, rw (j.complete-events s i r e new) (last_event-append (j.events s) e))
Reached-last_event j _ (closed_bar {s = s} t b as_of e before h) =
    (e, rw (j.append-events s e) (last_event-append (j.events s) e))

-- A terminal trade always gets its result: none of the evidence checks fails, every fill has its
-- receipt, and the result's quantities are those of the journal's entry fills and exit fills.
pub Reached-ensure_terminal_result :
    (times : ℕ → Quotient → ℕ) (j : TradeStore) (s : j.Store)
    → Reached j s
    → is_terminal (j.state s) ≡ true
    → (f : FinalResult) × (ensure_terminal_result times (j.load_receipt s) (j.state s) (j.events s)
        ≡ ok (some f))
      × IsSettled (j.state s) (j.events s) f
unfolding ensure_terminal_result
Reached-ensure_terminal_result times j s h terminal =
    let (l, last) = Reached-last_event j s h in
    let journal = Reached-IsJournal j s h in
    let (f, returns, settled) =
      result_settles times (j.load_receipt s) (j.state s) (j.events s) l.occurred_at_ms terminal
        (Reached-Evidenced j s h) journal.balanced in
    (f, rw (terminal, last, returns, ensure_terminal_result) refl, settled)
