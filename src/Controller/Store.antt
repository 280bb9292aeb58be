-- ===== src/Controller/Store.antt =====
-- What the lifecycle relies on in the simulation repository of kairos_persistence: a trade's state is
-- that of its last event, and a completion stores the receipt with the event.
use kairos_execution_engine.Common.{ℕ, ◌≡◌, ◌≢◌, List, [], ◌∷◌, ◌++◌, Option, none, some}
use kairos_execution_engine.Controller.{TradeState, TradeEvent, Receipt}

-- The journal of a trade and the receipts of its commands.
pub record TradeStore : Type 1 where
  pub Store : Type 0
  pub state : Store → TradeState
  pub events : Store → List TradeEvent
  pub load_receipt : Store → ℕ → Option Receipt
  pub append_trade_event : Store → TradeEvent → Store
  pub complete_command : Store → ℕ → Receipt → TradeEvent → Store
  pub append-state : (s : Store) (e : TradeEvent) → state (append_trade_event s e) ≡ e.to_state
  pub append-events :
      (s : Store) (e : TradeEvent) → events (append_trade_event s e) ≡ events s ++ e ∷ []
  pub append-receipt :
      (s : Store) (e : TradeEvent) (i : ℕ)
      → load_receipt (append_trade_event s e) i ≡ load_receipt s i
  pub complete-state :
      (s : Store) (i : ℕ) (r : Receipt) (e : TradeEvent)
      → load_receipt s i ≡ none
      → state (complete_command s i r e) ≡ e.to_state
  pub complete-events :
      (s : Store) (i : ℕ) (r : Receipt) (e : TradeEvent)
      → load_receipt s i ≡ none
      → events (complete_command s i r e) ≡ events s ++ e ∷ []
  pub complete-receipt :
      (s : Store) (i : ℕ) (r : Receipt) (e : TradeEvent)
      → load_receipt s i ≡ none
      → load_receipt (complete_command s i r e) i ≡ some r
  pub complete-receipt_other :
      (s : Store) (i j : ℕ) (r : Receipt) (e : TradeEvent)
      → load_receipt s i ≡ none
      → j ≢ i
      → load_receipt (complete_command s i r e) j ≡ load_receipt s j
