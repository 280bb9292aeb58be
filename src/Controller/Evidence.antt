-- ===== src/Controller/Evidence.antt =====
-- Every fill of a reached journal has its receipt, so that the result of a terminal trade is recorded.
use kairos_execution_engine.Common.{
  ℕ, ◌+◌, ◌≡◌, ◌⊎◌, inl, inr, refl, true, Bool, List, [], ◌∷◌, Option, some, ok, Bool-cases,
  ==_refl, arith, All,
}
use kairos_execution_engine.Simulation.Models.{Quotient}
use kairos_execution_engine.Controller.{
  TradeEvent, EventType, Receipt, filled_by, is_entry_fill, is_exit_fill,
}
use kairos_execution_engine.Controller.Results.{Totals, fill_receipt, fill_totals, add_fill}

abbrev pub IsFill : TradeEvent → Type 0
IsFill e = (is_entry_fill e.event_type ≡ true) ⊎ (is_exit_fill e.event_type ≡ true)

-- The receipt of an event, as the repository holds it.
pub record Receipted (load : ℕ → Option Receipt) (e : TradeEvent) : Type 0 where
  pub command_id : ℕ
  pub receipt : Receipt
  pub price : Quotient
  pub names_command : e.command_id ≡ some command_id
  pub names_receipt : e.receipt_id ≡ some receipt.receipt_id
  pub loads : load command_id ≡ some receipt
  pub prices : receipt.average_price ≡ some price
  pub fills : receipt.filled_quantity ≡ e.filled_quantity

abbrev pub Evidenced : (ℕ → Option Receipt) → TradeEvent → Type 0
Evidenced load e = IsFill e → Receipted load e

fill_receipt_lem :
    (times : ℕ → Quotient → ℕ) (load : ℕ → Option Receipt) (e : TradeEvent) (w : Receipted load e)
    → fill_receipt times load e ≡ ok (w.receipt, w.price)
unfolding fill_receipt
fill_receipt_lem times load e w =
    ground
      (arith, ==_refl w.receipt.receipt_id, w.names_command, w.loads, w.names_receipt, w.prices)

-- The totals exist, and count what the events say.
pub fill_totals-filled_by :
    (times : ℕ → Quotient → ℕ) (is_fill : EventType → Bool) (load : ℕ → Option Receipt)
    (es : List TradeEvent) (total : Totals)
    → ((e : TradeEvent) → is_fill e.event_type ≡ true → IsFill e)
    → All (Evidenced load) es
    → (result : Totals) × (fill_totals times is_fill load es total ≡ ok result)
      × (result.quantity ≡ total.quantity + filled_by is_fill es)
unfolding fill_totals filled_by
fill_totals-filled_by times is_fill load [] total sub h = (total, refl, omega arith)
fill_totals-filled_by times is_fill load (e ∷ es) total sub (h, hs) =
    elim (Bool-cases (is_fill e.event_type)) [
      | inr skipped ↦
          let (result, returns, counts) =
            fill_totals-filled_by times is_fill load es total sub hs in
          (result, rw (skipped, fill_totals) returns, ground arith)
      | inl counted ↦
          let w = h (sub e counted) in
          let (result, returns, counts) =
            fill_totals-filled_by times is_fill load es (add_fill times total (w.receipt, w.price))
              sub hs in
          (
            result,
            rw (counted, fill_receipt_lem times load e w, fill_totals) returns,
            ground (arith, w.fills),
          )
    ]
