-- ===== src/Orders/Tests.antt =====
-- Orders: the theorems at a concrete order and at a concrete digest.
use kairos_execution_engine.Common.{
  ℕ, ◌+◌, ◌≤◌, ◌<◌, ◌≡◌, ◌↔◌, ◌⊎◌, refl, true, false, List, [], ◌∷◌, ok, err,
}
use kairos_execution_engine.Orders.{
  ExecutionState, received, submitting, partially_filled, filled, cancelled, is_terminal,
  is_allowed, attempt_one, OrderState, transition, attempt, invalid_transition,
  evedex_client_order_id, is_evedex_client_order_id, is_fresh_evedex_client_order_id, order_day,
  day_out_of_range,
}
use kairos_execution_engine.Orders.Transitions.{stage, attempt_ordered, terminal_or_live}
use kairos_execution_engine.Orders.Ids.{generated_fresh}

abbrev new_order : OrderState
new_order = record { client_order_id = b'7' ∷ []; state = received }

abbrev targets : List ExecutionState
targets = submitting ∷ partially_filled ∷ received ∷ cancelled ∷ filled ∷ []

-- RECEIVED to CANCELLED, two refusals on the way.
attempt_test : (attempt new_order targets).state ≡ cancelled
unfolding attempt attempt_one transition is_allowed
attempt_test = refl

attempt_ordered_example :
    (stage new_order.state ≤ stage (attempt new_order targets).state)
    × ((attempt new_order targets).client_order_id ≡ new_order.client_order_id)
    × (is_terminal new_order.state ≡ true → attempt new_order targets ≡ new_order)
attempt_ordered_example = attempt_ordered new_order targets

terminal_or_live_example :
    ((is_terminal new_order.state ≡ false)
      × ((ts : List ExecutionState) × ((attempt new_order ts).state ≡ filled)))
    ⊎ ((is_terminal new_order.state ≡ true)
        × ((t : ExecutionState)
            → transition new_order t ≡ err (invalid_transition new_order.state t)))
terminal_or_live_example = terminal_or_live new_order

abbrev suffix : List ℕ
suffix =
    b'0' ∷ b'1' ∷ b'2' ∷ b'3' ∷ b'4' ∷ b'5' ∷ b'6' ∷ b'7' ∷ b'8' ∷ b'9' ∷ b'A' ∷ b'B' ∷ b'C' ∷ b'0'
    ∷ b'1' ∷ b'2' ∷ b'3' ∷ b'4' ∷ b'5' ∷ b'6' ∷ b'7' ∷ b'8' ∷ b'9' ∷ b'D' ∷ b'E' ∷ b'F' ∷ []

generated_fresh_example :
    ((evedex_client_order_id 20000 20123 suffix ≡ err day_out_of_range)
      × ((20123 < 20000) ⊎ (20000 + 99999 < 20123)))
    ⊎ ((20000 ≤ 20123)
        × (20123 ≤ 20000 + 99999)
        × ((id : List ℕ) × (evedex_client_order_id 20000 20123 suffix ≡ ok id)
            × (is_evedex_client_order_id id ≡ true)
            × (20000 + order_day id ≡ 20123)
            × ((is_fresh_evedex_client_order_id 20000 20124 id ≡ true)
                ↔ ((◌≡◌ {A = ℕ} 20124 20123) ⊎ (◌≡◌ {A = ℕ} 20124 (20123 + 1))))))
generated_fresh_example = generated_fresh 20000 20123 20124 suffix refl refl
