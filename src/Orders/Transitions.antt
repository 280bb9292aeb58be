-- ===== src/Orders/Transitions.antt =====
-- The order state machine: terminal states are final, and no path leads back.
use kairos_execution_engine.Common.{
  ℕ, ◌≤◌, ◌≡◌, ◌⊎◌, ◌∙◌, refl, ap, inl, inr, true, false, List, [], ◌∷◌, err, arith, Bool-cases,
}
use kairos_execution_engine.Orders.{
  ExecutionState, received, submitting, acknowledged, partially_filled, filled, cancelled, rejected,
  unknown, is_terminal, is_allowed, OrderState, transition, attempt, attempt_one,
  invalid_transition,
}

-- The stage of a state. A transition never goes back a stage.
abbrev pub stage : ExecutionState → ℕ
stage received = 0
stage submitting = 1
stage filled = 3
stage cancelled = 3
stage rejected = 3
stage _ = 2

allowed-stage : (s t : ExecutionState) → is_allowed s t ≡ true → stage s ≤ stage t
unfolding is_allowed
allowed-stage s t h = ground arith

terminal-is_allowed : (s t : ExecutionState) → is_terminal s ≡ true → is_allowed s t ≡ false
unfolding is_allowed is_terminal
terminal-is_allowed s t h = ground arith

next-stage :
    (o : OrderState) (t : ExecutionState)
    → (stage o.state ≤ stage (attempt_one o t).state)
      × ((attempt_one o t).client_order_id ≡ o.client_order_id)
      × (is_terminal o.state ≡ true → attempt_one o t ≡ o)
unfolding attempt_one transition
next-stage o t = ground (arith, allowed-stage o.state t, terminal-is_allowed o.state t)

-- Whatever transitions are attempted, refused ones included: the order's id stays, its stage
-- (RECEIVED, SUBMITTING, then the working states, then the terminal ones) never goes back, and an
-- order in a terminal state does not change at all.
pub attempt_ordered :
    (o : OrderState) (ts : List ExecutionState)
    → (stage o.state ≤ stage (attempt o ts).state)
      × ((attempt o ts).client_order_id ≡ o.client_order_id)
      × (is_terminal o.state ≡ true → attempt o ts ≡ o)
unfolding attempt
attempt_ordered o [] = (omega arith, refl, λ h. refl)
attempt_ordered o (t ∷ ts) =
    let (later, same, final) = next-stage o t in
    let (later', same', final') = attempt_ordered (attempt_one o t) ts in
    (omega arith, same' ∙ same, λ h. final' (ap (λ p. is_terminal p.state) (final h) ∙ h) ∙ final h)

-- The way from a state to FILLED.
unfoldable to_filled : ExecutionState → List ExecutionState
to_filled received = submitting ∷ filled ∷ []
to_filled _ = filled ∷ []

fills_from :
    (id : List ℕ) (s : ExecutionState)
    → is_terminal s ≡ false
    → (attempt (record { client_order_id = id; state = s }) (to_filled s)).state ≡ filled
unfolding attempt attempt_one transition is_terminal is_allowed to_filled
fills_from id received h = refl
fills_from id submitting h = refl
fills_from id acknowledged h = refl
fills_from id partially_filled h = refl
fills_from id unknown h = refl
fills_from id filled h = cc
fills_from id cancelled h = cc
fills_from id rejected h = cc

fills :
    (o : OrderState) → is_terminal o.state ≡ false → (attempt o (to_filled o.state)).state ≡ filled
fills o h = fills_from o.client_order_id o.state h

refuses :
    (o : OrderState)
    → is_terminal o.state ≡ true
    → (t : ExecutionState) → transition o t ≡ err (invalid_transition o.state t)
unfolding transition
refuses o h t = rw (terminal-is_allowed o.state t h) refl

-- From every state that is not terminal, FILLED can be reached; from a terminal state no transition
-- is allowed.
pub terminal_or_live :
    (o : OrderState)
    → ((is_terminal o.state ≡ false)
        × ((ts : List ExecutionState) × ((attempt o ts).state ≡ filled)))
      ⊎ ((is_terminal o.state ≡ true)
          × ((t : ExecutionState) → transition o t ≡ err (invalid_transition o.state t)))
terminal_or_live o = elim (Bool-cases (is_terminal o.state)) [
  | inl h ↦ inr (h, refuses o h)
  | inr h ↦ inl (h, (to_filled o.state, fills o h))
]
