-- ===== src/Orders.antt =====
-- kairos_execution/state_machine.py: the order state machine, and the EVEDEX client order ids.
-- An id is the list of its code points; the SHA-256 hex digest of hashlib is a parameter. A
-- timestamp is the day of its UTC date, as a count that may lie before the EVEDEX epoch.
mod Tests
pub mod Transitions
pub mod Ids
use kairos_execution_engine.Common.{
  ℕ, ◌+◌, ◌-◌, ◌*◌, ◌/◌, ◌%◌, Bool, true, false, List, [], ◌∷◌, ◌++◌, leb, ltb, ◌==◌, ◌&&◌, ◌||◌,
  if◌then◌else◌, all, length, Result, ok, err,
}

pub data ExecutionState : Type 0 where
  received submitting acknowledged partially_filled filled cancelled rejected unknown :
      ExecutionState

-- `TERMINAL_STATES`.
unfoldable pub is_terminal : ExecutionState → Bool
is_terminal filled = true
is_terminal cancelled = true
is_terminal rejected = true
is_terminal _ = false

-- `target in _ALLOWED.get(state, set())`.
unfoldable pub is_allowed : ExecutionState → ExecutionState → Bool
is_allowed received submitting = true
is_allowed received rejected = true
is_allowed submitting acknowledged = true
is_allowed submitting partially_filled = true
is_allowed submitting filled = true
is_allowed submitting rejected = true
is_allowed submitting unknown = true
is_allowed acknowledged partially_filled = true
is_allowed acknowledged filled = true
is_allowed acknowledged cancelled = true
is_allowed acknowledged rejected = true
is_allowed acknowledged unknown = true
is_allowed partially_filled partially_filled = true
is_allowed partially_filled filled = true
is_allowed partially_filled cancelled = true
is_allowed partially_filled unknown = true
is_allowed unknown acknowledged = true
is_allowed unknown partially_filled = true
is_allowed unknown filled = true
is_allowed unknown cancelled = true
is_allowed unknown rejected = true
is_allowed _ _ = false

pub record OrderState : Type 0 where
  pub client_order_id : List ℕ
  pub state : ExecutionState

-- The `ValueError` of a refused transition, with the two states of its message.
pub data TransitionError : Type 0 where
  invalid_transition : ExecutionState → ExecutionState → TransitionError

-- `OrderState.transition`: the new record, or the exception, which leaves the object as it was.
unfoldable pub transition : OrderState → ExecutionState → Result TransitionError OrderState
transition o target =
    if is_allowed o.state target
    then ok (record o { state = target })
    else err (invalid_transition o.state target)

-- The object after one call, which a refusal leaves as it was, and after a caller's calls in turn.
unfoldable pub attempt_one : OrderState → ExecutionState → OrderState
attempt_one o t = elim (transition o t) [ err e ↦ o | ok p ↦ p ]

unfoldable pub attempt : OrderState → List ExecutionState → OrderState
attempt o [] = o
attempt o (t ∷ ts) = attempt (attempt_one o t) ts

-- The five decimal digits of `f"{n:05d}"`, for n below 100000.
unfoldable pub five_digits : ℕ → List ℕ
five_digits n =
    (b'0' + n / 10000 % 10)
    ∷ (b'0' + n / 1000 % 10)
    ∷ (b'0' + n / 100 % 10)
    ∷ (b'0' + n / 10 % 10)
    ∷ (b'0' + n % 10)
    ∷ []

pub data IdError : Type 0 where
  day_out_of_range : IdError

-- The EVEDEX branch of `client_order_id`: `today` and `epoch` count days on one scale, and `suffix`
-- is the upper-cased first 26 characters of the digest.
unfoldable pub evedex_client_order_id : ℕ → ℕ → List ℕ → Result IdError (List ℕ)
unfolding five_digits
evedex_client_order_id epoch today suffix =
    if leb epoch today && leb (today - epoch) 99999
    then ok (five_digits (today - epoch) ++ b':' ∷ suffix)
    else err day_out_of_range

abbrev pub is_digit : ℕ → Bool
is_digit c = leb b'0' c && leb c b'9'

-- `[0-9A-Fa-f]`.
abbrev pub is_hex : ℕ → Bool
is_hex c = is_digit c || ((leb b'A' c && leb c b'F') || (leb b'a' c && leb c b'f'))

-- The expression `[0-9]{5}:[0-9A-Fa-f]{26}`, matched in full.
unfoldable pub is_evedex_client_order_id : List ℕ → Bool
is_evedex_client_order_id (a ∷ b ∷ c ∷ d ∷ e ∷ colon ∷ suffix) =
    (is_digit a && (is_digit b && (is_digit c && (is_digit d && is_digit e))))
    && (colon == b':' && (all is_hex suffix && length suffix == 26))
is_evedex_client_order_id _ = false

-- `int(value[:5])`, of five digits.
abbrev pub order_day : List ℕ → ℕ
order_day (a ∷ b ∷ c ∷ d ∷ e ∷ _) =
    (a - b'0') * 10000 + (b - b'0') * 1000 + (c - b'0') * 100 + (d - b'0') * 10 + (e - b'0')
order_day _ = 0

-- `order_day in {current_day, current_day - 1}`, where `epoch + day` is the UTC day of the id.
unfoldable pub is_fresh_evedex_client_order_id : ℕ → ℕ → List ℕ → Bool
unfolding is_evedex_client_order_id
is_fresh_evedex_client_order_id epoch today value =
    is_evedex_client_order_id value
    && (epoch + order_day value == today || epoch + order_day value + 1 == today)
