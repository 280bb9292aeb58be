-- ===== src/Production/Decimal.antt =====
-- Python's default `decimal` context, as the sums and products of `reserve_entry_async`
-- (kairos_execution/production_state.py) use it: 28 significant digits, ties to the even one. A
-- value counts a unit that all operands share.
use kairos_execution_engine.Common.{
  ℕ, zero, suc, ◌+◌, ◌*◌, ◌/◌, ◌%◌, ◌≤◌, ◌<◌, ◌≡◌, ltb, true, false, arith, if◌then◌else◌,
}

-- 10^28: what has no more than 28 digits is below it.
abbrev pub context_limit : ℕ
context_limit = 10000000000000000000000000000

-- The power of ten of the digits past the 28th, on fuel.
unfoldable pub last_place : ℕ → ℕ → ℕ
last_place zero n = 1
last_place (suc fuel) n = elim (ltb n context_limit) [
  | true ↦ 1
  | false ↦ 10 * last_place fuel (n / 10)
]

abbrev half_even : ℕ → ℕ → ℕ → ℕ
half_even q r place =
    if ltb (2 * r) place then q else if ltb place (2 * r) then q + 1 else q + q % 2

-- A value rounded to 28 digits; `n` has fewer than `n` digits to drop, if any.
unfoldable pub round_28 : ℕ → ℕ
round_28 n = elim (ltb n context_limit) [
  | true ↦ n
  | false ↦ let place = last_place n n in half_even (n / place) (n % place) place * place
]

abbrev pub plus_28 : ℕ → ℕ → ℕ
plus_28 m n = round_28 (m + n)

pub round_28-exact : (n : ℕ) → n < context_limit → round_28 n ≡ n
unfolding round_28
round_28-exact n h = ground arith

-- The fuel is enough: what is left of a value at its last place has 28 digits at most.
last_place-fits :
    (fuel n : ℕ) → n ≤ fuel → (0 < last_place fuel n) × (n < context_limit * last_place fuel n)
unfolding last_place
last_place-fits zero n h = ground arith
last_place-fits (suc fuel) n h = ground (arith, last_place-fits fuel (n / 10))
