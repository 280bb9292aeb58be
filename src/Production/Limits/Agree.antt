-- ===== src/Production/Limits/Agree.antt =====
-- The two implementations of the limits agree on every table that its constraints allow, as long
-- as the amounts fit in the digits of the decimal context.
use kairos_execution_engine.Common.{
  ℕ, ◌+◌, ◌*◌, max, leb, ◌<◌, ◌≡◌, refl, Bool, true, false, ◌&&◌, List, [], ◌∷◌, Option, none, some,
  arith, All,
}
use kairos_execution_engine.Production.Records.{Digest}
use kairos_execution_engine.Production.Decimal.{context_limit, plus_28, round_28-exact}
use kairos_execution_engine.Production.Database.{Reservation, Release, select, coalesce}
use kairos_execution_engine.Production.Database.Rows.{Positive, select-All, min_by-Positive}
use kairos_execution_engine.Production.Guard.{is_positive_row}
use kairos_execution_engine.Production.Limits.{
  SchemaVersion, version_2, version_3, Totals, totals_of, Limits, reservation_totals,
  current_limits, guard_limits, is_within, is_admitted, or_default, of_account, realized, charged,
}

abbrev pub IsPositive : Reservation → Type 0
IsPositive r = is_positive_row r ≡ true

default_agrees : (o : Option ℕ) (d : ℕ) → Positive o → or_default o d ≡ coalesce o d
default_agrees none d h = refl
default_agrees (some n) d h = ground arith

zero_agrees : (o : Option ℕ) → or_default o 0 ≡ coalesce o 0
zero_agrees none = refl
zero_agrees (some n) = ground arith

equity_positive :
    (rows : List Reservation) → All IsPositive rows → All (λ r. 0 < r.account_equity_usd) rows
unfolding is_positive_row
equity_positive [] h = tt
equity_positive (r ∷ rs) (h, hs) = (ground arith, equity_positive rs hs)

cap_positive : (rows : List Reservation) → All IsPositive rows → All (λ r. 0 < r.dollar_cap) rows
unfolding is_positive_row
cap_positive [] h = tt
cap_positive (r ∷ rs) (h, hs) = (ground arith, cap_positive rs hs)

stop_positive :
    (rows : List Reservation) → All IsPositive rows → All (λ r. 0 < r.daily_stop_loss_usd) rows
unfolding is_positive_row
stop_positive [] h = tt
stop_positive (r ∷ rs) (h, hs) = (ground arith, stop_positive rs hs)

-- The equity and the three sums that a reservation is tested by fit in 28 digits.
pub record IsPrecise (t : Totals) (l : Limits) (new : Reservation) : Type 0 where
  pub equity : l.account_equity * 25 < context_limit
  pub open_risk : l.base_risk + t.risk_usd + new.risk_usd < context_limit
  pub open_notional : l.base_notional + t.notional_usd + new.notional_usd < context_limit
  pub loss : l.daily_loss + t.risk_usd + new.risk_usd < context_limit

plus_28-exact : (m n : ℕ) → m + n < context_limit → plus_28 m n ≡ m + n
plus_28-exact m n h = round_28-exact (m + n) h

sum_exact : (a b c : ℕ) → a + b + c < context_limit → plus_28 (plus_28 a b) c ≡ a + b + c
sum_exact a b c h = rw (plus_28-exact a b (omega arith)) (plus_28-exact (a + b) c h)

charged-exact :
    (v : SchemaVersion) (loss : ℕ) (t : Totals)
    → loss + realized v t < context_limit
    → charged v loss t ≡ loss + realized v t
charged-exact version_2 loss t h = omega arith
charged-exact version_3 loss t h = plus_28-exact loss t.realized_charge h

limits_agree :
    (v : SchemaVersion) (t : Totals) (new : Reservation)
    → Positive t.account_equity
    → Positive t.dollar_cap
    → Positive t.daily_stop
    → (guard_limits v t new).daily_loss < context_limit
    → current_limits v t new ≡ guard_limits v t new
unfolding current_limits guard_limits
limits_agree v t new equity cap stop small =
    let loss = max new.daily_realized_loss_usd (coalesce t.daily_realized 0) in
    simp (
      zero_agrees t.base_risk,
      zero_agrees t.base_notional,
      zero_agrees t.daily_realized,
      default_agrees t.account_equity new.account_equity_usd equity,
      default_agrees t.dollar_cap new.dollar_cap cap,
      default_agrees t.daily_stop new.daily_stop_loss_usd stop,
      charged-exact v loss t small,
    )

pub current_limits-guard_limits :
    (v : SchemaVersion) (releases : List Release) (rows : List Reservation) (account : Digest)
    (new : Reservation)
    → All IsPositive rows
    → (guard_limits v (reservation_totals v releases rows account) new).daily_loss < context_limit
    → current_limits v (reservation_totals v releases rows account) new
      ≡ guard_limits v (reservation_totals v releases rows account) new
unfolding reservation_totals totals_of
current_limits-guard_limits v releases rows account new h small =
    let mine = select-All IsPositive (of_account account) rows h in
    limits_agree v (reservation_totals v releases rows account) new
      (min_by-Positive (λ r. r.account_equity_usd) (select (of_account account) rows)
        (equity_positive (select (of_account account) rows) mine))
      (min_by-Positive (λ r. r.dollar_cap) (select (of_account account) rows)
        (cap_positive (select (of_account account) rows) mine))
      (min_by-Positive (λ r. r.daily_stop_loss_usd) (select (of_account account) rows)
        (stop_positive (select (of_account account) rows) mine))
      small

and_true : (b : Bool) → (b && true) ≡ b
and_true true = refl
and_true false = refl

quarter_percent : (risk equity : ℕ) → leb (risk * 10000) (equity * 25) ≡ leb (risk * 400) equity
quarter_percent risk equity = ground arith

tests_agree :
    (t : Totals) (l : Limits) (new : Reservation)
    → IsPrecise t l new
    → is_within t l new ≡ is_admitted t l new
unfolding is_within is_admitted
tests_agree t l new precise =
    rw
      (
        sum_exact l.base_risk t.risk_usd new.risk_usd precise.open_risk,
        sum_exact l.base_notional t.notional_usd new.notional_usd precise.open_notional,
        sum_exact l.daily_loss t.risk_usd new.risk_usd precise.loss,
        round_28-exact (l.account_equity * 25) precise.equity,
        round_28-exact l.account_equity (omega (arith, precise.equity)),
        quarter_percent new.risk_usd l.account_equity,
      )
      (simp and_true)

-- On any table that meets its CHECK constraints, and in either schema version,
-- `reserve_entry_async`, which rounds to 28 digits, accepts the amounts of a reservation exactly
-- where the trigger of the database does, which is exact: if 25 times the least equity, and each of
-- the three sums, as the trigger computes them, are less than 10^28 of the amounts' unit.
pub is_within-is_admitted :
    (v : SchemaVersion) (releases : List Release) (rows : List Reservation) (account : Digest)
    (new : Reservation)
    → All IsPositive rows
    → IsPrecise
        (reservation_totals v releases rows account)
        (guard_limits v (reservation_totals v releases rows account) new)
        new
    → is_within
        (reservation_totals v releases rows account)
        (current_limits v (reservation_totals v releases rows account) new)
        new
      ≡ is_admitted
          (reservation_totals v releases rows account)
          (guard_limits v (reservation_totals v releases rows account) new)
          new
is_within-is_admitted v releases rows account new h precise =
    rw (current_limits-guard_limits v releases rows account new h (omega (arith, precise.loss))) (
      tests_agree (reservation_totals v releases rows account)
        (guard_limits v (reservation_totals v releases rows account) new) new precise)
