-- ===== src/Production/Limits/Append.antt =====
-- The totals of an account after one more row.
use kairos_execution_engine.Common.{
  ℕ, ◌+◌, ◌*◌, ◌≤◌, ◌≡◌, refl, ap, ◌∙◌, true, false, List, [], ◌∷◌, ◌++◌, Option, none, some, arith,
  max, min, sum_by, sum_by-append,
}
use kairos_execution_engine.Production.Records.{Digest}
use kairos_execution_engine.Production.Database.{Reservation, Release, select, coalesce}
use kairos_execution_engine.Production.Database.Rows.{select-append, max_by-append, min_by-append}
use kairos_execution_engine.Production.Limits.{
  SchemaVersion, version_3, Totals, release_of, held_risk, held_notional, charge, of_account,
  totals_of, reservation_totals, guard_limits, is_admitted,
}

-- No more than a limit, where there is one.
abbrev pub AtMost : ℕ → Option ℕ → Type 0
AtMost n none = Unit {0}
AtMost n (some limit) = n ≤ limit

-- The open risk is at most one percent of the least equity that its rows were tested with, and the
-- open notional at most the least cap.
pub record IsCovered (t : Totals) : Type 0 where
  pub of_equity : AtMost ((coalesce t.base_risk 0 + t.risk_usd) * 100) t.account_equity
  pub of_cap : AtMost (coalesce t.base_notional 0 + t.notional_usd) t.dollar_cap

-- The rows of an account, its new one added.
unfoldable pub totals_with : SchemaVersion → List Release → Totals → Reservation → Totals
totals_with v releases t new = record {
  risk_usd = t.risk_usd + held_risk v releases new;
  notional_usd = t.notional_usd + held_notional v releases new;
  realized_charge = t.realized_charge + charge v releases new;
  base_risk = some (max new.aggregate_open_risk_usd (coalesce t.base_risk 0));
  base_notional = some (max new.aggregate_open_notional_usd (coalesce t.base_notional 0));
  daily_realized = some (max new.daily_realized_loss_usd (coalesce t.daily_realized 0));
  account_equity =
      some (min new.account_equity_usd (coalesce t.account_equity new.account_equity_usd));
  dollar_cap = some (min new.dollar_cap (coalesce t.dollar_cap new.dollar_cap));
  daily_stop = some (min new.daily_stop_loss_usd (coalesce t.daily_stop new.daily_stop_loss_usd));
}

sum_one :
    {A : Type 0} (f : A → ℕ) (xs : List A) (x : A) → sum_by f (xs ++ x ∷ []) ≡ sum_by f xs + f x
sum_one f xs x = omega (arith, sum_by-append f xs (x ∷ []))

of_append :
    (v : SchemaVersion) (releases : List Release) (mine : List Reservation) (new : Reservation)
    → totals_of v releases (mine ++ new ∷ [])
      ≡ totals_with v releases (totals_of v releases mine) new
unfolding totals_of totals_with
of_append v releases mine new = simp (
  sum_one (held_risk v releases) mine new,
  sum_one (held_notional v releases) mine new,
  sum_one (charge v releases) mine new,
  max_by-append (λ r. r.aggregate_open_risk_usd) mine new,
  max_by-append (λ r. r.aggregate_open_notional_usd) mine new,
  max_by-append (λ r. r.daily_realized_loss_usd) mine new,
  min_by-append (λ r. r.account_equity_usd) mine new,
  min_by-append (λ r. r.dollar_cap) mine new,
  min_by-append (λ r. r.daily_stop_loss_usd) mine new,
)

-- A row of the account joins its totals.
pub reservation_totals-append :
    (v : SchemaVersion) (releases : List Release) (rows : List Reservation) (account : Digest)
    (new : Reservation)
    → of_account account new ≡ true
    → reservation_totals v releases (rows ++ new ∷ []) account
      ≡ totals_with v releases (reservation_totals v releases rows account) new
unfolding reservation_totals
reservation_totals-append v releases rows account new mine =
    ap (totals_of v releases) (select-append (of_account account) rows new ∙ rw mine refl)
    ∙ of_append v releases (select (of_account account) rows) new

append_nil : {A : Type 0} (xs : List A) → xs ++ [] ≡ xs
append_nil [] = refl
append_nil (x ∷ xs) = ap (λ xs. x ∷ xs) (append_nil xs)

-- A row of another account leaves them as they are.
pub reservation_totals-other :
    (v : SchemaVersion) (releases : List Release) (rows : List Reservation) (account : Digest)
    (new : Reservation)
    → of_account account new ≡ false
    → reservation_totals v releases (rows ++ new ∷ []) account
      ≡ reservation_totals v releases rows account
unfolding reservation_totals
reservation_totals-other v releases rows account new other = ap (totals_of v releases) (
    select-append (of_account account) rows new
    ∙ rw other (append_nil (select (of_account account) rows)))

-- What the trigger admits is covered, with the new row's own limits.
pub is_admitted-IsCovered :
    (v : SchemaVersion) (releases : List Release) (t : Totals) (new : Reservation)
    → is_admitted t (guard_limits v t new) new ≡ true
    → IsCovered (totals_with v releases t new)
unfolding is_admitted guard_limits totals_with
is_admitted-IsCovered v releases t new admitted = record {
  of_equity = ground arith;
  of_cap = ground arith;
}

-- The day's loss, the charges of released trades and all open risk are at most the least daily stop.
abbrev pub IsStopped : Totals → Type 0
IsStopped t = AtMost (coalesce t.daily_realized 0 + t.realized_charge + t.risk_usd) t.daily_stop

-- A row that no release has freed is admitted only within the daily stop.
pub is_admitted-IsStopped :
    (releases : List Release) (t : Totals) (new : Reservation)
    → release_of version_3 releases new ≡ none
    → is_admitted t (guard_limits version_3 t new) new ≡ true
    → IsStopped (totals_with version_3 releases t new)
unfolding is_admitted guard_limits totals_with
is_admitted-IsStopped releases t new free admitted = ground arith
