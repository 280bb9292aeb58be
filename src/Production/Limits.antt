-- ===== src/Production/Limits.antt =====
-- production_state.py: the totals over an account's reservations and the limits of a new one, as
-- `reserve_entry_async` computes them and as the trigger `enforce_risk_reservation` does.
pub mod Agree
pub mod Append
pub mod Released
use kairos_execution_engine.Common.{
  ℕ, ◌+◌, ◌*◌, Bool, true, false, ◌&&◌, List, [], ◌∷◌, Option, none, some, leb, ltb, ◌==◌,
  if◌then◌else◌, every, sum_by, max, min, is_some,
}
use kairos_execution_engine.Production.Records.{Digest}
use kairos_execution_engine.Production.Decimal.{round_28, plus_28}
use kairos_execution_engine.Production.Database.{
  Reservation, Release, find, select, max_by, min_by, coalesce,
}

-- Schema version 3 joins the accepted releases; version 2 does not.
pub data SchemaVersion : Type 0 where
  version_2 version_3 : SchemaVersion

-- A row of `_reservation_totals_query`.
pub record Totals : Type 0 where
  pub risk_usd : ℕ
  pub notional_usd : ℕ
  pub realized_charge : ℕ
  pub base_risk : Option ℕ
  pub base_notional : Option ℕ
  pub daily_realized : Option ℕ
  pub account_equity : Option ℕ
  pub dollar_cap : Option ℕ
  pub daily_stop : Option ℕ

-- The release that the join finds for a reservation.
unfoldable pub release_of : SchemaVersion → List Release → Reservation → Option Release
release_of version_2 releases r = none
release_of version_3 releases r =
    find (λ a. a.account_sha256 == r.account_sha256 && a.effect_id == r.effect_id) releases

abbrev pub held_risk : SchemaVersion → List Release → Reservation → ℕ
held_risk v releases r = elim (release_of v releases r) [ none ↦ r.risk_usd | some _ ↦ 0 ]

abbrev pub held_notional : SchemaVersion → List Release → Reservation → ℕ
held_notional v releases r = elim (release_of v releases r) [ none ↦ r.notional_usd | some _ ↦ 0 ]

abbrev pub charge : SchemaVersion → List Release → Reservation → ℕ
charge v releases r = elim (release_of v releases r) [ none ↦ 0 | some a ↦ a.loss_charge_usd ]

abbrev pub of_account : Digest → Reservation → Bool
of_account account r = r.account_sha256 == account

-- The aggregates over the rows of an account.
unfoldable pub totals_of : SchemaVersion → List Release → List Reservation → Totals
totals_of v releases mine = record {
  risk_usd = sum_by (held_risk v releases) mine;
  notional_usd = sum_by (held_notional v releases) mine;
  realized_charge = sum_by (charge v releases) mine;
  base_risk = max_by (λ r. r.aggregate_open_risk_usd) mine;
  base_notional = max_by (λ r. r.aggregate_open_notional_usd) mine;
  daily_realized = max_by (λ r. r.daily_realized_loss_usd) mine;
  account_equity = min_by (λ r. r.account_equity_usd) mine;
  dollar_cap = min_by (λ r. r.dollar_cap) mine;
  daily_stop = min_by (λ r. r.daily_stop_loss_usd) mine;
}

unfoldable pub reservation_totals :
    SchemaVersion → List Release → List Reservation → Digest → Totals
reservation_totals v releases rows account = totals_of v releases (select (of_account account) rows)

-- The amounts that a new reservation is tested against.
pub record Limits : Type 0 where
  pub base_risk : ℕ
  pub base_notional : ℕ
  pub daily_loss : ℕ
  pub account_equity : ℕ
  pub dollar_limit : ℕ
  pub daily_limit : ℕ

-- Python's `total or default`: a zero is as good as a NULL.
abbrev pub or_default : Option ℕ → ℕ → ℕ
or_default none d = d
or_default (some n) d = if n == 0 then d else n

-- The realized charge, which version 2 does not read, exact as the database adds it.
abbrev pub realized : SchemaVersion → Totals → ℕ
realized version_2 t = 0
realized version_3 t = t.realized_charge

-- `daily_realized += totals["realized_charge"]`, which version 2 leaves out.
abbrev pub charged : SchemaVersion → ℕ → Totals → ℕ
charged version_2 loss t = loss
charged version_3 loss t = plus_28 loss t.realized_charge

-- The limits of `reserve_entry_async`, from the new row's own amounts.
unfoldable pub current_limits : SchemaVersion → Totals → Reservation → Limits
current_limits v t new = record {
  base_risk = max new.aggregate_open_risk_usd (or_default t.base_risk 0);
  base_notional = max new.aggregate_open_notional_usd (or_default t.base_notional 0);
  daily_loss = charged v (max new.daily_realized_loss_usd (or_default t.daily_realized 0)) t;
  account_equity = min new.account_equity_usd (or_default t.account_equity new.account_equity_usd);
  dollar_limit = min new.dollar_cap (or_default t.dollar_cap new.dollar_cap);
  daily_limit = min new.daily_stop_loss_usd (or_default t.daily_stop new.daily_stop_loss_usd);
}

-- The tests of `reserve_entry_async` on amounts, denied: a reservation is refused where one fails.
-- Its sums, and its products with 0.0025 and 0.01, are rounded by the decimal context.
unfoldable pub is_within : Totals → Limits → Reservation → Bool
is_within t l new =
    let next_risk = plus_28 (plus_28 l.base_risk t.risk_usd) new.risk_usd in
    let next_notional = plus_28 (plus_28 l.base_notional t.notional_usd) new.notional_usd in
    let next_daily_loss = plus_28 (plus_28 l.daily_loss t.risk_usd) new.risk_usd in
    every (
      leb new.risk_usd l.dollar_limit
      ∷ leb (new.risk_usd * 10000) (round_28 (l.account_equity * 25))
      ∷ leb (next_risk * 100) (round_28 l.account_equity)
      ∷ leb next_daily_loss l.daily_limit
      ∷ leb next_notional l.dollar_limit
      ∷ [])

-- The variables of the trigger, and its last IF, denied. The sums and products of `numeric` are
-- exact.
unfoldable pub guard_limits : SchemaVersion → Totals → Reservation → Limits
guard_limits v prior new = record {
  base_risk = max new.aggregate_open_risk_usd (coalesce prior.base_risk 0);
  base_notional = max new.aggregate_open_notional_usd (coalesce prior.base_notional 0);
  daily_loss = max new.daily_realized_loss_usd (coalesce prior.daily_realized 0) + realized v prior;
  account_equity =
      min new.account_equity_usd (coalesce prior.account_equity new.account_equity_usd);
  dollar_limit = min new.dollar_cap (coalesce prior.dollar_cap new.dollar_cap);
  daily_limit = min new.daily_stop_loss_usd (coalesce prior.daily_stop new.daily_stop_loss_usd);
}

unfoldable pub is_admitted : Totals → Limits → Reservation → Bool
is_admitted prior l new =
    leb new.risk_usd l.dollar_limit
    && (leb (new.risk_usd * 400) l.account_equity
        && (leb ((l.base_risk + prior.risk_usd + new.risk_usd) * 100) l.account_equity
            && (leb (l.daily_loss + prior.risk_usd + new.risk_usd) l.daily_limit
                && leb (l.base_notional + prior.notional_usd + new.notional_usd) l.dollar_limit)))
