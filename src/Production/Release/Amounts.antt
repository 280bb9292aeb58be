-- ===== src/Production/Release/Amounts.antt =====
-- The amounts of a release, as the code computes them of a receipt's payload and as the database
-- tests them on the receipt's columns.
use kairos_execution_engine.Common.{◌+◌, ◌≡◌, true}
use kairos_execution_engine.Common.Int.{pos, ◌-ℤ◌, pos_part, neg_part, same_ℤ}
use kairos_execution_engine.Production.Database.{Facts, Release, Database}
use kairos_execution_engine.Production.Release.{guard_gross}

-- What the projected columns of a receipt repeat of its payload, as far as amounts go.
record SameAmounts (f g : Facts) : Type 0 where
  side : f.entry_side ≡ g.entry_side
  entry_notional : f.entry_notional_usd ≡ g.entry_notional_usd
  exit_notional : f.exit_notional_usd ≡ g.exit_notional_usd
  entry_fees : f.entry_fees_usd ≡ g.entry_fees_usd
  exit_fees : f.exit_fees_usd ≡ g.exit_fees_usd
  funding_cost : f.funding_cost_usd ≡ g.funding_cost_usd

-- What the trigger, on the row `f` of a receipt, and the CHECK constraints of the releases ask of
-- the amounts of a release.
pub record IsRecomputed (f : Facts) (new : Release) : Type 0 where
  pub gross : same_ℤ new.gross_pnl_usd (guard_gross f) ≡ true
  pub fees : new.fees_usd ≡ f.entry_fees_usd + f.exit_fees_usd
  pub funding : same_ℤ new.funding_cost_usd f.funding_cost_usd ≡ true
  pub net :
      new.net_pnl_usd
      ≡ guard_gross f -ℤ pos (f.entry_fees_usd + f.exit_fees_usd) -ℤ f.funding_cost_usd
  pub charge :
      new.loss_charge_usd
      ≡ neg_part (guard_gross f)
        + (f.entry_fees_usd + f.exit_fees_usd)
        + pos_part f.funding_cost_usd
