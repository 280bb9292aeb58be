-- ===== src/Production/Accounting/Conservative.antt =====
-- The charge of a terminal receipt against what the trade has lost.
use kairos_execution_engine.Common.{◌+◌, ◌≤◌, ◌≡◌, subst, arith, ok, checked_returned}
use kairos_execution_engine.Common.Int.{neg_part, neg_part-sub}
use kairos_execution_engine.Production.Database.{Facts}
use kairos_execution_engine.Production.Accounting.{
  Economics, gross_pnl, economics_of, economics_checks, terminal_economics,
}

-- The charge of a release is never less than what the trade has lost net, nor than its fees: a
-- profit and a funding credit offset nothing.
pub terminal_economics-loss_charge :
    (f : Facts) (e : Economics)
    → terminal_economics f ≡ ok e
    → (neg_part e.net_pnl_usd ≤ e.loss_charge_usd) × (e.fees_usd ≤ e.loss_charge_usd)
unfolding terminal_economics economics_of
terminal_economics-loss_charge f e returned =
    let (same, _) = checked_returned (economics_checks f) (economics_of f) returned in
    subst (λ e. (neg_part e.net_pnl_usd ≤ e.loss_charge_usd) × (e.fees_usd ≤ e.loss_charge_usd))
      same
      (
        neg_part-sub (gross_pnl f) (f.entry_fees_usd + f.exit_fees_usd) f.funding_cost_usd,
        omega arith,
      )
