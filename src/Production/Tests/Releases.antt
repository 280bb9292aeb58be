-- ===== src/Production/Tests/Releases.antt =====
-- The release of the scene's entry by its terminal receipt.
use kairos_execution_engine.Common.{◌≡◌, refl, ◌≤◌, [], ◌∷◌, ok, true, false, checked}
use kairos_execution_engine.Common.Int.{pos, negsuc, neg_part}
use kairos_execution_engine.Production.Database.{Release, Database}
use kairos_execution_engine.Production.Accounting.{
  Economics, economics_of, economics_checks, terminal_economics, same_facts, is_settled,
  receipt_checks, verify_terminal_receipt,
}
use kairos_execution_engine.Production.Accounting.Conservative.{terminal_economics-loss_charge}
use kairos_execution_engine.Production.Release.{
  matches_lineage, release_checks, enforce_release, release_constraints, insert_release,
  new_release, in_scope, release_row, release_receipt, accept_terminal_receipt,
}
use kairos_execution_engine.Production.Release.Accept.{
  Accepted, accept_terminal_receipt-Accepted, accept_terminal_receipt-again,
}
use kairos_execution_engine.Production.Tests.Account.{facts, sha256, acceptor, after}

abbrev economics : Economics
economics = record {
  gross_pnl_usd = negsuc 9999999999999999;
  fees_usd = 2000000000000000;
  funding_cost_usd = pos 100000000000000;
  net_pnl_usd = negsuc 12099999999999999;
  loss_charge_usd = 12100000000000000;
}

facts-economics : terminal_economics facts ≡ ok economics
unfolding terminal_economics economics_checks economics_of checked
facts-economics = refl

terminal_economics-loss_charge_example :
    (neg_part economics.net_pnl_usd ≤ economics.loss_charge_usd)
    × (economics.fees_usd ≤ economics.loss_charge_usd)
terminal_economics-loss_charge_example =
    terminal_economics-loss_charge facts economics facts-economics

abbrev release : Release
release = record {
  receipt_id = 61;
  database_uuid = 8;
  context_sha256 = 1;
  account_sha256 = 1;
  effect_id = 31;
  trade_id = 71;
  owner_arm_sha256 = 5;
  reservation_request_sha256 = 36;
  settled_at = 119000;
  receipt_payload_sha256 = 71;
  gross_pnl_usd = economics.gross_pnl_usd;
  fees_usd = economics.fees_usd;
  funding_cost_usd = economics.funding_cost_usd;
  net_pnl_usd = economics.net_pnl_usd;
  loss_charge_usd = economics.loss_charge_usd;
}

abbrev released : Database
released = record after { releases = release ∷ [] }

receipt_accepted :
    accept_terminal_receipt sha256 acceptor after 61 71 124000 124100 ≡ ok (true, released)
unfolding terminal_economics economics_checks economics_of checked same_facts is_settled
    receipt_checks verify_terminal_receipt matches_lineage release_checks enforce_release
    release_constraints insert_release new_release in_scope release_row release_receipt
    accept_terminal_receipt
receipt_accepted = refl

accept_terminal_receipt-Accepted_example : Accepted acceptor after 61 71 true released
accept_terminal_receipt-Accepted_example =
    accept_terminal_receipt-Accepted sha256 acceptor after 61 71 124000 124100 true released
      receipt_accepted

accept_terminal_receipt-again_example :
    accept_terminal_receipt sha256 acceptor released 61 71 500000 500100 ≡ ok (false, released)
accept_terminal_receipt-again_example =
    accept_terminal_receipt-again sha256 acceptor after 61 71 124000 124100 500000 500100 true
      released receipt_accepted
