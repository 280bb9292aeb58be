-- ===== src/Production/Tests/Account.antt =====
-- The account's database before its entry, with the terminal receipt of that entry, for the tests.
use kairos_execution_engine.Common.{ℕ, ◌*◌, ◌^◌, true, [], ◌∷◌}
use kairos_execution_engine.Common.Int.{pos}
use kairos_execution_engine.Production.Records.{buy}
use kairos_execution_engine.Production.Database.{
  manual_nonce, Reservation, Facts, TerminalReceipt, Database,
}
use kairos_execution_engine.Production.Limits.{version_3}
use kairos_execution_engine.Production.Lineage.{Source}
use kairos_execution_engine.Production.Release.{Acceptor}
use kairos_execution_engine.Production.Flow.{Clocks}
use kairos_execution_engine.Production.Tests.Scene.{
  entry_evidence, order_id, signed_arm, entry_risk, on_state,
}

abbrev pub source : Source
source = record { context = 1; schema_version = version_3; max_snapshot_age = 5000 }

abbrev pub facts : Facts
facts = record {
  database_uuid = 8;
  context_sha256 = 1;
  account_sha256 = 1;
  trade_id = 71;
  decision_id = 31;
  effect_id = 31;
  signing_request_id = 21;
  client_order_id = order_id;
  owner_arm_sha256 = 5;
  reservation_request_sha256 = 36;
  entry_side = buy;
  entry_filled_quantity = 10;
  closed_quantity = 10;
  entry_notional_usd = 5 * 10 ^ 17;
  exit_notional_usd = 49 * 10 ^ 16;
  entry_fees_usd = 10 ^ 15;
  exit_fees_usd = 10 ^ 15;
  funding_cost_usd = pos (10 ^ 14);
  funding_complete = true;
  venue_complete = true;
  venue_terminal = true;
  collection_started_at = 120000;
  collection_finished_at = 121000;
  observed_at = 122000;
  settled_at = 119000;
  residual_position_quantity = 0;
  residual_order_count = 0;
  residual_protection_count = 0;
  unowned_exposure_count = 0;
}

abbrev pub receipt : TerminalReceipt
receipt = record {
  receipt_id = 61;
  columns = facts;
  payload = facts;
  payload_sha256 = 71;
  inserted_at = 123000;
}

abbrev pub sha256 : Facts → ℕ
sha256 f = f.trade_id

abbrev pub acceptor : Acceptor
acceptor = record { database_uuid = 8; context_sha256 = 1; account_sha256 = 1 }

abbrev pub before : Database
before = record {
  database_uuid = 8;
  account_sha256 = 1;
  risk_decisions =
      record {
        context_sha256 = 1;
        signing_request_id = 21;
        decision_id = 31;
        observed_at = 99000;
        valid_until = 115000;
        payload = entry_risk;
        payload_sha256 = 31;
      }
      ∷ [];
  owner_arms =
      record {
        context_sha256 = 1;
        request_sha256 = 5;
        owner_identity = 7;
        nonce = 5;
        payload = signed_arm;
        payload_sha256 = 9;
      }
      ∷ [];
  operator_observations =
      record {
        context_sha256 = 1;
        version = 2;
        observed_at = 99500;
        payload = on_state;
        payload_sha256 = 2;
      }
      ∷ [];
  claims =
      record {
        kind = manual_nonce;
        namespace = 7;
        identity = 5;
        request_sha256 = 5;
        context_sha256 = 1;
      }
      ∷ [];
  reservations = [];
  terminal_receipts = receipt ∷ [];
  releases = [];
}

abbrev pub row : Reservation
row = record {
  context_sha256 = 1;
  account_sha256 = 1;
  effect_id = 31;
  signing_request_id = 21;
  decision_id = 31;
  owner_arm_sha256 = 5;
  observed_at = 99000;
  risk_usd = entry_evidence.risk.worst_case_loss_usd;
  notional_usd = 500000000000000000;
  account_equity_usd = entry_evidence.risk.account_equity_usd;
  daily_realized_loss_usd = 0;
  aggregate_open_risk_usd = 0;
  aggregate_open_notional_usd = 0;
  dollar_cap = entry_evidence.owner_arm.request.dollar_cap;
  daily_stop_loss_usd = entry_evidence.owner_arm.request.daily_stop_loss_usd;
  evidence_sha256 = 31;
  request_sha256 = 36;
}

-- The database with the entry's reservation.
abbrev pub after : Database
after = record before { reservations = row ∷ [] }

abbrev pub clocks : Clocks
clocks = record {
  now = 99950;
  checked_at = 100000;
  db_now = 100100;
  now_at = 100200;
  after_reservation = 100300;
}
