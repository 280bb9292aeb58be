-- ===== src/Production/Tests/Scene.antt =====
-- One account with an entry, an exit and the evidence for both, for the tests.
use kairos_execution_engine.Common.{ℕ, ◌+◌, ◌*◌, ◌^◌, true, [], ◌∷◌, none, some}
use kairos_execution_engine.Production.Records.{
  Text, new_market_order, position_close_order, buy, sell, armed, disarmed, Message,
  ManagedSigningRequest, CustodyBinding, ManualArmRequest, SignedManualArm, AcceptedManualNonce,
  LiveOperatorState, RiskGeometry, SigningEvidence, Preconditions, Hashes,
}
use kairos_execution_engine.Production.Authorization.{Verifier}

-- Digests that tell the records of the tests apart.
abbrev pub hashes : Hashes
hashes = record {
  context = λ c. c;
  account = λ c. c;
  arm = λ a. a.nonce;
  signed_arm = λ s. s.signature;
  preconditions = λ p. p.owner_identity;
  owner_key = λ k. k.key_id;
  operator = λ o. o.version;
  risk = λ k. k.decision_id;
  reviewed_schema = λ chain. chain;
  signing_effect = λ r decision. decision;
  reservation = λ r b evidence arm. evidence + arm;
  signed_by = λ key arm. true;
}

-- One hundred dollars, and fifty.
abbrev pub dollar_cap : ℕ
dollar_cap = 10 ^ 18

abbrev pub daily_stop : ℕ
daily_stop = 5 * 10 ^ 17

abbrev pub preconditions : Preconditions
preconditions = record {
  context = 1;
  verified_at = 50000;
  valid_until = 400000;
  owner_identity = 7;
  dollar_cap = dollar_cap;
  daily_stop_loss_usd = daily_stop;
}

abbrev pub arm : ManualArmRequest
arm = record {
  context = 1;
  preconditions_sha256 = 7;
  nonce = 5;
  owner_identity = 7;
  created_at = 90000;
  expires_at = 200000;
  dollar_cap = dollar_cap;
  daily_stop_loss_usd = daily_stop;
}

abbrev pub signed_arm : SignedManualArm
signed_arm = record { request = arm; key_id = 3; signature = 9 }

abbrev pub verifier : Verifier
verifier = record {
  preconditions = preconditions;
  owner_key = record {
    owner_identity = 7;
    key_id = 3;
    context = 1;
    valid_from = 0;
    valid_until = 500000;
  };
  owner_key_sha256 = 3;
  owner = 7;
  claim_database_uuid = 8;
  arm_lifetime = 600000;
  max_age = 5000;
}

abbrev pub binding : CustodyBinding
binding = record {
  context = 1;
  chain_id = 16182;
  schema_sha256 = 16182;
  approved_instruments = 42 ∷ [];
  custody_receipt_sha256 = 11;
}

abbrev pub order_id : Text
order_id =
    b'0' ∷ b'0' ∷ b'1' ∷ b'2' ∷ b'3' ∷ b':' ∷ b'0' ∷ b'1' ∷ b'2' ∷ b'3' ∷ b'4' ∷ b'5' ∷ b'6' ∷ b'7'
    ∷ b'8' ∷ b'9' ∷ b'A' ∷ b'B' ∷ b'C' ∷ b'0' ∷ b'1' ∷ b'2' ∷ b'3' ∷ b'4' ∷ b'5' ∷ b'6' ∷ b'7'
    ∷ b'8' ∷ b'9' ∷ b'D' ∷ b'E' ∷ b'F' ∷ []

-- A market entry of fifty dollars.
abbrev pub entry_message : Message
entry_message = record {
  id = some order_id;
  instrument = some 42;
  side = some buy;
  time_in_force_ioc = some true;
  leverage = some 1;
  quantity = none;
  cash_quantity = some (5 * 10 ^ 9);
  limit_price = none;
  stop_price = none;
  price = none;
  type = none;
  order = none;
  chain_id = some 16182;
}

abbrev pub entry : ManagedSigningRequest
entry = record {
  request_id = 21;
  context = 1;
  manual_request_sha256 = 5;
  custody_receipt_sha256 = 11;
  operation = new_market_order;
  message = entry_message;
  expires_at = 110000;
}

-- Ten dollars of risk, with ten thousand of equity.
abbrev pub entry_risk : RiskGeometry
entry_risk = record {
  context = 1;
  decision_id = 31;
  signing_request_id = 21;
  effect_id = 31;
  client_order_id = some order_id;
  operation = new_market_order;
  instrument = 42;
  side = some buy;
  quantity = 0;
  cash_quantity = some (5 * 10 ^ 9);
  price = none;
  stop_price = none;
  protection_type = none;
  trigger_price = none;
  parent_order_id = none;
  leverage = 1;
  worst_case_loss_usd = 10 ^ 17;
  account_equity_usd = 10 ^ 20;
  daily_realized_loss_usd = 0;
  aggregate_open_risk_usd = 0;
  aggregate_open_notional_usd = 0;
  observed_at = 99000;
  valid_until = 115000;
}

abbrev pub nonce_claim : AcceptedManualNonce
nonce_claim = record {
  owner_identity = 7;
  nonce = 5;
  request_sha256 = 5;
  context_sha256 = 1;
  database_uuid = 8;
  claimed_at = 95000;
}

abbrev pub off_state : LiveOperatorState
off_state = record {
  context = 1;
  version = 1;
  state = disarmed;
  arm_nonce = none;
  arm_request_sha256 = none;
  observed_at = 91000;
  changed_at = 91000;
  expires_at = none;
  command_sha256 = 1;
  previous_command_sha256 = 0;
}

abbrev pub on_state : LiveOperatorState
on_state = record {
  context = 1;
  version = 2;
  state = armed;
  arm_nonce = some 5;
  arm_request_sha256 = some 5;
  observed_at = 99500;
  changed_at = 96000;
  expires_at = some 180000;
  command_sha256 = 2;
  previous_command_sha256 = 1;
}

abbrev pub entry_evidence : SigningEvidence
entry_evidence = record {
  owner_arm = signed_arm;
  owner_nonce_claim = nonce_claim;
  operator = some on_state;
  risk = entry_risk;
  exposure = none;
  resolved_at = 99900;
}

-- A close of the whole position.
abbrev pub exit : ManagedSigningRequest
exit = record {
  request_id = 22;
  context = 1;
  manual_request_sha256 = 5;
  custody_receipt_sha256 = 11;
  operation = position_close_order;
  message = record entry_message {
    side = none;
    time_in_force_ioc = none;
    quantity = some (10 ^ 8);
    cash_quantity = none;
  };
  expires_at = 103000;
}

abbrev pub parent_id : Text
parent_id = b'p' ∷ []

abbrev pub exit_evidence : SigningEvidence
exit_evidence = record entry_evidence {
  operator = none;
  risk = record entry_risk {
    decision_id = 32;
    signing_request_id = 22;
    effect_id = 32;
    operation = position_close_order;
    side = some sell;
    quantity = 10 ^ 8;
    cash_quantity = none;
    parent_order_id = some parent_id;
  };
  exposure = some (record {
    context = 1;
    instrument = 42;
    position_side = buy;
    remaining_quantity = 10 ^ 8;
    parent_order_id = parent_id;
    observed_at = 99000;
    valid_until = 104000;
  });
}
