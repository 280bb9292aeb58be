-- ===== src/Production/Tests/Appends.antt =====
-- Claims with their terminals, and an operator's history.
use kairos_execution_engine.Common.{
  ◌+◌, ◌≡◌, refl, ◌≤◌, inl, inr, List, [], ◌∷◌, none, some, ok, checked,
}
use kairos_execution_engine.Production.Records.{LiveOperatorState}
use kairos_execution_engine.Production.Database.{
  typed_signing, wire_dispatch, ClaimRow, OperatorRow, Database,
}
use kairos_execution_engine.Production.Authorization.{same_command}
use kairos_execution_engine.Production.Claims.{
  TerminalRow, completed, unresolved, ClaimStore, Call, call_claim, call_finish_signing,
  finish_signing, finish_wire, insert_terminal, resolves, terminal_of, load_claim, grants, run,
}
use kairos_execution_engine.Production.Claims.Once.{held, grants-once}
use kairos_execution_engine.Production.Claims.Register.{register, writes, run-writes}
use kairos_execution_engine.Production.Claims.Terminals.{load_claim-run}
use kairos_execution_engine.Production.Claims.Finish.{
  Observed, finish_signing-load_claim, finish_wire-load_claim,
}
use kairos_execution_engine.Production.Operator.{
  arm_checks, guard_revision, guard_next, enforce_operator_append, observation_checks, observation,
  insert_observation, append_operator_observation,
}
use kairos_execution_engine.Production.Operator.History.{
  History, begins, observes, History-same_arm,
}
use kairos_execution_engine.Production.Tests.Scene.{hashes, off_state, on_state}
use kairos_execution_engine.Production.Tests.Account.{before}

abbrev empty_store : ClaimStore
empty_store = record { claims = []; terminals = []; wire_terminals = [] }

abbrev calls : List Call
calls =
    call_claim 1 typed_signing 11 21 77
    ∷ call_claim 1 typed_signing 11 21 77
    ∷ call_claim 2 typed_signing 11 21 78
    ∷ []

grants-once_example :
    grants typed_signing 11 21 empty_store calls + held typed_signing 11 21 empty_store ≤ 1
grants-once_example = grants-once typed_signing 11 21 empty_store calls

run-writes_example :
    register typed_signing 11 21 (run empty_store calls)
    ≡ writes typed_signing 11 21 (register typed_signing 11 21 empty_store) calls
run-writes_example = run-writes typed_signing 11 21 empty_store calls

abbrev signing_claim : ClaimRow
signing_claim = record {
  kind = typed_signing;
  namespace = 11;
  identity = 21;
  request_sha256 = 77;
  context_sha256 = 1;
}

abbrev wire_claim : ClaimRow
wire_claim = record signing_claim { kind = wire_dispatch }

abbrev signed : TerminalRow
signed = record {
  namespace = 11;
  identity = 21;
  request_sha256 = 77;
  terminal_status = completed;
  result_sha256 = some 99;
}

abbrev claimed : ClaimStore
claimed = record { claims = signing_claim ∷ wire_claim ∷ []; terminals = []; wire_terminals = [] }

abbrev finished : ClaimStore
finished = record claimed { terminals = signed ∷ [] }

abbrev dispatched : ClaimStore
dispatched = record claimed { wire_terminals = signed ∷ [] }

signing_finished : finish_signing 1 claimed signed ≡ ok finished
unfolding finish_signing resolves insert_terminal
signing_finished = refl

wire_finished : finish_wire 1 claimed signed ≡ ok dispatched
unfolding finish_wire resolves insert_terminal
wire_finished = refl

finish_signing-load_claim_example : Observed 1 finished typed_signing signed
finish_signing-load_claim_example =
    finish_signing-load_claim 1 claimed finished signed signing_finished

finish_wire-load_claim_example : Observed 1 dispatched wire_dispatch signed
finish_wire-load_claim_example = finish_wire-load_claim 1 claimed dispatched signed wire_finished

claim_loaded : load_claim 1 finished typed_signing 11 21 ≡ ok (some (signing_claim, some signed))
unfolding load_claim terminal_of
claim_loaded = refl

-- A later attempt to call the signature unresolved changes nothing.
abbrev later_calls : List Call
later_calls =
    call_finish_signing 1 (record signed { terminal_status = unresolved; result_sha256 = none })
    ∷ call_claim 1 typed_signing 11 21 77
    ∷ []

load_claim-run_example :
    load_claim 1 (run finished later_calls) typed_signing 11 21
    ≡ ok (some (signing_claim, some signed))
load_claim-run_example =
    load_claim-run 1 typed_signing 11 21 signing_claim signed finished later_calls claim_loaded

-- DISARMED, armed, and observed again.
abbrev off_row : OperatorRow
off_row = record {
  context_sha256 = 1;
  version = 1;
  observed_at = 91000;
  payload = off_state;
  payload_sha256 = 1;
}

abbrev on_row : OperatorRow
on_row = record {
  context_sha256 = 1;
  version = 2;
  observed_at = 99500;
  payload = on_state;
  payload_sha256 = 2;
}

abbrev seen_state : LiveOperatorState
seen_state = record on_state { observed_at = 99800 }

abbrev seen_row : OperatorRow
seen_row = record on_row { observed_at = 99800; payload = seen_state }

abbrev history : List OperatorRow → Database
history rows = record before { operator_observations = rows }

off_observed :
    append_operator_observation hashes 1 (history []) off_state 92000 92100
    ≡ ok (history (off_row ∷ []))
unfolding append_operator_observation insert_observation observation observation_checks
    enforce_operator_append guard_next guard_revision arm_checks same_command checked
off_observed = refl

on_observed :
    append_operator_observation hashes 1 (history (off_row ∷ [])) on_state 99600 99700
    ≡ ok (history (off_row ∷ on_row ∷ []))
unfolding append_operator_observation insert_observation observation observation_checks
    enforce_operator_append guard_next guard_revision arm_checks same_command checked
on_observed = refl

seen_observed :
    append_operator_observation hashes 1 (history (off_row ∷ on_row ∷ [])) seen_state 99900 99950
    ≡ ok (history (off_row ∷ on_row ∷ seen_row ∷ []))
unfolding append_operator_observation insert_observation observation observation_checks
    enforce_operator_append guard_next guard_revision arm_checks same_command checked
seen_observed = refl

seen_history : History hashes (history (off_row ∷ on_row ∷ seen_row ∷ []))
seen_history =
    observes 1 seen_state 99900 99950
      (observes 1 on_state 99600 99700
        (observes 1 off_state 92000 92100 (begins (history []) refl) off_observed) on_observed)
      seen_observed

History-same_arm_example : on_row.version ≡ seen_row.version
History-same_arm_example =
    History-same_arm hashes (history (off_row ∷ on_row ∷ seen_row ∷ [])) on_row seen_row 5 5
      seen_history (inr (inl refl)) (inr (inr (inl refl))) (refl, refl) refl (refl, refl)
      (refl, refl)
