-- ===== src/Production/Flow.antt =====
-- signing_authorization.py: `_resolve_verify_async`, which verifies a request, reserves its entry and
-- verifies it again. The evidence that the source resolves, and the four times that the clocks
-- show, are arguments.
pub mod Reserved
use kairos_execution_engine.Common.{
  ℕ, Bool, true, false, not, leb, ltb, ◌==◌, if◌then◌else◌, Result, ok, err,
}
use kairos_execution_engine.Production.Records.{
  Digest, ManagedSigningRequest, CustodyBinding, SigningEvidence, Hashes,
}
use kairos_execution_engine.Production.Messages.{is_exit}
use kairos_execution_engine.Production.Authorization.{Verifier, AuthorizationError, validate_scope}
use kairos_execution_engine.Production.Verification.{verify_evidence}
use kairos_execution_engine.Production.Database.{Database}
use kairos_execution_engine.Production.Reserve.{reserve_entry}
use kairos_execution_engine.Production.Lineage.{Source, StateError}

pub data FlowError : Type 0 where
  unauthorized : AuthorizationError → FlowError
  clock_backwards : FlowError
  unreserved : StateError → FlowError
  differs_from_decision : FlowError

-- The clocks of a call: before the read, after it, the database's two, and after the reservation.
pub record Clocks : Type 0 where
  pub now : ℕ
  pub checked_at : ℕ
  pub db_now : ℕ
  pub now_at : ℕ
  pub after_reservation : ℕ

-- `_validate_scope` and `_verify_evidence` at one time.
unfoldable pub verify_at :
    Hashes
    → Verifier
    → ManagedSigningRequest
    → CustodyBinding
    → SigningEvidence
    → ℕ
    → Result FlowError (Unit {0})
verify_at h v r b e now = elim (validate_scope h v r b now) [
  | err raised ↦ err (unauthorized raised)
  | ok _ ↦ elim (verify_evidence h v r b e now) [
    | err raised ↦ err (unauthorized raised)
    | ok _ ↦ ok tt
  ]
]

-- The reservation of an entry, and the verification after it.
unfoldable pub reserve_verify :
    Hashes
    → Verifier
    → Source
    → Database
    → ManagedSigningRequest
    → CustodyBinding
    → SigningEvidence
    → Clocks
    → Result FlowError Database
reserve_verify h v c db r b e t = elim (reserve_entry h c db r b e t.db_now t.now_at) [
  | err raised ↦ err (unreserved raised)
  | ok next ↦
      if not (leb t.checked_at t.after_reservation)
      then err clock_backwards
      else elim (verify_at h v r b e t.after_reservation) [
        | err raised ↦ err raised
        | ok _ ↦ ok next
      ]
]

unfoldable pub verify_read :
    Hashes
    → Verifier
    → Source
    → Database
    → ManagedSigningRequest
    → CustodyBinding
    → SigningEvidence
    → Bool
    → Clocks
    → Result FlowError Database
verify_read h v c db r b e reserving t = elim (verify_at h v r b e t.checked_at) [
  | err raised ↦ err raised
  | ok _ ↦
      if reserving
      then (if is_exit r.operation then ok db else reserve_verify h v c db r b e t)
      else ok db
]

-- The database after the call, where it returns its evidence.
unfoldable pub resolve_verify :
    Hashes
    → Verifier
    → Source
    → Database
    → ManagedSigningRequest
    → CustodyBinding
    → SigningEvidence
    → Bool
    → Clocks
    → Result FlowError Database
resolve_verify h v c db r b e reserving t = elim (validate_scope h v r b t.now) [
  | err raised ↦ err (unauthorized raised)
  | ok _ ↦
      if not (leb t.now t.checked_at)
      then err clock_backwards
      else verify_read h v c db r b e reserving t
]

-- `verify_effect_async`: the evidence's decision and effect are the wire envelope's.
unfoldable pub verify_effect :
    Hashes
    → Verifier
    → Source
    → Database
    → ManagedSigningRequest
    → CustodyBinding
    → SigningEvidence
    → Clocks
    → ℕ
    → Digest
    → Result FlowError Database
verify_effect h v c db r b e t decision_id effect_id =
    elim (resolve_verify h v c db r b e false t) [
      | err raised ↦ err raised
      | ok next ↦
          if not (e.risk.decision_id == decision_id)
          then err differs_from_decision
          else if not (e.risk.effect_id == effect_id)
          then err differs_from_decision
          else ok next
    ]
