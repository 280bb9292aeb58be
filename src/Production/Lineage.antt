-- ===== src/Production/Lineage.antt =====
-- production_state.py: what `reserve_entry_async` tests of an entry before it comes to the reservations.
use kairos_execution_engine.Common.{
  ℕ, ◌-◌, Bool, false, ◌&&◌, List, [], ◌∷◌, Option, none, some, leb, ltb, ◌==◌, every, is_some,
}
use kairos_execution_engine.Production.Records.{
  Digest, thirty_seconds, ManagedSigningRequest, CustodyBinding, ManualArmRequest,
  LiveOperatorState, RiskGeometry, SigningEvidence, Hashes,
}
use kairos_execution_engine.Production.Authorization.{same_option, same_command, is_armed}
use kairos_execution_engine.Production.Database.{
  RiskRow, ArmRow, OperatorRow, ClaimRow, manual_nonce, Database, find, latest, select, is_claim,
}
use kairos_execution_engine.Production.Limits.{SchemaVersion}
use kairos_execution_engine.Production.Guard.{is_decision}

-- The source's own scope.
pub record Source : Type 0 where
  pub context : ℕ
  pub schema_version : SchemaVersion
  pub max_snapshot_age : ℕ

pub data StateError : Type 0 where
  wrong_scope no_entry_lineage no_exact_notional loss_not_positive evidence_expired : StateError
  unbound_decision no_accepted_arm no_operator_state operator_changed effect_rebound : StateError
  request_reused exceeds_current_cap append_rejected : StateError

-- The tests before the transaction.
unfoldable pub lineage_checks :
    Hashes
    → Source
    → ManagedSigningRequest
    → CustodyBinding
    → SigningEvidence
    → List (Bool × StateError)
lineage_checks h c r b e =
    (r.context == c.context && b.context == c.context, wrong_scope)
    ∷ (
      every (
          is_some e.operator
          ∷ (e.risk.context == c.context)
          ∷ (e.risk.signing_request_id == r.request_id)
          ∷ (r.manual_request_sha256 == h.arm e.owner_arm.request)
          ∷ (e.owner_arm.request.context == c.context)
          ∷ []),
      no_entry_lineage,
    )
    ∷ []

unfoldable pub lease_holds : Source → RiskGeometry → ManualArmRequest → ℕ → Bool
lease_holds c k a db_now = every (
    leb k.observed_at db_now
    ∷ leb (db_now - k.observed_at) c.max_snapshot_age
    ∷ ltb db_now k.valid_until
    ∷ leb (k.valid_until - k.observed_at) thirty_seconds
    ∷ leb a.created_at db_now
    ∷ ltb db_now a.expires_at
    ∷ [])

unfoldable pub is_persisted : Hashes → RiskGeometry → Option RiskRow → Bool
is_persisted h k none = false
is_persisted h k (some d) =
    d.decision_id == k.decision_id
    && (d.observed_at == k.observed_at && d.payload_sha256 == h.risk k)

-- The arm's row and the claim of its nonce.
unfoldable pub is_accepted :
    Hashes → SigningEvidence → Digest → Option ArmRow → Option ClaimRow → Bool
is_accepted h e context none c = false
is_accepted h e context (some a) none = false
is_accepted h e context (some a) (some c) =
    a.payload_sha256 == h.signed_arm e.owner_arm
    && (c.request_sha256 == h.arm e.owner_arm.request && c.context_sha256 == context)

abbrev after : ℕ → Option ℕ → Bool
after now none = false
after now (some t) = ltb now t

abbrev is_same_state : LiveOperatorState → Option LiveOperatorState → Bool
is_same_state p none = false
is_same_state p (some q) = same_command p q && p.observed_at == q.observed_at

-- The latest operator row against the evidence's.
unfoldable pub is_current_command : Hashes → SigningEvidence → OperatorRow → ℕ → Bool
is_current_command h e o db_now = every (
    (h.operator o.payload == o.payload_sha256)
    ∷ is_same_state o.payload e.operator
    ∷ is_armed o.payload.state
    ∷ same_option ◌==◌ o.payload.arm_nonce (some e.owner_arm.request.nonce)
    ∷ same_option ◌==◌ o.payload.arm_request_sha256 (some (h.arm e.owner_arm.request))
    ∷ after db_now o.payload.expires_at
    ∷ [])

abbrev pub is_nonce : SigningEvidence → ClaimRow → Bool
is_nonce e = is_claim manual_nonce e.owner_arm.request.owner_identity e.owner_arm.request.nonce

abbrev pub is_arm_row : Hashes → Digest → SigningEvidence → ArmRow → Bool
is_arm_row h context e a =
    a.context_sha256 == context
    && (a.request_sha256 == h.arm e.owner_arm.request
        && (a.owner_identity == e.owner_arm.request.owner_identity
            && a.nonce == e.owner_arm.request.nonce))

-- The rows that the transaction reads before the reservations.
unfoldable pub evidence_checks :
    Hashes
    → Source
    → Database
    → ManagedSigningRequest
    → SigningEvidence
    → ℕ
    → List (Bool × StateError)
evidence_checks h c db r e db_now =
    let context = h.context c.context in
    (lease_holds c e.risk e.owner_arm.request db_now, evidence_expired)
    ∷ (
      is_persisted h e.risk (find (is_decision context r.request_id) db.risk_decisions),
      unbound_decision,
    )
    ∷ (
      is_accepted h e context (find (is_arm_row h context e) db.owner_arms)
          (find (is_nonce e) db.claims),
      no_accepted_arm,
    )
    ∷ []

abbrev pub latest_operator : Digest → Database → Option OperatorRow
latest_operator context db =
    latest (λ o. o.observed_at) (select (λ o. o.context_sha256 == context) db.operator_observations)
