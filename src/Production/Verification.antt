-- ===== src/Production/Verification.antt =====
-- signing_authorization.py: `_verify_exit` and `_verify_evidence`.
pub mod Accepted
pub mod Entries
pub mod Exits
use kairos_execution_engine.Common.{
  ℕ, ◌-◌, Bool, true, false, not, ◌&&◌, ◌||◌, List, [], ◌∷◌, ◌++◌, Option, none, some, leb, ltb,
  ◌==◌, if◌then◌else◌, Result, ok, err, checked,
}
use kairos_execution_engine.Production.Records.{
  five_seconds, Operation, Side, buy, sell, other_side, Message, ManagedSigningRequest,
  CustodyBinding, LiveOperatorState, RiskGeometry, ExposureSnapshot, SigningEvidence, Hashes,
}
use kairos_execution_engine.Production.Messages.{
  typed_message, if_present, is_exit, is_protection, is_protection_type, signed_notional,
}
use kairos_execution_engine.Production.Authorization.{
  Verifier, AuthorizationError, owner_arm_unavailable, no_exact_nonce_claim, untypable_message,
  unbound_risk_decision, operator_unavailable, stale_evidence, stale_risk, deadline_past_risk_lease,
  operation_differs, geometry_differs, operator_scope, operator_not_armed, operator_not_bound,
  deadline_past_arm_lease, limit_exceeded, no_exposure, stale_exposure, deadline_past_exposure,
  exposure_instrument, wrong_exit_side, exit_too_large, wrong_parent, wrong_trigger, same_text,
  same_side, same_type, same_operation, same_option, is_armed, agrees, verify_owner_signed_arm,
  is_claimed, is_bound, is_fresh, is_current, same_geometry, within_limits,
}

-- "SELL" where the position is "BUY", else "BUY".
abbrev pub exit_side : Side → Side
exit_side buy = sell
exit_side _ = buy

-- A protection names the side of the position, a close the side that reduces it.
abbrev pub required_side : Operation → Side → Side
required_side op position = if is_protection op then position else exit_side position

abbrev pub is_given {ℓ} : {A : Type ℓ} → (A → Bool) → Option A → Bool
is_given test none = false
is_given test (some a) = test a

-- A protection of quantity 0 stands for the whole position.
abbrev pub covers : Operation → ℕ → ℕ → Bool
covers op quantity remaining =
    (is_protection op && quantity == 0) || (ltb 0 quantity && leb quantity remaining)

-- The trigger of a protection.
abbrev same_trigger : Message → RiskGeometry → Bool
same_trigger m k =
    same_option same_type m.type k.protection_type
    && (same_option ◌==◌ m.price k.trigger_price && is_given is_protection_type m.type)

-- The rows of `_verify_exit`, of an exposure that there is.
unfoldable pub exit_checks :
    ManagedSigningRequest
    → CustodyBinding
    → Message
    → RiskGeometry
    → ExposureSnapshot
    → ℕ
    → List (Bool × AuthorizationError)
exit_checks r b m k x now =
    (x.context == b.context, no_exposure)
    ∷ (ltb now x.valid_until && leb (x.valid_until - x.observed_at) five_seconds, stale_exposure)
    ∷ (leb r.expires_at x.valid_until, deadline_past_exposure)
    ∷ (is_fresh now five_seconds x.observed_at, stale_exposure)
    ∷ (is_given (λ i. x.instrument == i) m.instrument, exposure_instrument)
    ∷ (
      is_given (same_side (required_side r.operation x.position_side)) k.side
          && if_present (same_side (required_side r.operation x.position_side)) m.side,
      wrong_exit_side,
    )
    ∷ (is_given (λ q. covers r.operation q x.remaining_quantity) m.quantity, exit_too_large)
    ∷ (if_present (same_text x.parent_order_id) m.order, wrong_parent)
    ∷ (is_given (same_text x.parent_order_id) k.parent_order_id, wrong_parent)
    ∷ (not (is_protection k.operation) || same_trigger m k, wrong_trigger)
    ∷ []

unfoldable pub verify_exit :
    ManagedSigningRequest
    → CustodyBinding
    → SigningEvidence
    → Message
    → ℕ
    → Result AuthorizationError (Unit {0})
verify_exit r b e m now = elim e.exposure [
  | none ↦ err no_exposure
  | some x ↦ checked (exit_checks r b m e.risk x now) tt
]

-- The tests of the operator's state, and the limits, of an entry.
unfoldable pub entry_checks :
    Hashes
    → ManagedSigningRequest
    → CustodyBinding
    → SigningEvidence
    → Message
    → LiveOperatorState
    → ℕ
    → List (Bool × AuthorizationError)
entry_checks h r b e m o now =
    (o.context == b.context && ltb 0 o.version, operator_scope)
    ∷ (is_armed o.state && is_given (ltb now) o.expires_at, operator_not_armed)
    ∷ (
      same_option ◌==◌ o.arm_nonce (some e.owner_arm.request.nonce)
          && same_option ◌==◌ o.arm_request_sha256 (some (h.arm e.owner_arm.request)),
      operator_not_bound,
    )
    ∷ (is_given (leb r.expires_at) o.expires_at, deadline_past_arm_lease)
    ∷ (within_limits e.risk e.owner_arm.request (signed_notional m), limit_exceeded)
    ∷ []

unfoldable pub verify_entry :
    Hashes
    → ManagedSigningRequest
    → CustodyBinding
    → SigningEvidence
    → Message
    → ℕ
    → Result AuthorizationError (Unit {0})
verify_entry h r b e m now = elim e.operator [
  | none ↦ err operator_unavailable
  | some o ↦ checked (entry_checks h r b e m o now) tt
]

-- Each time that has to be fresh: of an exit, not the operator's.
unfoldable pub fresh_enough : Operation → SigningEvidence → ℕ → ℕ → Bool
fresh_enough op e now age =
    is_fresh now age e.resolved_at
    && (is_fresh now age e.risk.observed_at
        && (is_exit op || is_given (λ o. is_fresh now age o.observed_at) e.operator))

-- The rows between the typed message and the two branches.
unfoldable pub risk_checks :
    Hashes
    → Verifier
    → ManagedSigningRequest
    → CustodyBinding
    → SigningEvidence
    → Message
    → ℕ
    → List (Bool × AuthorizationError)
risk_checks h v r b e m now =
    (is_bound h r e.risk m, unbound_risk_decision)
    ∷ (is_exit r.operation || is_given (λ _. true) e.operator, operator_unavailable)
    ∷ (fresh_enough r.operation e now v.max_age, stale_evidence)
    ∷ (is_current e.risk b.context now, stale_risk)
    ∷ (leb r.expires_at e.risk.valid_until, deadline_past_risk_lease)
    ∷ (
      same_operation e.risk.operation r.operation
          && is_given (λ i. e.risk.instrument == i) m.instrument,
      operation_differs,
    )
    ∷ (same_geometry m e.risk, geometry_differs)
    ∷ []

-- An exit is tested with the arm as it was when its nonce was claimed.
abbrev claim_time : Operation → SigningEvidence → ℕ → ℕ
claim_time op e now = if is_exit op then e.owner_nonce_claim.claimed_at else now

unfoldable pub owner_checks :
    Hashes
    → Verifier
    → ManagedSigningRequest
    → SigningEvidence
    → ℕ
    → List (Bool × AuthorizationError)
owner_checks h v r e now =
    (verify_owner_signed_arm h v e.owner_arm (claim_time r.operation e now), owner_arm_unavailable)
    ∷ (is_claimed h v r e.owner_arm.request e.owner_nonce_claim now, no_exact_nonce_claim)
    ∷ []

unfoldable pub verify_geometry :
    Hashes
    → Verifier
    → ManagedSigningRequest
    → CustodyBinding
    → SigningEvidence
    → Message
    → ℕ
    → Result AuthorizationError (Unit {0})
verify_geometry h v r b e m now = elim (checked (risk_checks h v r b e m now) tt) [
  | err raised ↦ err raised
  | ok _ ↦ if is_exit r.operation then verify_exit r b e m now else verify_entry h r b e m now
]

unfoldable pub verify_evidence :
    Hashes
    → Verifier
    → ManagedSigningRequest
    → CustodyBinding
    → SigningEvidence
    → ℕ
    → Result AuthorizationError (Unit {0})
verify_evidence h v r b e now = elim (checked (owner_checks h v r e now) tt) [
  | err raised ↦ err raised
  | ok _ ↦ elim (typed_message r b) [
    | err _ ↦ err untypable_message
    | ok m ↦ verify_geometry h v r b e m now
  ]
]
