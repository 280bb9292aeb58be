-- ===== src/Production/Authorization.antt =====
-- signing_authorization.py: the scope, owner, risk and exposure tests of a signing request, with the
-- owner-arm tests of production_readiness.py.
use kairos_execution_engine.Common.{
  ℕ, ◌+◌, ◌-◌, ◌*◌, Bool, true, false, ◌&&◌, [], ◌∷◌, Option, none, some, leb, ltb, ◌==◌, every,
  Result, checked,
}
use kairos_execution_engine.Production.Records.{
  Text, Digest, thirty_seconds, Operation, new_limit_order, new_market_order, new_stop_limit_order,
  position_close_order, new_protection, Side, buy, sell, other_side, ProtectionType, stop_loss,
  take_profit, other_type, LatchState, armed, disarmed, killed, Message, ManagedSigningRequest,
  CustodyBinding, ManualArmRequest, SignedManualArm, AcceptedManualNonce, LiveOperatorState,
  RiskGeometry, Preconditions, OwnerArmKey, Hashes,
}

-- The fields of `ProductionSigningAuthorizationVerifier`.
pub record Verifier : Type 0 where
  pub preconditions : Preconditions
  pub owner_key : OwnerArmKey
  pub owner_key_sha256 : Digest
  pub owner : ℕ
  pub claim_database_uuid : ℕ
  pub arm_lifetime : ℕ
  pub max_age : ℕ

pub data AuthorizationError : Type 0 where
  context_differs custody_differs deadline_out_of_bound : AuthorizationError
  owner_arm_unavailable no_exact_nonce_claim untypable_message : AuthorizationError
  unbound_risk_decision operator_unavailable stale_evidence stale_risk : AuthorizationError
  deadline_past_risk_lease operation_differs geometry_differs : AuthorizationError
  operator_scope operator_not_armed operator_not_bound deadline_past_arm_lease : AuthorizationError
  limit_exceeded no_exposure stale_exposure deadline_past_exposure : AuthorizationError
  exposure_instrument wrong_exit_side exit_too_large wrong_parent wrong_trigger : AuthorizationError

abbrev pub same_text : Text → Text → Bool
same_text [] [] = true
same_text (c ∷ cs) (d ∷ ds) = c == d && same_text cs ds
same_text _ _ = false

abbrev pub same_side : Side → Side → Bool
same_side buy buy = true
same_side sell sell = true
same_side other_side other_side = true
same_side _ _ = false

abbrev pub same_type : ProtectionType → ProtectionType → Bool
same_type stop_loss stop_loss = true
same_type take_profit take_profit = true
same_type other_type other_type = true
same_type _ _ = false

abbrev operation_index : Operation → ℕ
operation_index new_limit_order = 0
operation_index new_market_order = 1
operation_index new_stop_limit_order = 2
operation_index position_close_order = 3
operation_index new_protection = 4

abbrev pub same_operation : Operation → Operation → Bool
same_operation a b = operation_index a == operation_index b

abbrev pub is_armed : LatchState → Bool
is_armed armed = true
is_armed _ = false

-- `field in message and message[field] != value`, denied.
abbrev pub agrees {ℓ} : {A : Type ℓ} → (A → A → Bool) → Option A → Option A → Bool
agrees same none value = true
agrees same (some a) none = false
agrees same (some a) (some b) = same a b

abbrev pub same_option {ℓ} : {A : Type ℓ} → (A → A → Bool) → Option A → Option A → Bool
same_option same none none = true
same_option same (some a) (some b) = same a b
same_option same _ _ = false

abbrev pub latch_index : LatchState → ℕ
latch_index armed = 0
latch_index disarmed = 1
latch_index killed = 2

-- Two latches apart from the time at which they were observed.
unfoldable pub same_command : LiveOperatorState → LiveOperatorState → Bool
same_command p q = every (
    (p.context == q.context)
    ∷ (p.version == q.version)
    ∷ (latch_index p.state == latch_index q.state)
    ∷ same_option ◌==◌ p.arm_nonce q.arm_nonce
    ∷ same_option ◌==◌ p.arm_request_sha256 q.arm_request_sha256
    ∷ (p.changed_at == q.changed_at)
    ∷ same_option ◌==◌ p.expires_at q.expires_at
    ∷ (p.command_sha256 == q.command_sha256)
    ∷ (p.previous_command_sha256 == q.previous_command_sha256)
    ∷ [])

-- `_validate_scope`, of an explicit UTC time.
unfoldable pub validate_scope :
    Hashes
    → Verifier
    → ManagedSigningRequest
    → CustodyBinding
    → ℕ
    → Result AuthorizationError (Unit {0})
validate_scope h v r b now =
    checked
      ((r.context == b.context && r.context == v.preconditions.context, context_differs)
        ∷ (
          r.custody_receipt_sha256 == b.custody_receipt_sha256
              && b.schema_sha256 == h.reviewed_schema b.chain_id,
          custody_differs,
        )
        ∷ (ltb now r.expires_at && leb r.expires_at (now + thirty_seconds), deadline_out_of_bound)
        ∷ [])
      tt

-- The tests of `_validated_manual_request`.
unfoldable pub validated_manual_request :
    Hashes → Preconditions → ManualArmRequest → ℕ → ℕ → ℕ → Bool
validated_manual_request h p a owner now lifetime = every (
    ltb 0 lifetime
    ∷ (a.context == p.context)
    ∷ (a.preconditions_sha256 == h.preconditions p)
    ∷ (a.owner_identity == owner)
    ∷ (a.owner_identity == p.owner_identity)
    ∷ (a.dollar_cap == p.dollar_cap)
    ∷ (a.daily_stop_loss_usd == p.daily_stop_loss_usd)
    ∷ (leb p.verified_at now && ltb now p.valid_until)
    ∷ (leb a.created_at now && (ltb now a.expires_at && leb a.expires_at p.valid_until))
    ∷ leb (a.expires_at - a.created_at) lifetime
    ∷ [])

-- The tests of `_verify_owner_signed_arm`.
unfoldable pub verify_owner_signed_arm : Hashes → Verifier → SignedManualArm → ℕ → Bool
verify_owner_signed_arm h v s now = every (
    (h.owner_key v.owner_key == v.owner_key_sha256)
    ∷ validated_manual_request h v.preconditions s.request v.owner now v.arm_lifetime
    ∷ (v.owner_key.owner_identity == v.owner)
    ∷ (v.owner_key.context == s.request.context)
    ∷ (s.key_id == v.owner_key.key_id)
    ∷ (leb v.owner_key.valid_from s.request.created_at
        && (ltb s.request.created_at s.request.expires_at
            && leb s.request.expires_at v.owner_key.valid_until))
    ∷ (leb v.owner_key.valid_from now && ltb now v.owner_key.valid_until)
    ∷ h.signed_by v.owner_key s
    ∷ [])

-- `request.manual_request_sha256 == arm_digest` and the rest of the nonce claim's test.
unfoldable pub is_claimed :
    Hashes → Verifier → ManagedSigningRequest → ManualArmRequest → AcceptedManualNonce → ℕ → Bool
is_claimed h v r a c now = every (
    (r.manual_request_sha256 == h.arm a)
    ∷ (c.owner_identity == a.owner_identity)
    ∷ (c.nonce == a.nonce)
    ∷ (c.request_sha256 == h.arm a)
    ∷ (c.context_sha256 == h.context a.context)
    ∷ leb c.claimed_at now
    ∷ leb a.created_at c.claimed_at
    ∷ (c.database_uuid == v.claim_database_uuid)
    ∷ [])

unfoldable pub is_bound : Hashes → ManagedSigningRequest → RiskGeometry → Message → Bool
is_bound h r k m =
    k.signing_request_id == r.request_id
    && (k.effect_id == h.signing_effect r k.decision_id
        && same_option same_text k.client_order_id m.id)

-- `not (value > now or now - value > self._max_age)`.
abbrev pub is_fresh : ℕ → ℕ → ℕ → Bool
is_fresh now age value = leb value now && leb (now - value) age

unfoldable pub is_current : RiskGeometry → ℕ → ℕ → Bool
is_current k context now =
    k.context == context
    && (ltb now k.valid_until && leb (k.valid_until - k.observed_at) thirty_seconds)

-- The loop over the fields of the order.
unfoldable pub same_geometry : Message → RiskGeometry → Bool
same_geometry m k =
    agrees same_side m.side k.side
    && (agrees ◌==◌ m.quantity (some k.quantity)
        && (agrees ◌==◌ m.cash_quantity k.cash_quantity
            && (agrees ◌==◌ m.limit_price k.price
                && (agrees ◌==◌ m.stop_price k.stop_price
                    && agrees same_text m.order k.parent_order_id))))

-- The limits of an entry: 0.25% of the equity for one trade, 1% for all, and the owner's two.
unfoldable pub within_limits : RiskGeometry → ManualArmRequest → ℕ → Bool
within_limits k a notional = every (
    leb k.worst_case_loss_usd a.dollar_cap
    ∷ leb (k.daily_realized_loss_usd + k.worst_case_loss_usd) a.daily_stop_loss_usd
    ∷ leb (k.worst_case_loss_usd * 400) k.account_equity_usd
    ∷ leb ((k.aggregate_open_risk_usd + k.worst_case_loss_usd) * 100) k.account_equity_usd
    ∷ leb (k.aggregate_open_notional_usd + notional) a.dollar_cap
    ∷ (k.leverage == 1)
    ∷ [])
