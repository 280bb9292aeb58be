-- ===== src/Production/Verification/Entries.antt =====
-- The entries that `_verify_evidence` accepts.
use kairos_execution_engine.Common.{
  ℕ, ◌+◌, ◌*◌, ◌≤◌, ◌<◌, ◌≡◌, refl, ap, subst, sym, ◌∙◌, Bool, true, false, Option, none, some,
  arith, leb, ltb, ◌==◌, if◌then◌else◌, if_false, ok, AllPass, and_parts,
}
use kairos_execution_engine.Production.Records.{
  LatchState, armed, disarmed, killed, SignedManualArm, Message, ManagedSigningRequest,
  CustodyBinding, LiveOperatorState, SigningEvidence, RiskGeometry, ManualArmRequest, Hashes,
}
use kairos_execution_engine.Production.Messages.{typed_message, is_exit, signed_notional}
use kairos_execution_engine.Production.Authorization.{
  Verifier, is_armed, same_option, within_limits, verify_owner_signed_arm, validated_manual_request,
}
use kairos_execution_engine.Production.Verification.{
  is_given, verify_exit, verify_entry, entry_checks, owner_checks, verify_evidence,
}
use kairos_execution_engine.Production.Verification.Accepted.{
  given, verify_evidence_returned, verify_entry_returned,
}

-- The operator's latch is armed by exactly the owner's arm of the evidence, and holds.
pub record IsArmedBy (h : Hashes) (a : ManualArmRequest) (o : LiveOperatorState) (now deadline : ℕ)
    : Type 0 where
  pub is_armed : o.state ≡ armed
  pub by_nonce : o.arm_nonce ≡ some a.nonce
  pub by_request : o.arm_request_sha256 ≡ some (h.arm a)
  pub until : ℕ
  pub leased : o.expires_at ≡ some until
  pub in_time : (a.created_at ≤ now) × (now < a.expires_at)
  pub holds : (now < until) × (deadline ≤ until)

-- The entry risks at most what the owner and the equity allow.
pub record IsBounded (k : RiskGeometry) (a : ManualArmRequest) (notional : ℕ) : Type 0 where
  pub of_cap : k.worst_case_loss_usd ≤ a.dollar_cap
  pub of_day : k.daily_realized_loss_usd + k.worst_case_loss_usd ≤ a.daily_stop_loss_usd
  pub of_trade : k.worst_case_loss_usd * 400 ≤ k.account_equity_usd
  pub of_equity : (k.aggregate_open_risk_usd + k.worst_case_loss_usd) * 100 ≤ k.account_equity_usd
  pub of_notional : k.aggregate_open_notional_usd + notional ≤ a.dollar_cap

limits_bound :
    (k : RiskGeometry) (a : ManualArmRequest) (n : ℕ) → within_limits k a n ≡ true → IsBounded k a n
unfolding within_limits
limits_bound k a n passed = record {
  of_cap = ground arith;
  of_day = ground arith;
  of_trade = ground arith;
  of_equity = ground arith;
  of_notional = ground arith;
}

same_given : (o : Option ℕ) (a : ℕ) → same_option ◌==◌ o (some a) ≡ true → o ≡ some a
same_given none a h = cc
same_given (some b) a h = ap some (ground arith)

latch_armed : (s : LatchState) → is_armed s ≡ true → s ≡ armed
latch_armed armed h = refl
latch_armed disarmed h = cc
latch_armed killed h = cc

arm_in_time :
    (h : Hashes) (v : Verifier) (s : SignedManualArm) (now : ℕ)
    → verify_owner_signed_arm h v s now ≡ true
    → (s.request.created_at ≤ now) × (now < s.request.expires_at)
unfolding verify_owner_signed_arm validated_manual_request
arm_in_time h v s now signed = (ground arith, ground arith)

owner_in_time :
    (h : Hashes) (v : Verifier) (r : ManagedSigningRequest) (e : SigningEvidence) (now : ℕ)
    → is_exit r.operation ≡ false
    → AllPass (owner_checks h v r e now)
    → (e.owner_arm.request.created_at ≤ now) × (now < e.owner_arm.request.expires_at)
unfolding owner_checks
owner_in_time h v r e now entry (signed, rest) =
    arm_in_time h v e.owner_arm now (at_now (is_exit r.operation) entry signed)
  where
    at_now :
        (exit : Bool)
        → exit ≡ false
        → verify_owner_signed_arm h v e.owner_arm
            (if exit then e.owner_nonce_claim.claimed_at else now)
          ≡ true
        → verify_owner_signed_arm h v e.owner_arm now ≡ true
    at_now true entry signed = cc
    at_now false entry signed = signed

entry_armed :
    (h : Hashes) (v : Verifier) (r : ManagedSigningRequest) (b : CustodyBinding)
    (e : SigningEvidence) (m : Message) (o : LiveOperatorState) (now : ℕ)
    → is_exit r.operation ≡ false
    → AllPass (owner_checks h v r e now)
    → AllPass (entry_checks h r b e m o now)
    → IsArmedBy h e.owner_arm.request o now r.expires_at
      × IsBounded e.risk e.owner_arm.request (signed_notional m)
unfolding entry_checks
entry_armed h v r b e m o now entry owned (scope, (latch, (bound, (deadline, (limits, _))))) =
    let (is_on, later) = and_parts _ _ latch in
    let (t, leased, after) = given (ltb now) o.expires_at later in
    let (nonce, request) = and_parts _ _ bound in
    (
      record {
        is_armed = latch_armed o.state is_on;
        by_nonce = same_given o.arm_nonce e.owner_arm.request.nonce nonce;
        by_request = same_given o.arm_request_sha256 (h.arm e.owner_arm.request) request;
        until = t;
        leased = leased;
        in_time = owner_in_time h v r e now entry owned;
        holds = (ground arith, until_deadline t leased);
      },
      limits_bound e.risk e.owner_arm.request (signed_notional m) limits,
    )
  where
    until_deadline : (t : ℕ) → o.expires_at ≡ some t → r.expires_at ≤ t
    until_deadline t leased =
        let before = subst (λ o. is_given (leb r.expires_at) o ≡ true) leased deadline in
        ground arith

-- An entry is authorized only while the operator's latch is armed by the owner's arm of its
-- evidence, until after the request's deadline, and only where it risks no more than a quarter
-- of a percent of the equity, all open risk with it one percent, the day's loss the owner's daily
-- stop, and all notional the owner's cap.
pub verify_evidence-IsArmedBy :
    (h : Hashes) (v : Verifier) (r : ManagedSigningRequest) (b : CustodyBinding)
    (e : SigningEvidence) (now : ℕ)
    → is_exit r.operation ≡ false
    → verify_evidence h v r b e now ≡ ok tt
    → (m : Message) × (o : LiveOperatorState) × (typed_message r b ≡ ok m)
      × (e.operator ≡ some o)
      × IsArmedBy h e.owner_arm.request o now r.expires_at
      × IsBounded e.risk e.owner_arm.request (signed_notional m)
verify_evidence-IsArmedBy h v r b e now entry accepted =
    let (m, (typed, owned, passed, branch)) = verify_evidence_returned h v r b e now accepted in
    let (o, operated, checks) =
      verify_entry_returned h r b e m now
        (sym (if_false (verify_exit r b e m now) (verify_entry h r b e m now) entry) ∙ branch) in
    let (is_on, bounds) = entry_armed h v r b e m o now entry owned checks in
    (m, o, typed, operated, is_on, bounds)
