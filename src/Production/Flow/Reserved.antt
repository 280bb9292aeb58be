-- ===== src/Production/Flow/Reserved.antt =====
-- A signed entry is authorized before and after the reservation that covers it.
use kairos_execution_engine.Common.{
  ℕ, ◌+◌, ◌≤◌, ◌<◌, ◌≡◌, refl, sym, subst, ap, ◌∙◌, true, false, some, arith, leb, if_false, Result,
  ok, err, ok-injective, unless_returned, bind_returned, checked_returned,
}
use kairos_execution_engine.Production.Records.{
  thirty_seconds, Message, LiveOperatorState, ManagedSigningRequest, CustodyBinding,
  SigningEvidence, Hashes,
}
use kairos_execution_engine.Production.Messages.{
  typed_message, is_exit, entry_notional_usd, signed_notional,
}
use kairos_execution_engine.Production.Messages.Notional.{typed_notional}
use kairos_execution_engine.Production.Authorization.{Verifier, validate_scope}
use kairos_execution_engine.Production.Verification.{verify_evidence}
use kairos_execution_engine.Production.Verification.Entries.{
  IsArmedBy, IsBounded, verify_evidence-IsArmedBy,
}
use kairos_execution_engine.Production.Database.{Database, Reservation, find}
use kairos_execution_engine.Production.Guard.{is_effect}
use kairos_execution_engine.Production.Reserve.{new_reservation, is_same_reservation, reserve_entry}
use kairos_execution_engine.Production.Lineage.{Source}
use kairos_execution_engine.Production.Reserve.Again.{reserve_entry-is_same_reservation}
use kairos_execution_engine.Production.Flow.{
  FlowError, unauthorized, clock_backwards, unreserved, Clocks, verify_at, reserve_verify,
  verify_read, resolve_verify,
}

-- A step that is raised on keeps its value.
raised_on :
    {E A B : Type 0} (wrap : E → FlowError) (first : Result E A) (next : A → Result FlowError B)
    (value : B)
    → (elim first as (λ _. Result FlowError B) [ err raised ↦ err (wrap raised) | ok a ↦ next a ])
      ≡ ok value
    → (a : A) × (first ≡ ok a) × (next a ≡ ok value)
raised_on wrap (err raised) next value h = cc
raised_on wrap (ok a) next value h = (a, refl, h)

verified :
    (h : Hashes) (v : Verifier) (r : ManagedSigningRequest) (b : CustodyBinding)
    (e : SigningEvidence) (now : ℕ)
    → verify_at h v r b e now ≡ ok tt
    → (validate_scope h v r b now ≡ ok tt) × (verify_evidence h v r b e now ≡ ok tt)
unfolding verify_at
verified h v r b e now passed =
    let (_, scope, rest) = raised_on unauthorized (validate_scope h v r b now) (λ _. _) tt passed in
    let (_, evidence, _) =
      raised_on unauthorized (verify_evidence h v r b e now) (λ _. ok tt) tt rest in
    (scope, evidence)

reserved_row :
    (h : Hashes) (c : Source) (r : ManagedSigningRequest) (b : CustodyBinding) (e : SigningEvidence)
    (p : Reservation) (notional : ℕ)
    → is_same_reservation p (new_reservation h c r b e notional) ≡ true
    → (p.risk_usd ≡ e.risk.worst_case_loss_usd) × (p.notional_usd ≡ notional)
unfolding is_same_reservation new_reservation
reserved_row h c r b e p notional same = (ground arith, ground arith)

deadline_ahead :
    (h : Hashes) (v : Verifier) (r : ManagedSigningRequest) (b : CustodyBinding) (now : ℕ)
    → validate_scope h v r b now ≡ ok tt
    → (now < r.expires_at) × (r.expires_at ≤ now + thirty_seconds)
unfolding validate_scope
deadline_ahead h v r b now scope =
    let (_, (_, (_, (deadline, _)))) = checked_returned _ tt scope in (ground arith, ground arith)

-- The three steps of a call that reserves an entry and returns.
steps :
    (h : Hashes) (v : Verifier) (c : Source) (db next : Database) (r : ManagedSigningRequest)
    (b : CustodyBinding) (e : SigningEvidence) (t : Clocks)
    → is_exit r.operation ≡ false
    → resolve_verify h v c db r b e true t ≡ ok next
    → (verify_at h v r b e t.checked_at ≡ ok tt)
      × (reserve_entry h c db r b e t.db_now t.now_at ≡ ok next)
      × (verify_at h v r b e t.after_reservation ≡ ok tt)
unfolding resolve_verify verify_read reserve_verify
steps h v c db next r b e t is_entry returned =
    let (_, _, read) =
      raised_on unauthorized (validate_scope h v r b t.now) (λ _. _) next returned in
    let (_, checked_read) = unless_returned (leb t.now t.checked_at) clock_backwards read in
    let (_, first, branch) =
      bind_returned (verify_at h v r b e t.checked_at) (λ _. _) checked_read in
    let (put, reserved, again) =
      raised_on unreserved (reserve_entry h c db r b e t.db_now t.now_at) (λ _. _) next
        (sym (if_false _ _ is_entry) ∙ branch) in
    let (_, last) = unless_returned (leb t.checked_at t.after_reservation) clock_backwards again in
    let (_, second, same) =
      bind_returned (verify_at h v r b e t.after_reservation) (λ _. ok put) last in
    (first, reserved ∙ ap ok (ok-injective same), second)

-- The row of an entry that a call has reserved, and what holds of the entry at the end of the call.
pub record IsReserved (h : Hashes) (c : Source) (next : Database) (r : ManagedSigningRequest)
    (b : CustodyBinding) (e : SigningEvidence) (now : ℕ) : Type 0 where
  pub message : Message
  pub operator : LiveOperatorState
  pub row : Reservation
  pub is_typed : typed_message r b ≡ ok message
  pub has_operator : e.operator ≡ some operator
  pub is_armed : IsArmedBy h e.owner_arm.request operator now r.expires_at
  pub is_bounded : IsBounded e.risk e.owner_arm.request (signed_notional message)
  pub is_stored :
      find (is_effect (h.account c.context) e.risk.effect_id) next.reservations ≡ some row
  pub of_risk : row.risk_usd ≡ e.risk.worst_case_loss_usd
  pub of_notional : row.notional_usd ≡ signed_notional message
  pub in_time : (now < r.expires_at) × (r.expires_at ≤ now + thirty_seconds)

-- A call that returns for an entry that it is to reserve has left a row of the entry's effect in the
-- account's table, of its worst-case loss and of the notional that the signed message itself stands
-- for; and at the end of the call the request is not expired, the operator is armed by the owner's
-- arm, and the entry is within its limits.
pub resolve_verify-IsReserved :
    (h : Hashes) (v : Verifier) (c : Source) (db next : Database) (r : ManagedSigningRequest)
    (b : CustodyBinding) (e : SigningEvidence) (t : Clocks)
    → is_exit r.operation ≡ false
    → resolve_verify h v c db r b e true t ≡ ok next
    → IsReserved h c next r b e t.after_reservation
resolve_verify-IsReserved h v c db next r b e t is_entry returned =
    let (_, reserved, second) = steps h v c db next r b e t is_entry returned in
    let (scope, evidence) = verified h v r b e t.after_reservation second in
    let (m, o, typed, operated, is_on, bounds) =
      verify_evidence-IsArmedBy h v r b e t.after_reservation is_entry evidence in
    let (n, notional, p, named, priced, there, same) =
      reserve_entry-is_same_reservation h c db next r b e t.db_now t.now_at is_entry reserved in
    let (risk, amount) = reserved_row h c r b e p notional same in
    record {
      message = m;
      operator = o;
      row = p;
      is_typed = typed;
      has_operator = operated;
      is_armed = is_on;
      is_bounded = bounds;
      is_stored = there;
      of_risk = risk;
      of_notional = amount ∙ priced_alike m n notional typed named priced;
      in_time = deadline_ahead h v r b t.after_reservation scope;
    }
  where
    priced_alike :
        (m n : Message) (notional : ℕ)
        → typed_message r b ≡ ok m
        → typed_message r b ≡ ok n
        → entry_notional_usd n ≡ ok notional
        → notional ≡ signed_notional m
    priced_alike m n notional typed named priced = ok-injective (
        sym (
          subst (λ n. entry_notional_usd n ≡ ok notional) (ok-injective (sym named ∙ typed)) priced)
        ∙ (typed_notional r b m is_entry typed).0)
