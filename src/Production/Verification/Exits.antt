-- ===== src/Production/Verification/Exits.antt =====
-- The exits that `_verify_evidence` accepts, and the parts of the evidence that it reads.
use kairos_execution_engine.Common.{
  ℕ, ◌+◌, ◌≤◌, ◌<◌, ◌≡◌, refl, sym, ◌∙◌, ◌⊎◌, inl, inr, and_parts, Bool, true, Option, none, some,
  arith, ◌==◌, if_true, Result, ok, err, checked, AllPass, same_gate, ap,
}
use kairos_execution_engine.Production.Records.{
  five_seconds, Side, Message, ManagedSigningRequest, CustodyBinding, buy, sell, other_side,
  LiveOperatorState, ExposureSnapshot, SigningEvidence, Hashes,
}
use kairos_execution_engine.Production.Messages.{
  if_present, MessageError, typed_message, is_exit, is_protection,
}
use kairos_execution_engine.Production.Authorization.{
  same_side, Verifier, AuthorizationError, untypable_message,
}
use kairos_execution_engine.Production.Verification.Accepted.{
  given, verify_evidence_returned, verify_exit_returned,
}
use kairos_execution_engine.Production.Verification.{
  covers, required_side, verify_entry, verify_exit, exit_checks, risk_checks, owner_checks,
  fresh_enough, verify_geometry, verify_evidence,
}

module _ (h : Hashes) (v : Verifier) (r : ManagedSigningRequest) (b : CustodyBinding) where
  owner_same :
      (e : SigningEvidence) (o : Option LiveOperatorState) (now : ℕ)
      → owner_checks h v r (record e { operator = o }) now ≡ owner_checks h v r e now
  unfolding owner_checks
  owner_same e o now = refl

  exit_same :
      (e : SigningEvidence) (o : Option LiveOperatorState) (m : Message) (now : ℕ)
      → verify_exit r b (record e { operator = o }) m now ≡ verify_exit r b e m now
  unfolding verify_exit
  exit_same e o m now = refl

  risk_same :
      (e : SigningEvidence) (o : Option LiveOperatorState) (m : Message) (now : ℕ)
      → is_exit r.operation ≡ true
      → risk_checks h v r b (record e { operator = o }) m now ≡ risk_checks h v r b e m now
  unfolding risk_checks fresh_enough
  risk_same e o m now exit = simp exit

  geometry_same :
      (e : SigningEvidence) (o : Option LiveOperatorState) (m : Message) (now : ℕ)
      → is_exit r.operation ≡ true
      → verify_geometry h v r b (record e { operator = o }) m now ≡ verify_geometry h v r b e m now
  unfolding verify_geometry
  geometry_same e o m now exit =
      same_gate (ap (λ row. checked row tt) (risk_same e o m now exit))
        (rw exit (exit_same e o m now))

  -- Whether an exit is authorized, and what it is refused for, does not depend on the operator's
  -- state: an exit is signed alike where the latch is armed, disarmed, killed, stale or missing.
  pub verify_evidence-operator :
      (e : SigningEvidence) (o : Option LiveOperatorState) (now : ℕ)
      → is_exit r.operation ≡ true
      → verify_evidence h v r b (record e { operator = o }) now ≡ verify_evidence h v r b e now
  unfolding verify_evidence
  verify_evidence-operator e o now exit =
      same_gate (ap (λ row. checked row tt) (owner_same e o now)) (message_same (typed_message r b))
    where
      message_same :
          (m : Result MessageError Message)
          → ◌≡◌ {A = Result AuthorizationError (Unit {0})}
              (elim m [
                | err _ ↦ err untypable_message
                | ok m ↦ verify_geometry h v r b (record e { operator = o }) m now
              ])
              (elim m [ err _ ↦ err untypable_message | ok m ↦ verify_geometry h v r b e m now ])
      message_same (err raised) = refl
      message_same (ok m) = geometry_same e o m now exit

present :
    {A : Type 0} (test : A → Bool) (o : Option A)
    → if_present test o ≡ true
    → (o ≡ none) ⊎ ((a : A) × (o ≡ some a) × (test a ≡ true))
present test none h = inl refl
present test (some a) h = inr (a, refl, h)

pub same_side_lem : (a b : Side) → same_side a b ≡ true → a ≡ b
same_side_lem buy buy h = refl
same_side_lem sell sell h = refl
same_side_lem other_side other_side h = refl
same_side_lem a b h = cc

-- The order of message `m` can only reduce the position of exposure `x`: of its account and its
-- instrument, on the side that its operation needs where it names one, of a quantity that is not above what remains, of a
-- quantity 0 only as a protection of the whole; the exposure is not 5 seconds old, and the
-- request ends with its lease.
pub record IsReducing (r : ManagedSigningRequest) (b : CustodyBinding) (m : Message)
    (x : ExposureSnapshot) (now quantity : ℕ) : Type 0 where
  pub in_context : x.context ≡ b.context
  pub of_instrument : m.instrument ≡ some x.instrument
  pub has_quantity : m.quantity ≡ some quantity
  pub on_side : (m.side ≡ none) ⊎ (m.side ≡ some (required_side r.operation x.position_side))
  pub is_covered : quantity ≤ x.remaining_quantity
  pub is_whole : (0 < quantity) ⊎ (is_protection r.operation ≡ true)
  pub observed : (x.observed_at ≤ now) × (now ≤ x.observed_at + five_seconds)
  pub leased : (now < x.valid_until) × (r.expires_at ≤ x.valid_until)

same_number : (a b : ℕ) → (a == b) ≡ true → a ≡ b
same_number a b h = ground arith

checks_reduce :
    (r : ManagedSigningRequest) (b : CustodyBinding) (e : SigningEvidence) (m : Message)
    (x : ExposureSnapshot) (now : ℕ)
    → AllPass (exit_checks r b m e.risk x now)
    → (quantity : ℕ) × IsReducing r b m x now quantity
unfolding exit_checks
checks_reduce r b e m x now
      (scope, (lease, (deadline, (fresh, (instrument, (side, (quantity, rest))))))) =
    let (i, named, same) = given (λ i. x.instrument == i) m.instrument instrument in
    let (q, has, covered) =
      given (λ q. covers r.operation q x.remaining_quantity) m.quantity quantity in
    (
      q,
      record {
        in_context = ground arith;
        of_instrument = rw named (ap some (sym (same_number x.instrument i same)));
        has_quantity = has;
        on_side = placed (
            present (same_side (required_side r.operation x.position_side)) m.side
              (and_parts _ _ side).1);
        is_covered = ground arith;
        is_whole = ground arith;
        observed = ground arith;
        leased = ground arith;
      },
    )
  where
    placed :
        (m.side ≡ none)
          ⊎ ((s : Side) × (m.side ≡ some s)
              × (same_side (required_side r.operation x.position_side) s ≡ true))
        → (m.side ≡ none) ⊎ (m.side ≡ some (required_side r.operation x.position_side))
    placed (inl absent) = inl absent
    placed (inr (s, named, same)) = inr (
        rw named (ap some (sym (same_side_lem (required_side r.operation x.position_side) s same))))

-- An exit is authorized only against the account's current exposure, which its order can only
-- reduce.
pub verify_evidence-IsReducing :
    (h : Hashes) (v : Verifier) (r : ManagedSigningRequest) (b : CustodyBinding)
    (e : SigningEvidence) (now : ℕ)
    → is_exit r.operation ≡ true
    → verify_evidence h v r b e now ≡ ok tt
    → (m : Message) × (x : ExposureSnapshot) × (quantity : ℕ) × (typed_message r b ≡ ok m)
      × (e.exposure ≡ some x)
      × IsReducing r b m x now quantity
verify_evidence-IsReducing h v r b e now exit accepted =
    let (m, (typed, owned, passed, branch)) = verify_evidence_returned h v r b e now accepted in
    let (x, exposed, checks) =
      verify_exit_returned r b e m now
        (sym (if_true (verify_exit r b e m now) (verify_entry h r b e m now) exit) ∙ branch) in
    let (quantity, reduces) = checks_reduce r b e m x now checks in
    (m, x, quantity, typed, exposed, reduces)
