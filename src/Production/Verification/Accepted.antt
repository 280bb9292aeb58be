-- ===== src/Production/Verification/Accepted.antt =====
-- What an accepted `_verify_evidence` has passed, stage by stage.
use kairos_execution_engine.Common.{
  ℕ, ◌≡◌, refl, Bool, true, Option, none, some, if◌then◌else◌, Result, ok, err, checked,
  bind_returned, AllPass, checked_returned,
}
use kairos_execution_engine.Production.Records.{
  Message, ManagedSigningRequest, CustodyBinding, LiveOperatorState, ExposureSnapshot,
  SigningEvidence, Hashes,
}
use kairos_execution_engine.Production.Messages.{MessageError, typed_message, is_exit}
use kairos_execution_engine.Production.Authorization.{
  Verifier, AuthorizationError, untypable_message, operator_unavailable,
}
use kairos_execution_engine.Production.Verification.{
  is_given, verify_exit, verify_entry, entry_checks, exit_checks, risk_checks, owner_checks,
  verify_geometry, verify_evidence,
}

pub given :
    {A : Type 0} (test : A → Bool) (o : Option A)
    → is_given test o ≡ true
    → (a : A) × (o ≡ some a) × (test a ≡ true)
given test none h = cc
given test (some a) h = (a, refl, h)

module _ (h : Hashes) (v : Verifier) (r : ManagedSigningRequest) (b : CustodyBinding)
    (e : SigningEvidence) (now : ℕ) where
  geometry_returned :
      (m : Message)
      → verify_geometry h v r b e m now ≡ ok tt
      → AllPass (risk_checks h v r b e m now)
        × ((if is_exit r.operation then verify_exit r b e m now else verify_entry h r b e m now)
            ≡ ok tt)
  unfolding verify_geometry
  geometry_returned m accepted =
      let (value, passed, rest) =
        bind_returned (checked (risk_checks h v r b e m now) tt)
          (λ _. if is_exit r.operation then verify_exit r b e m now else verify_entry h r b e m now)
          accepted in
      ((checked_returned (risk_checks h v r b e m now) tt passed).1, rest)

  message_returned :
      (typed : Result MessageError Message)
      → (elim typed as (λ _. Result AuthorizationError (Unit {0})) [
        | err _ ↦ err untypable_message
        | ok m ↦ verify_geometry h v r b e m now
      ])
        ≡ ok tt
      → (m : Message) × (typed ≡ ok m) × (verify_geometry h v r b e m now ≡ ok tt)
  message_returned (err raised) accepted = cc
  message_returned (ok m) accepted = (m, refl, accepted)

  abbrev pub Stages : Message → Type 0
  Stages m =
      (typed_message r b ≡ ok m)
      × AllPass (owner_checks h v r e now)
      × AllPass (risk_checks h v r b e m now)
      × ((if is_exit r.operation then verify_exit r b e m now else verify_entry h r b e m now)
          ≡ ok tt)

  pub verify_evidence_returned : verify_evidence h v r b e now ≡ ok tt → (m : Message) × Stages m
  unfolding verify_evidence
  verify_evidence_returned accepted =
      let (value, owned, rest) =
        bind_returned (checked (owner_checks h v r e now) tt)
          (λ _. elim (typed_message r b) [
            | err _ ↦ err untypable_message
            | ok m ↦ verify_geometry h v r b e m now
          ])
          accepted in
      let (m, typed, verified) = message_returned (typed_message r b) rest in
      let (passed, branch) = geometry_returned m verified in
      (m, (typed, (checked_returned (owner_checks h v r e now) tt owned).1, passed, branch))

pub verify_exit_returned :
    (r : ManagedSigningRequest) (b : CustodyBinding) (e : SigningEvidence) (m : Message) (now : ℕ)
    → verify_exit r b e m now ≡ ok tt
    → (x : ExposureSnapshot) × (e.exposure ≡ some x) × AllPass (exit_checks r b m e.risk x now)
unfolding verify_exit
verify_exit_returned r b e m now accepted = found e.exposure accepted
  where
    found :
        (exposure : Option ExposureSnapshot)
        → verify_exit r b (record e { exposure = exposure }) m now ≡ ok tt
        → (x : ExposureSnapshot) × (exposure ≡ some x) × AllPass (exit_checks r b m e.risk x now)
    found none accepted = cc
    found (some x) accepted =
        (x, refl, (checked_returned (exit_checks r b m e.risk x now) tt accepted).1)

pub verify_entry_returned :
    (h : Hashes) (r : ManagedSigningRequest) (b : CustodyBinding) (e : SigningEvidence)
    (m : Message) (now : ℕ)
    → verify_entry h r b e m now ≡ ok tt
    → (o : LiveOperatorState) × (e.operator ≡ some o) × AllPass (entry_checks h r b e m o now)
unfolding verify_entry
verify_entry_returned h r b e m now accepted = found e.operator accepted
  where
    found :
        (operator : Option LiveOperatorState)
        → (elim operator as (λ _. Result AuthorizationError (Unit {0})) [
          | none ↦ err operator_unavailable
          | some o ↦ checked (entry_checks h r b e m o now) tt
        ])
          ≡ ok tt
        → (o : LiveOperatorState) × (operator ≡ some o) × AllPass (entry_checks h r b e m o now)
    found none accepted = cc
    found (some o) accepted =
        (o, refl, (checked_returned (entry_checks h r b e m o now) tt accepted).1)
