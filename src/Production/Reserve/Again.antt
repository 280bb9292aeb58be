-- ===== src/Production/Reserve/Again.antt =====
-- Reservations that are asked for again.
use kairos_execution_engine.Common.{
  ℕ, ltb, ◌≡◌, refl, sym, subst, ◌∙◌, true, false, List, [], ◌∷◌, Bool, some, Bool-cases, inl, inr,
  ok, err, checked, if◌then◌else◌, arith,
}
use kairos_execution_engine.Production.Records.{
  Message, ManagedSigningRequest, CustodyBinding, SigningEvidence, RiskGeometry, Hashes,
  LiveOperatorState,
}
use kairos_execution_engine.Production.Authorization.{same_command}
use kairos_execution_engine.Production.Messages.{typed_message, entry_notional_usd, is_exit}
use kairos_execution_engine.Production.Database.{OperatorRow, Reservation, Database, find}
use kairos_execution_engine.Production.Guard.{is_effect, is_decision}
use kairos_execution_engine.Production.Reserve.{
  new_reservation, is_same_reservation, reserve_row, reserve, reserve_entry,
}
use kairos_execution_engine.Production.Lineage.{
  Source, evidence_checks, lineage_checks, lease_holds, is_current_command, is_persisted,
  is_accepted, is_arm_row, is_nonce, unbound_decision, no_accepted_arm, operator_changed,
  evidence_expired,
}
use kairos_execution_engine.Production.Reserve.Effects.{IsReady, Entry, reserve_entry_returned}
use kairos_execution_engine.Production.Reserve.Outcomes.{Outcome, outcome_row}

-- An entry with its row in the table is left as it is.
row_again :
    (c : Source) (next : Database) (k : RiskGeometry) (new p : Reservation) (later : ℕ)
    → find (is_effect new.account_sha256 new.effect_id) next.reservations ≡ some p
    → is_same_reservation p new ≡ true
    → reserve_row c next k new later ≡ ok next
unfolding reserve_row
row_again c next k new p later there same = rw (reserve_row, there, same) refl

module _ (h : Hashes) (c : Source) (r : ManagedSigningRequest) (b : CustodyBinding)
    (e : SigningEvidence) (db_now : ℕ) where
  IsReady-with :
      (db : Database) (rows : List Reservation)
      → IsReady h c db r e db_now
      → IsReady h c (record db { reservations = rows }) r e db_now
  unfolding evidence_checks
  IsReady-with db rows ready = record {
    row = ready.row;
    is_evidenced = ready.is_evidenced;
    is_latest = ready.is_latest;
    is_current = ready.is_current;
  }

  IsReady-next :
      (db next : Database) (now_at : ℕ) (entry : Entry h c db next r b e db_now now_at)
      → IsReady h c next r e db_now
  IsReady-next db next now_at entry = by_outcome entry.outcome
    where
      by_outcome :
          Outcome c db next e.risk (new_reservation h c r b e entry.notional) now_at
          → IsReady h c next r e db_now
      by_outcome (inl (same, _)) = subst (λ db. IsReady h c db r e db_now) (sym same) entry.is_ready
      by_outcome (inr added) =
          subst (λ db. IsReady h c db r e db_now) (sym added.is_row)
            (IsReady-with db _ entry.is_ready)

  entry_again :
      (next : Database) (m : Message) (notional later : ℕ)
      → is_exit r.operation ≡ false
      → checked (lineage_checks h c r b e) tt ≡ ok tt
      → typed_message r b ≡ ok m
      → entry_notional_usd m ≡ ok notional
      → ltb 0 e.risk.worst_case_loss_usd ≡ true
      → reserve_entry h c next r b e db_now later ≡ reserve h c next r b e notional db_now later
  unfolding reserve_entry
  entry_again next m notional later entry lineage typed priced risks =
      rw (reserve_entry, entry, lineage, typed, priced, risks) refl

pub reserve_entry-is_same_reservation :
    (h : Hashes) (c : Source) (db next : Database) (r : ManagedSigningRequest) (b : CustodyBinding)
    (e : SigningEvidence) (db_now now_at : ℕ)
    → is_exit r.operation ≡ false
    → reserve_entry h c db r b e db_now now_at ≡ ok next
    → (m : Message) × (notional : ℕ) × (p : Reservation) × (typed_message r b ≡ ok m)
      × (entry_notional_usd m ≡ ok notional)
      × (find (is_effect (h.account c.context) e.risk.effect_id) next.reservations ≡ some p)
      × (is_same_reservation p (new_reservation h c r b e notional) ≡ true)
unfolding new_reservation
reserve_entry-is_same_reservation h c db next r b e db_now now_at is_entry returned =
    let entry = reserve_entry_returned h c db next r b e db_now now_at is_entry returned in
    let (p, there, same) =
      outcome_row c db next e.risk (new_reservation h c r b e entry.notional) now_at
        entry.outcome in
    (entry.message, entry.notional, p, entry.is_typed, entry.has_notional, there, same)

first_check :
    {E : Type 0} (a b p q : Bool) (x y z : E)
    → checked ((a, x) ∷ (p, y) ∷ (q, z) ∷ []) tt ≡ ok (tt {0})
    → checked ((b, x) ∷ (p, y) ∷ (q, z) ∷ []) tt ≡ (if b then ok (tt {0}) else err x)
unfolding checked
first_check a true true true x y z h = refl
first_check a false true true x y z h = refl
first_check a b false q x y z h = absurd (ground arith)
first_check a b true false x y z h = absurd (ground arith)

-- The evidence's rows stand: at another clock only its lease is tested anew.
evidence_later :
    (h : Hashes) (c : Source) (db : Database) (r : ManagedSigningRequest) (e : SigningEvidence)
    (db_now later : ℕ)
    → checked (evidence_checks h c db r e db_now) tt ≡ ok tt
    → checked (evidence_checks h c db r e later) tt
      ≡ (if lease_holds c e.risk e.owner_arm.request later then ok tt else err evidence_expired)
unfolding evidence_checks
evidence_later h c db r e db_now later passed =
    let context = h.context c.context in
    first_check (lease_holds c e.risk e.owner_arm.request db_now)
      (lease_holds c e.risk e.owner_arm.request later)
      (is_persisted h e.risk (find (is_decision context r.request_id) db.risk_decisions))
      (is_accepted h e context (find (is_arm_row h context e) db.owner_arms)
        (find (is_nonce e) db.claims))
      evidence_expired unbound_decision no_accepted_arm passed

-- The operator's row stands: at another clock only its expiry is tested anew.
command_later :
    (h : Hashes) (e : SigningEvidence) (o : OperatorRow) (operator : LiveOperatorState)
    (until db_now later : ℕ)
    → is_current_command h e o db_now ≡ true
    → e.operator ≡ some operator
    → operator.expires_at ≡ some until
    → is_current_command h e o later ≡ ltb later until
unfolding is_current_command same_command
command_later h e o operator until db_now later current present ends = ground arith

-- A retry comes to the reservations where its lease and its operator still cover it.
reserve_later :
    (h : Hashes) (c : Source) (db : Database) (r : ManagedSigningRequest) (b : CustodyBinding)
    (e : SigningEvidence) (operator : LiveOperatorState) (until notional db_now later later_at : ℕ)
    → IsReady h c db r e db_now
    → e.operator ≡ some operator
    → operator.expires_at ≡ some until
    → reserve h c db r b e notional later later_at ≡ (
        if lease_holds c e.risk e.owner_arm.request later
        then (if ltb later until
            then reserve_row c db e.risk (new_reservation h c r b e notional) later_at
            else err operator_changed)
        else err evidence_expired)
unfolding reserve
reserve_later h c db r b e operator until notional db_now later later_at ready present ends =
    let evidence = evidence_later h c db r e db_now later ready.is_evidenced in
    elim (Bool-cases (lease_holds c e.risk e.owner_arm.request later)) [
      | inl holds ↦
          let evidence' = rw holds at evidence in
          rw
            (
              reserve,
              holds,
              evidence',
              ready.is_latest,
              command_later h e ready.row operator until db_now later ready.is_current present ends,
            )
            refl
      | inr ends ↦ let evidence' = rw ends at evidence in rw (reserve, ends, evidence') refl
    ]

-- A reservation is idempotent while the leases of its evidence hold: an entry that was reserved is
-- asked for again, with the same evidence, at any clock of the database and of the trigger. Where
-- the evidence's lease holds at the new clock and the operator's command has not expired, it
-- returns and leaves the database as it is; an expired lease is refused as evidence_expired, an
-- expired command as operator_changed.
pub reserve_entry-again :
    (h : Hashes) (c : Source) (db next : Database) (r : ManagedSigningRequest) (b : CustodyBinding)
    (e : SigningEvidence) (operator : LiveOperatorState) (until db_now now_at later later_at : ℕ)
    → is_exit r.operation ≡ false
    → reserve_entry h c db r b e db_now now_at ≡ ok next
    → e.operator ≡ some operator
    → operator.expires_at ≡ some until
    → reserve_entry h c next r b e later later_at ≡ (
        if lease_holds c e.risk e.owner_arm.request later
        then (if ltb later until then ok next else err operator_changed)
        else err evidence_expired)
unfolding new_reservation
reserve_entry-again h c db next r b e operator until db_now now_at later later_at is_entry returned
      present ends =
    let entry = reserve_entry_returned h c db next r b e db_now now_at is_entry returned in
    let (p, there, same) =
      outcome_row c db next e.risk (new_reservation h c r b e entry.notional) now_at
        entry.outcome in
    let again =
      row_again c next e.risk (new_reservation h c r b e entry.notional) p later_at there same in
    entry_again h c r b e later next entry.message entry.notional later_at is_entry entry.is_lineage
      entry.is_typed entry.has_notional entry.risks
    ∙ reserve_later h c next r b e operator until entry.notional db_now later later_at
        (IsReady-next h c r b e db_now db next now_at entry) present ends
    ∙ rw again refl
