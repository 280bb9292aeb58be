-- ===== src/Production/Reserve/Effects.antt =====
-- What a reservation that returns has passed and left in the table.
use kairos_execution_engine.Common.{
  ℕ, ◌≡◌, refl, sym, ◌∙◌, true, false, Option, none, some, ltb, if◌then◌else◌, if_false, Result, ok,
  err, checked, if_returned, bind_returned,
}
use kairos_execution_engine.Production.Records.{
  Message, ManagedSigningRequest, CustodyBinding, SigningEvidence, Hashes,
}
use kairos_execution_engine.Production.Messages.{
  MessageError, NotionalError, typed_message, entry_notional_usd, is_exit,
}
use kairos_execution_engine.Production.Database.{OperatorRow, Database}
use kairos_execution_engine.Production.Reserve.{
  new_reservation, reserve_row, reserve, reserve_entry,
}
use kairos_execution_engine.Production.Lineage.{
  Source, StateError, evidence_checks, is_current_command, latest_operator, lineage_checks,
  no_operator_state, operator_changed, no_exact_notional, loss_not_positive,
}
use kairos_execution_engine.Production.Reserve.Outcomes.{Outcome, reserve_row_returned}

-- What the transaction has read before it comes to the reservations.
pub record IsReady (h : Hashes) (c : Source) (db : Database) (r : ManagedSigningRequest)
    (e : SigningEvidence) (db_now : ℕ) : Type 0 where
  pub row : OperatorRow
  pub is_evidenced : checked (evidence_checks h c db r e db_now) tt ≡ ok tt
  pub is_latest : latest_operator (h.context c.context) db ≡ some row
  pub is_current : is_current_command h e row db_now ≡ true

reserve_returned :
    (h : Hashes) (c : Source) (db next : Database) (r : ManagedSigningRequest) (b : CustodyBinding)
    (e : SigningEvidence) (notional db_now now_at : ℕ)
    → reserve h c db r b e notional db_now now_at ≡ ok next
    → IsReady h c db r e db_now
      × (reserve_row c db e.risk (new_reservation h c r b e notional) now_at ≡ ok next)
unfolding reserve
reserve_returned h c db next r b e notional db_now now_at reserved =
    let (value, checks, rest) =
      bind_returned (checked (evidence_checks h c db r e db_now) tt) (λ _. _) reserved in
    by_operator (latest_operator (h.context c.context) db) refl checks rest
  where
    by_operator :
        (o : Option OperatorRow)
        → latest_operator (h.context c.context) db ≡ o
        → checked (evidence_checks h c db r e db_now) tt ≡ ok tt
        → (elim o as (λ _. Result StateError Database) [
          | none ↦ err no_operator_state
          | some o ↦
              if is_current_command h e o db_now
              then reserve_row c db e.risk (new_reservation h c r b e notional) now_at
              else err operator_changed
        ])
          ≡ ok next
        → IsReady h c db r e db_now
          × (reserve_row c db e.risk (new_reservation h c r b e notional) now_at ≡ ok next)
    by_operator none read checks rest = cc
    by_operator (some o) read checks rest =
        let (current, left) = if_returned (is_current_command h e o db_now) operator_changed rest in
        (record { row = o; is_evidenced = checks; is_latest = read; is_current = current }, left)

-- The entry of a reservation that returns: its message, its notional, and what is left of it.
pub record Entry (h : Hashes) (c : Source) (db next : Database) (r : ManagedSigningRequest)
    (b : CustodyBinding) (e : SigningEvidence) (db_now now_at : ℕ) : Type 0 where
  pub message : Message
  pub notional : ℕ
  pub is_lineage : checked (lineage_checks h c r b e) tt ≡ ok tt
  pub is_typed : typed_message r b ≡ ok message
  pub has_notional : entry_notional_usd message ≡ ok notional
  pub risks : ltb 0 e.risk.worst_case_loss_usd ≡ true
  pub is_ready : IsReady h c db r e db_now
  pub outcome : Outcome c db next e.risk (new_reservation h c r b e notional) now_at

-- The transaction, from the message on.
abbrev from_message :
    Hashes
    → Source
    → Database
    → ManagedSigningRequest
    → CustodyBinding
    → SigningEvidence
    → ℕ
    → ℕ
    → Result MessageError Message
    → Result StateError Database
from_message h c db r b e db_now now_at typed = elim typed [
  | err _ ↦ err no_exact_notional
  | ok m ↦ elim (entry_notional_usd m) [
    | err _ ↦ err no_exact_notional
    | ok notional ↦
        if ltb 0 e.risk.worst_case_loss_usd
        then reserve h c db r b e notional db_now now_at
        else err loss_not_positive
  ]
]

pub reserve_entry_returned :
    (h : Hashes) (c : Source) (db next : Database) (r : ManagedSigningRequest) (b : CustodyBinding)
    (e : SigningEvidence) (db_now now_at : ℕ)
    → is_exit r.operation ≡ false
    → reserve_entry h c db r b e db_now now_at ≡ ok next
    → Entry h c db next r b e db_now now_at
unfolding reserve_entry
reserve_entry_returned h c db next r b e db_now now_at entry returned =
    let (value, checks, rest) =
      bind_returned (checked (lineage_checks h c r b e) tt) (λ _. _)
        (sym (if_false (ok db) _ entry) ∙ returned) in
    by_message (typed_message r b) refl checks rest
  where
    by_message :
        (typed : Result MessageError Message)
        → typed_message r b ≡ typed
        → checked (lineage_checks h c r b e) tt ≡ ok tt
        → from_message h c db r b e db_now now_at typed ≡ ok next
        → Entry h c db next r b e db_now now_at
    by_message (err raised) is_typed lineage k = cc
    by_message (ok m) is_typed lineage k = by_notional (entry_notional_usd m) refl k
      where
        by_notional :
            (priced : Result NotionalError ℕ)
            → entry_notional_usd m ≡ priced
            → (elim priced as (λ _. Result StateError Database) [
              | err _ ↦ err no_exact_notional
              | ok notional ↦
                  if ltb 0 e.risk.worst_case_loss_usd
                  then reserve h c db r b e notional db_now now_at
                  else err loss_not_positive
            ])
              ≡ ok next
            → Entry h c db next r b e db_now now_at
        by_notional (err raised) has_notional k = cc
        by_notional (ok n) has_notional k =
            let (positive, rest) =
              if_returned (ltb 0 e.risk.worst_case_loss_usd) loss_not_positive k in
            let (ready, left) = reserve_returned h c db next r b e n db_now now_at rest in
            record {
              message = m;
              notional = n;
              is_lineage = lineage;
              is_typed = is_typed;
              has_notional = has_notional;
              risks = positive;
              is_ready = ready;
              outcome =
                  reserve_row_returned c db next e.risk (new_reservation h c r b e n) now_at left;
            }
