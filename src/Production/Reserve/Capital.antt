-- ===== src/Production/Reserve/Capital.antt =====
-- The capital of an account, over every sequence of reservations, releases and other appends.
use kairos_execution_engine.Common.{
  ℕ, ◌≡◌, sym, subst, ◌∙◌, Bool, true, false, [], ◌∷◌, ◌++◌, arith, ◌==◌, ◌⊎◌, inl, inr, Bool-cases,
  if_true, ok-injective, ok, checked, checked_returned, some_returned, unless_returned,
  bind_returned,
}
use kairos_execution_engine.Production.Records.{
  Digest, ManagedSigningRequest, CustodyBinding, SigningEvidence, RiskGeometry, Hashes,
}
use kairos_execution_engine.Production.Messages.{is_exit}
use kairos_execution_engine.Production.Database.{Reservation, Facts, Database, find}
use kairos_execution_engine.Production.Limits.{
  SchemaVersion, of_account, totals_of, reservation_totals, guard_limits, is_admitted,
}
use kairos_execution_engine.Production.Limits.Append.{
  IsCovered, reservation_totals-append, reservation_totals-other, is_admitted-IsCovered,
}
use kairos_execution_engine.Production.Limits.Released.{release-IsCovered}
use kairos_execution_engine.Production.Guard.{
  wrong_account, invalid_lease, matches_decision, matches_lease, guard_arm, differs_from_decision,
  no_owner_arm, is_decision, is_arm, expected_notional, guard_checks, enforce_risk_reservation,
}
use kairos_execution_engine.Production.Release.{Acceptor, accept_terminal_receipt}
use kairos_execution_engine.Production.Release.Accept.{Accepted, accept_terminal_receipt-Accepted}
use kairos_execution_engine.Production.Reserve.{new_reservation, reserve_entry}
use kairos_execution_engine.Production.Lineage.{Source}
use kairos_execution_engine.Production.Reserve.Effects.{reserve_entry_returned}
use kairos_execution_engine.Production.Reserve.Outcomes.{Outcome}

-- The transactions of an account's database, one after another: a request's reservation, the
-- acceptance of a terminal receipt, and the appends to other tables.
pub data Step (h : Hashes) (sha256 : Facts → Digest) (v : SchemaVersion)
    : Database → Database → Type 0 where
  reserves :
      {db next : Database} (c : Source) (r : ManagedSigningRequest) (b : CustodyBinding)
      (e : SigningEvidence) (db_now now_at : ℕ)
      → c.schema_version ≡ v
      → reserve_entry h c db r b e db_now now_at ≡ ok next
      → Step h sha256 v db next
  accepts :
      {db next : Database} (a : Acceptor) (id : ℕ) (payload_sha256 : Digest) (now now_at : ℕ)
      (created : Bool)
      → accept_terminal_receipt sha256 a db id payload_sha256 now now_at ≡ ok (created, next)
      → Step h sha256 v db next
  appends :
      {db next : Database}
      → next.reservations ≡ db.reservations
      → next.releases ≡ db.releases
      → Step h sha256 v db next

pub data Reachable (h : Hashes) (sha256 : Facts → Digest) (v : SchemaVersion)
    : Database → Type 0 where
  start : (db : Database) → db.reservations ≡ [] → db.releases ≡ [] → Reachable h sha256 v db
  step :
      {db next : Database}
      → Reachable h sha256 v db
      → Step h sha256 v db next
      → Reachable h sha256 v next

-- The account's totals are covered.
abbrev pub Covered : SchemaVersion → Digest → Database → Type 0
Covered v account db = IsCovered (reservation_totals v db.releases db.reservations account)

-- What the trigger has tested of a row that it lets in.
pub guard_admitted :
    (v : SchemaVersion) (db : Database) (new : Reservation) (now_at : ℕ)
    → enforce_risk_reservation v db new now_at ≡ ok tt
    → is_admitted
        (reservation_totals v db.releases db.reservations new.account_sha256)
        (guard_limits v (reservation_totals v db.releases db.reservations new.account_sha256) new)
        new
      ≡ true
unfolding enforce_risk_reservation guard_arm guard_checks
guard_admitted v db new now_at guarded =
    let (_, found) =
      unless_returned (db.account_sha256 == new.account_sha256) wrong_account guarded in
    let (d, _, decided) =
      some_returned (find (is_decision new.context_sha256 new.signing_request_id) db.risk_decisions)
        differs_from_decision (λ d. _) found in
    let (_, priced) = unless_returned (matches_decision d new) differs_from_decision decided in
    let (expected, _, leased) =
      bind_returned (expected_notional d.payload) (λ expected. _) priced in
    let (_, armed) = unless_returned (matches_lease d new expected now_at) invalid_lease leased in
    let (a, _, passed) =
      some_returned (find (is_arm new.context_sha256 new.owner_arm_sha256) db.owner_arms)
        no_owner_arm (λ a. checked (guard_checks v db a new now_at) tt) armed in
    (checked_returned (guard_checks v db a new now_at) tt passed).1.1.0

-- A row that the transaction adds is covered with the others.
append-Covered :
    (v : SchemaVersion) (db : Database) (account : Digest) (new : Reservation) (now_at : ℕ)
    → enforce_risk_reservation v db new now_at ≡ ok tt
    → Covered v account db
    → Covered v account (record db { reservations = db.reservations ++ new ∷ [] })
append-Covered v db account new now_at guarded covered =
    by_account (Bool-cases (of_account account new))
  where
    by_account :
        (of_account account new ≡ true) ⊎ (of_account account new ≡ false)
        → IsCovered (reservation_totals v db.releases (db.reservations ++ new ∷ []) account)
    by_account (inl mine) =
        let same : new.account_sha256 ≡ account = ground arith in
        rw (reservation_totals-append v db.releases db.reservations account new mine) (
          is_admitted-IsCovered v db.releases
            (reservation_totals v db.releases db.reservations account) new
            (subst
              (λ account.
                is_admitted (reservation_totals v db.releases db.reservations account)
                  (guard_limits v (reservation_totals v db.releases db.reservations account) new)
                  new
                ≡ true)
              same (guard_admitted v db new now_at guarded)))
    by_account (inr other) =
        rw (reservation_totals-other v db.releases db.reservations account new other) covered

-- An exit reserves nothing.
pub exit_kept :
    (h : Hashes) (c : Source) (db next : Database) (r : ManagedSigningRequest) (b : CustodyBinding)
    (e : SigningEvidence) (db_now now_at : ℕ)
    → is_exit r.operation ≡ true
    → reserve_entry h c db r b e db_now now_at ≡ ok next
    → db ≡ next
unfolding reserve_entry
exit_kept h c db next r b e db_now now_at exit returned =
    ok-injective (sym (if_true (ok db) _ exit) ∙ returned)

outcome-Covered :
    (c : Source) (db next : Database) (account : Digest) (k : RiskGeometry) (new : Reservation)
    (now_at : ℕ)
    → Outcome c db next k new now_at
    → Covered c.schema_version account db
    → Covered c.schema_version account next
outcome-Covered c db next account k new now_at (inl (same, _)) covered =
    subst (Covered c.schema_version account) (sym same) covered
outcome-Covered c db next account k new now_at (inr added) covered =
    subst (Covered c.schema_version account) (sym added.is_row)
      (append-Covered c.schema_version db account new now_at added.is_guarded covered)

reserve-Covered :
    (h : Hashes) (c : Source) (db next : Database) (r : ManagedSigningRequest) (b : CustodyBinding)
    (e : SigningEvidence) (db_now now_at : ℕ) (account : Digest)
    → reserve_entry h c db r b e db_now now_at ≡ ok next
    → Covered c.schema_version account db
    → Covered c.schema_version account next
reserve-Covered h c db next r b e db_now now_at account returned covered =
    by_operation (Bool-cases (is_exit r.operation))
  where
    by_operation :
        (is_exit r.operation ≡ true) ⊎ (is_exit r.operation ≡ false)
        → Covered c.schema_version account next
    by_operation (inl exit) =
        subst (Covered c.schema_version account)
          (exit_kept h c db next r b e db_now now_at exit returned) covered
    by_operation (inr is_entry) =
        let entry = reserve_entry_returned h c db next r b e db_now now_at is_entry returned in
        outcome-Covered c db next account e.risk (new_reservation h c r b e entry.notional) now_at
          entry.outcome covered

accept-Covered :
    (v : SchemaVersion) (a : Acceptor) (db next : Database) (id : ℕ) (payload_sha256 : Digest)
    (created : Bool) (account : Digest)
    → Accepted a db id payload_sha256 created next
    → Covered v account db
    → Covered v account next
accept-Covered v a db next id payload_sha256 created account (inl (made, same, rest)) covered =
    subst (Covered v account) (sym same) covered
accept-Covered v a db next id payload_sha256 created account
      (inr (made, (new, added, named, exact))) covered =
    subst (Covered v account) (sym added.is_row)
      (release-IsCovered v db.releases db.reservations account new covered)

-- In every state that the transactions reach from empty tables, each account's open risk, with the
-- greatest that its rows have reported, is at most one percent of the least equity that its rows
-- were tested with, and its open notional is at most the least of the owner's caps.
pub Reachable-Covered :
    (h : Hashes) (sha256 : Facts → Digest) (v : SchemaVersion) (db : Database) (account : Digest)
    → Reachable h sha256 v db
    → Covered v account db
unfolding reservation_totals totals_of
Reachable-Covered h sha256 v db account (start _ empty free) =
    subst (λ rows. IsCovered (reservation_totals v db.releases rows account)) (sym empty)
      (record { of_equity = tt; of_cap = tt })
Reachable-Covered h sha256 v next account
      (step {db = prior} before (reserves c r b e db_now now_at same returned)) =
    subst (λ v. Covered v account next) same
      (reserve-Covered h c prior next r b e db_now now_at account returned (
        subst (λ v. Covered v account prior) (sym same)
          (Reachable-Covered h sha256 v prior account before)))
Reachable-Covered h sha256 v next account
      (step {db = prior} before (accepts a id payload_sha256 now now_at created returned)) =
    accept-Covered v a prior next id payload_sha256 created account
      (accept_terminal_receipt-Accepted sha256 a prior id payload_sha256 now now_at created next
        returned)
      (Reachable-Covered h sha256 v prior account before)
Reachable-Covered h sha256 v next account (step {db = prior} before (appends rows releases)) =
    subst (λ rows. IsCovered (reservation_totals v next.releases rows account)) (sym rows)
      (subst (λ releases. IsCovered (reservation_totals v releases prior.reservations account))
        (sym releases) (Reachable-Covered h sha256 v prior account before))
