-- ===== src/Production/Reserve/Daily.antt =====
-- The daily stop of an account, at each new reservation.
use kairos_execution_engine.Common.{
  ℕ, ◌≡◌, refl, sym, subst, true, false, List, [], ◌∷◌, ◌++◌, none, arith, ==_refl, is_some, ◌⊎◌,
  inl, inr, Bool-cases, ok, All,
}
use kairos_execution_engine.Production.Records.{
  Digest, ManagedSigningRequest, CustodyBinding, SigningEvidence, RiskGeometry, Hashes,
}
use kairos_execution_engine.Production.Messages.{is_exit}
use kairos_execution_engine.Production.Database.{Reservation, Facts, Release, Database, find}
use kairos_execution_engine.Production.Database.Rows.{find-append}
use kairos_execution_engine.Production.Limits.{
  SchemaVersion, version_3, release_of, reservation_totals,
}
use kairos_execution_engine.Production.Limits.Append.{
  IsStopped, reservation_totals-append, is_admitted-IsStopped,
}
use kairos_execution_engine.Production.Guard.{is_effect, enforce_risk_reservation}
use kairos_execution_engine.Production.Release.{is_released}
use kairos_execution_engine.Production.Release.Accept.{Accepted, accept_terminal_receipt-Accepted}
use kairos_execution_engine.Production.Reserve.{new_reservation, reserve_entry}
use kairos_execution_engine.Production.Lineage.{Source}
use kairos_execution_engine.Production.Reserve.Effects.{Entry, reserve_entry_returned}
use kairos_execution_engine.Production.Reserve.Outcomes.{Outcome}
use kairos_execution_engine.Production.Reserve.Capital.{
  reserves, accepts, appends, Reachable, start, step, guard_admitted, exit_kept,
}

-- The effect of each release has a reservation.
abbrev pub HasReservation : List Reservation → Release → Type 0
HasReservation rows a = is_some (find (is_effect a.account_sha256 a.effect_id) rows) ≡ true

abbrev pub Linked : Database → Type 0
Linked db = All (HasReservation db.reservations) db.releases

kept_row :
    (rows : List Reservation) (new : Reservation) (a : Release)
    → HasReservation rows a
    → HasReservation (rows ++ new ∷ []) a
kept_row rows new a h =
    ground (arith, find-append (is_effect a.account_sha256 a.effect_id) rows new)

kept_rows :
    (rows : List Reservation) (new : Reservation) (releases : List Release)
    → All (HasReservation rows) releases
    → All (HasReservation (rows ++ new ∷ [])) releases
kept_rows rows new [] h = tt
kept_rows rows new (a ∷ rest) (h, hs) = (kept_row rows new a h, kept_rows rows new rest hs)

one_more :
    (rows : List Reservation) (releases : List Release) (a : Release)
    → All (HasReservation rows) releases
    → HasReservation rows a
    → All (HasReservation rows) (releases ++ a ∷ [])
one_more rows [] a h k = (k, tt)
one_more rows (b ∷ rest) a (h, hs) k = (h, one_more rows rest a hs k)

outcome-Linked :
    (c : Source) (db next : Database) (k : RiskGeometry) (new : Reservation) (now_at : ℕ)
    → Outcome c db next k new now_at
    → Linked db
    → Linked next
outcome-Linked c db next k new now_at (inl (same, _)) linked = subst Linked (sym same) linked
outcome-Linked c db next k new now_at (inr added) linked =
    subst Linked (sym added.is_row) (kept_rows db.reservations new db.releases linked)

reserve-Linked :
    (h : Hashes) (c : Source) (db next : Database) (r : ManagedSigningRequest) (b : CustodyBinding)
    (e : SigningEvidence) (db_now now_at : ℕ)
    → reserve_entry h c db r b e db_now now_at ≡ ok next
    → Linked db
    → Linked next
reserve-Linked h c db next r b e db_now now_at returned linked =
    by_operation (Bool-cases (is_exit r.operation))
  where
    by_operation : (is_exit r.operation ≡ true) ⊎ (is_exit r.operation ≡ false) → Linked next
    by_operation (inl exit) =
        subst Linked (exit_kept h c db next r b e db_now now_at exit returned) linked
    by_operation (inr is_entry) =
        let entry = reserve_entry_returned h c db next r b e db_now now_at is_entry returned in
        outcome-Linked c db next e.risk (new_reservation h c r b e entry.notional) now_at
          entry.outcome linked

pub Reachable-Linked :
    (h : Hashes) (sha256 : Facts → Digest) (v : SchemaVersion) (db : Database)
    → Reachable h sha256 v db
    → Linked db
Reachable-Linked h sha256 v db (start _ empty free) =
    subst (All (HasReservation db.reservations)) (sym free) tt
Reachable-Linked h sha256 v next
      (step {db = prior} before (reserves c r b e db_now now_at same returned)) =
    reserve-Linked h c prior next r b e db_now now_at returned
      (Reachable-Linked h sha256 v prior before)
Reachable-Linked h sha256 v next
      (step {db = prior} before (accepts a id payload_sha256 now now_at created returned)) =
    accepted
      (accept_terminal_receipt-Accepted sha256 a prior id payload_sha256 now now_at created next
        returned)
      (Reachable-Linked h sha256 v prior before)
  where
    accepted : Accepted a prior id payload_sha256 created next → Linked prior → Linked next
    accepted (inl (made, same, rest)) linked = subst Linked (sym same) linked
    accepted (inr (made, (new, added, named, exact))) linked =
        subst Linked (sym added.is_row)
          (one_more prior.reservations prior.releases new linked (rw added.is_reserved refl))
Reachable-Linked h sha256 v next (step {db = prior} before (appends rows releases)) =
    subst (λ rows. All (HasReservation rows) next.releases) (sym rows)
      (subst (All (HasReservation prior.reservations)) (sym releases)
        (Reachable-Linked h sha256 v prior before))

-- An effect without a reservation has no release.
unreleased :
    (rows : List Reservation) (releases : List Release) (account effect : Digest)
    → All (HasReservation rows) releases
    → find (is_effect account effect) rows ≡ none
    → find (is_released account effect) releases ≡ none
unreleased rows [] account effect h absent = refl
unreleased rows (a ∷ rest) account effect (h, hs) absent =
    ground (arith, unreleased rows rest account effect hs absent)

-- A new row is admitted within the daily stop of its account.
append-IsStopped :
    (db : Database) (new : Reservation) (now_at : ℕ)
    → Linked db
    → find (is_effect new.account_sha256 new.effect_id) db.reservations ≡ none
    → enforce_risk_reservation version_3 db new now_at ≡ ok tt
    → IsStopped
        (reservation_totals version_3 db.releases (db.reservations ++ new ∷ []) new.account_sha256)
unfolding release_of
append-IsStopped db new now_at linked absent guarded =
    rw
      (reservation_totals-append version_3 db.releases db.reservations new.account_sha256 new
        (==_refl new.account_sha256))
      (is_admitted-IsStopped db.releases
        (reservation_totals version_3 db.releases db.reservations new.account_sha256) new
        (unreleased db.reservations db.releases new.account_sha256 new.effect_id linked absent)
        (guard_admitted version_3 db new now_at guarded))

-- In every reachable state of schema version 3, an entry is newly reserved only where the greatest
-- daily loss that the account's rows have reported, the charges of its released trades and all its
-- open risk, its own included, are at most the least of the owner's daily stops.
pub reserve_entry-IsStopped :
    (h : Hashes) (sha256 : Facts → Digest) (c : Source) (db next : Database)
    (r : ManagedSigningRequest) (b : CustodyBinding) (e : SigningEvidence) (db_now now_at : ℕ)
    → Reachable h sha256 version_3 db
    → c.schema_version ≡ version_3
    → is_exit r.operation ≡ false
    → reserve_entry h c db r b e db_now now_at ≡ ok next
    → (next ≡ db)
      ⊎ IsStopped
          (reservation_totals version_3 next.releases next.reservations (h.account c.context))
unfolding new_reservation
reserve_entry-IsStopped h sha256 c db next r b e db_now now_at reachable version is_entry returned =
    by_outcome (reserve_entry_returned h c db next r b e db_now now_at is_entry returned)
  where
    by_outcome :
        Entry h c db next r b e db_now now_at
        → (next ≡ db)
          ⊎ IsStopped
              (reservation_totals version_3 next.releases next.reservations (h.account c.context))
    by_outcome entry = elim entry.outcome [
      | inl (same, _) ↦ inl same
      | inr added ↦ inr (
          subst
            (λ next.
              IsStopped (
                reservation_totals version_3 next.releases next.reservations (h.account c.context)))
            (sym added.is_row)
            (append-IsStopped db (new_reservation h c r b e entry.notional) now_at
              (Reachable-Linked h sha256 version_3 db reachable) added.is_new
              (subst
                (λ v.
                  enforce_risk_reservation v db (new_reservation h c r b e entry.notional) now_at
                  ≡ ok tt)
                version added.is_guarded)))
    ]
