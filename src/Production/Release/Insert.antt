-- ===== src/Production/Release/Insert.antt =====
-- What the insertion of a release has passed and left in the table.
use kairos_execution_engine.Common.{
  ℕ, ◌≡◌, refl, sym, [], ◌∷◌, ◌++◌, Option, none, some, absent, Result, ok, err, checked,
  checked_returned, bind_returned,
}
use kairos_execution_engine.Production.Database.{
  Reservation, TerminalReceipt, Release, Database, find,
}
use kairos_execution_engine.Production.Guard.{is_effect}
use kairos_execution_engine.Production.Release.{
  ReleaseError, absent_lineage, is_receipt, is_release, is_released, release_checks,
  release_constraints, enforce_release, insert_release,
}

-- A release that a transaction has added, with the reservation that it frees.
pub record IsReleasing (db next : Database) (a : Release) : Type 0 where
  pub freed : Reservation
  pub is_row : next ≡ record db { releases = db.releases ++ a ∷ [] }
  pub is_reserved : find (is_effect a.account_sha256 a.effect_id) db.reservations ≡ some freed
  pub is_fresh : find (is_release a.receipt_id) db.releases ≡ none
  pub is_first : find (is_released a.account_sha256 a.effect_id) db.releases ≡ none

enforce_returned :
    (db : Database) (new : Release) (now_at : ℕ)
    → enforce_release db new now_at ≡ ok tt
    → (r : Reservation) × (find (is_effect new.account_sha256 new.effect_id) db.reservations
        ≡ some r)
unfolding enforce_release
enforce_returned db new now_at h =
    by_receipt (find (is_receipt new.receipt_id) db.terminal_receipts) h
  where
    by_reservation :
        (t : TerminalReceipt) (o : Option Reservation)
        → (elim o as (λ _. Result ReleaseError (Unit {0})) [
          | none ↦ err absent_lineage
          | some r ↦ checked (release_checks db t r new now_at) tt
        ])
          ≡ ok tt
        → (r : Reservation) × (o ≡ some r)
    by_reservation t none k = cc
    by_reservation t (some r) k = (r, refl)

    by_receipt :
        (o : Option TerminalReceipt)
        → (elim o as (λ _. Result ReleaseError (Unit {0})) [
          | none ↦ err absent_lineage
          | some t ↦ elim (find (is_effect new.account_sha256 new.effect_id) db.reservations) [
            | none ↦ err absent_lineage
            | some r ↦ checked (release_checks db t r new now_at) tt
          ]
        ])
          ≡ ok tt
        → (r : Reservation) × (find (is_effect new.account_sha256 new.effect_id) db.reservations
            ≡ some r)
    by_receipt none k = cc
    by_receipt (some t) k =
        by_reservation t (find (is_effect new.account_sha256 new.effect_id) db.reservations) k

pub insert_returned :
    (db next : Database) (new : Release) (now_at : ℕ)
    → insert_release db new now_at ≡ ok next
    → IsReleasing db next new
unfolding insert_release release_constraints
insert_returned db next new now_at h =
    let (value, guarded, rest) =
      bind_returned (enforce_release db new now_at)
        (λ _.
          checked (release_constraints db new) (record db { releases = db.releases ++ new ∷ [] }))
        h in
    let (same, (amounts, (fresh, (first, _)))) =
      checked_returned (release_constraints db new) _ rest in
    let (r, reserved) = enforce_returned db new now_at guarded in
    record {
      freed = r;
      is_row = sym same;
      is_reserved = reserved;
      is_fresh = absent (find (is_release new.receipt_id) db.releases) fresh;
      is_first = absent (find (is_released new.account_sha256 new.effect_id) db.releases) first;
    }
