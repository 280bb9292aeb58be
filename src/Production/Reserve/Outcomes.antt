-- ===== src/Production/Reserve/Outcomes.antt =====
-- The two outcomes of a reservation: the row that was there, or a row that is added.
use kairos_execution_engine.Common.{
  ℕ, ◌≡◌, refl, sym, subst, ap, true, [], ◌∷◌, ◌++◌, Option, none, some, arith, ==_refl,
  if◌then◌else◌, is_some, Result, ok, err, checked, ok-injective, if_returned, if_not_returned,
  bind_returned, ◌⊎◌, inl, inr, AllPass, checked_returned,
}
use kairos_execution_engine.Production.Records.{RiskGeometry}
use kairos_execution_engine.Production.Database.{Reservation, Database, find}
use kairos_execution_engine.Production.Database.Rows.{find-append}
use kairos_execution_engine.Production.Limits.{SchemaVersion}
use kairos_execution_engine.Production.Guard.{
  DatabaseError, is_effect, is_request, is_positive_row, table_checks, insert_reservation,
  enforce_risk_reservation,
}
use kairos_execution_engine.Production.Reserve.{
  is_same_reservation, append_reservation, reserve_row,
}
use kairos_execution_engine.Production.Lineage.{
  Source, StateError, append_rejected, exceeds_current_cap, effect_rebound, request_reused,
}

-- The row of the table that an append that returns has added.
pub record IsAppended (c : Source) (db next : Database) (k : RiskGeometry) (new : Reservation)
    (now_at : ℕ) : Type 0 where
  pub is_row : next ≡ record db { reservations = db.reservations ++ new ∷ [] }
  pub is_guarded : enforce_risk_reservation c.schema_version db new now_at ≡ ok tt
  pub is_positive : is_positive_row new ≡ true
  pub is_new : find (is_effect new.account_sha256 new.effect_id) db.reservations ≡ none

insert_returned :
    (v : SchemaVersion) (db next : Database) (new : Reservation) (now_at : ℕ)
    → insert_reservation v db new now_at ≡ ok next
    → (enforce_risk_reservation v db new now_at ≡ ok tt)
      × AllPass (table_checks db new)
      × (next ≡ record db { reservations = db.reservations ++ new ∷ [] })
unfolding insert_reservation
insert_returned v db next new now_at h =
    let (value, guarded, rest) =
      bind_returned (enforce_risk_reservation v db new now_at)
        (λ _.
          checked (table_checks db new) (record db { reservations = db.reservations ++ new ∷ [] }))
        h in
    let (same, passed) = checked_returned (table_checks db new) _ rest in
    (guarded, passed, sym same)

stored :
    (inserted : Result DatabaseError Database) (next : Database)
    → (elim inserted as (λ _. Result StateError Database) [
      | err _ ↦ err append_rejected
      | ok next ↦ ok next
    ])
      ≡ ok next
    → inserted ≡ ok next
stored (err raised) next h = cc
stored (ok db) next h = ap ok (ok-injective h)

append_returned :
    (c : Source) (db next : Database) (k : RiskGeometry) (new : Reservation) (now_at : ℕ)
    → append_reservation c db k new now_at ≡ ok next
    → insert_reservation c.schema_version db new now_at ≡ ok next
unfolding append_reservation
append_returned c db next k new now_at h =
    let (admitted, rest) = if_returned _ exceeds_current_cap h in
    stored (insert_reservation c.schema_version db new now_at) next rest

-- A reservation's two outcomes: the row that is there already, or a new one.
abbrev pub Outcome : Source → Database → Database → RiskGeometry → Reservation → ℕ → Type 0
Outcome c db next k new now_at =
    ((next ≡ db)
      × ((p : Reservation) × (find (is_effect new.account_sha256 new.effect_id) db.reservations
            ≡ some p)
          × (is_same_reservation p new ≡ true)))
    ⊎ IsAppended c db next k new now_at

pub reserve_row_returned :
    (c : Source) (db next : Database) (k : RiskGeometry) (new : Reservation) (now_at : ℕ)
    → reserve_row c db k new now_at ≡ ok next
    → Outcome c db next k new now_at
unfolding reserve_row table_checks
reserve_row_returned c db next k new now_at h =
    by_effect (find (is_effect new.account_sha256 new.effect_id) db.reservations) refl h
  where
    by_effect :
        (o : Option Reservation)
        → find (is_effect new.account_sha256 new.effect_id) db.reservations ≡ o
        → (elim o as (λ _. Result StateError Database) [
          | some existing ↦ if is_same_reservation existing new then ok db else err effect_rebound
          | none ↦
              if is_some
                (find (is_request new.account_sha256 new.signing_request_id) db.reservations)
              then err request_reused
              else append_reservation c db k new now_at
        ])
          ≡ ok next
        → Outcome c db next k new now_at
    by_effect (some p) there h =
        let (same, returned) = if_returned (is_same_reservation p new) effect_rebound h in
        inl (sym (ok-injective returned), (p, there, same))
    by_effect none absent h =
        let (fresh, rest) =
          if_not_returned
            (is_some (find (is_request new.account_sha256 new.signing_request_id) db.reservations))
            request_reused h in
        let (guarded, (positive, _), row) =
          insert_returned c.schema_version db next new now_at
            (append_returned c db next k new now_at rest) in
        inr (record { is_row = row; is_guarded = guarded; is_positive = positive; is_new = absent })

same_refl : (p : Reservation) → is_same_reservation p p ≡ true
unfolding is_same_reservation
same_refl p = simp ==_refl

-- The effect of an outcome has a row, which agrees with the new one.
pub outcome_row :
    (c : Source) (db next : Database) (k : RiskGeometry) (new : Reservation) (now_at : ℕ)
    → Outcome c db next k new now_at
    → (p : Reservation) × (find (is_effect new.account_sha256 new.effect_id) next.reservations
        ≡ some p)
      × (is_same_reservation p new ≡ true)
outcome_row c db next k new now_at (inl (same, (p, there, alike))) = (
  p,
  subst (λ next. find (is_effect new.account_sha256 new.effect_id) next.reservations ≡ some p)
      (sym same) there,
  alike,
)
outcome_row c db next k new now_at (inr added) = (
  new,
  subst (λ next. find (is_effect new.account_sha256 new.effect_id) next.reservations ≡ some new)
      (sym added.is_row)
      (rw
        (find-append (is_effect new.account_sha256 new.effect_id) db.reservations new, added.is_new)
        (ground (arith, ==_refl new.account_sha256, ==_refl new.effect_id))),
  same_refl new,
)
