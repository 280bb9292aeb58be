-- ===== src/Production/Limits/Released.antt =====
-- The totals of an account after one more release.
use kairos_execution_engine.Common.{
  ℕ, ◌≤◌, ◌&&◌, List, [], ◌∷◌, ◌++◌, Option, none, some, arith, ◌==◌, sum_by,
}
use kairos_execution_engine.Production.Records.{Digest}
use kairos_execution_engine.Production.Database.{Reservation, Release, select}
use kairos_execution_engine.Production.Database.Rows.{find-append}
use kairos_execution_engine.Production.Limits.{
  SchemaVersion, version_2, version_3, release_of, held_risk, held_notional, of_account, totals_of,
  reservation_totals,
}
use kairos_execution_engine.Production.Limits.Append.{AtMost, IsCovered}

-- A release takes no more risk or notional of any row, and gives none back to it.
risk_freed :
    (v : SchemaVersion) (releases : List Release) (a : Release) (r : Reservation)
    → held_risk v (releases ++ a ∷ []) r ≤ held_risk v releases r
unfolding release_of
risk_freed version_2 releases a r = ground arith
risk_freed version_3 releases a r = ground (
  arith,
  find-append (λ a. a.account_sha256 == r.account_sha256 && a.effect_id == r.effect_id) releases a,
)

notional_freed :
    (v : SchemaVersion) (releases : List Release) (a : Release) (r : Reservation)
    → held_notional v (releases ++ a ∷ []) r ≤ held_notional v releases r
unfolding release_of
notional_freed version_2 releases a r = ground arith
notional_freed version_3 releases a r = ground (
  arith,
  find-append (λ a. a.account_sha256 == r.account_sha256 && a.effect_id == r.effect_id) releases a,
)

sum_below :
    {A : Type 0} (f g : A → ℕ) (below : (x : A) → f x ≤ g x) (xs : List A)
    → sum_by f xs ≤ sum_by g xs
sum_below f g below [] = omega arith
sum_below f g below (x ∷ xs) = omega (arith, below x, sum_below f g below xs)

smaller : (n m : ℕ) (limit : Option ℕ) → n ≤ m → AtMost m limit → AtMost n limit
smaller n m none below h = tt
smaller n m (some limit) below h = omega arith

-- A release keeps an account covered.
pub release-IsCovered :
    (v : SchemaVersion) (releases : List Release) (rows : List Reservation) (account : Digest)
    (a : Release)
    → IsCovered (reservation_totals v releases rows account)
    → IsCovered (reservation_totals v (releases ++ a ∷ []) rows account)
unfolding reservation_totals totals_of
release-IsCovered v releases rows account a covered =
    let mine = select (of_account account) rows in
    let risk =
      sum_below (held_risk v (releases ++ a ∷ [])) (held_risk v releases) (risk_freed v releases a)
        mine in
    let notional =
      sum_below (held_notional v (releases ++ a ∷ [])) (held_notional v releases)
        (notional_freed v releases a) mine in
    record {
      of_equity = smaller _ _ _ (omega arith) covered.of_equity;
      of_cap = smaller _ _ _ (omega arith) covered.of_cap;
    }
