-- ===== src/Production/Database/Rows.antt =====
-- Selections and aggregates over rows, after one more row.
use kairos_execution_engine.Common.{
  ℕ, ◌<◌, ◌≡◌, refl, sym, ◌∙◌, some-injective, ◌⊎◌, Bool, true, false, List, [], ◌∷◌, ◌++◌, Option,
  none, some, arith, leb, if◌then◌else◌, All, max, min, inl, inr, Member,
}
use kairos_execution_engine.Production.Database.{latest, select, find, max_by, min_by, coalesce}

abbrev pub Positive : Option ℕ → Type 0
Positive none = Unit {0}
Positive (some n) = 0 < n

module _ {ℓ} {A : Type ℓ} where
  pub select-All {κ} :
      (P : A → Type κ) (test : A → Bool) (xs : List A) → All P xs → All P (select test xs)
  select-All P test [] h = tt
  select-All P test (x ∷ xs) (h, hs) = keep (test x) (select-All P test xs hs)
    where
      keep :
          (b : Bool)
          → All P (select test xs)
          → All P (if b then x ∷ select test xs else select test xs)
      keep true rest = (h, rest)
      keep false rest = rest

  pub select-append :
      (test : A → Bool) (xs : List A) (x : A)
      → select test (xs ++ x ∷ []) ≡ select test xs ++ (if test x then x ∷ [] else [])
  select-append test [] x = refl
  select-append test (y ∷ ys) x = ground (arith, select-append test ys x)

  pub max_by-append :
      (f : A → ℕ) (xs : List A) (x : A)
      → max_by f (xs ++ x ∷ []) ≡ some (max (f x) (coalesce (max_by f xs) 0))
  max_by-append f [] x = ground arith
  max_by-append f (y ∷ ys) x = rw (max_by-append f ys x) (ground arith)

  pub min_by-append :
      (f : A → ℕ) (xs : List A) (x : A)
      → min_by f (xs ++ x ∷ []) ≡ some (min (f x) (coalesce (min_by f xs) (f x)))
  min_by-append f [] x = ground arith
  min_by-append f (y ∷ ys) x = rw (min_by-append f ys x) (ground arith)

  pub min_by-Positive : (f : A → ℕ) (xs : List A) → All (λ x. 0 < f x) xs → Positive (min_by f xs)
  min_by-Positive f [] h = tt
  min_by-Positive f (x ∷ xs) (h, hs) = ground (arith, min_by-Positive f xs hs)

  pub find-append :
      (test : A → Bool) (xs : List A) (x : A)
      → find test (xs ++ x ∷ [])
        ≡ elim (find test xs) [ some y ↦ some y | none ↦ if test x then some x else none ]
  find-append test [] x = refl
  find-append test (y ∷ ys) x = ground (arith, find-append test ys x)

  -- A row that is found passes the test.
  pub find-passes : (test : A → Bool) (xs : List A) (x : A) → find test xs ≡ some x → test x ≡ true
  find-passes test [] x h = cc
  find-passes test (y ∷ ys) x h = ground (arith, find-passes test ys x)

module _ {A : Type 0} where
  -- A row that `find` misses fails the test.
  pub find-Member :
      (test : A → Bool) (xs : List A) (x : A) → Member x xs → find test xs ≡ none → test x ≡ false
  find-Member test [] x h absent = elim h [ ]
  find-Member test (y ∷ ys) x (inl same) absent = rw same (missed (test y) absent)
    where
      missed : (b : Bool) → (if b then some y else find test ys) ≡ none → b ≡ false
      missed true h = cc
      missed false h = refl
  find-Member test (y ∷ ys) x (inr later) absent =
      find-Member test ys x later (left (test y) absent)
    where
      left : (b : Bool) → (if b then some y else find test ys) ≡ none → find test ys ≡ none
      left true h = cc
      left false h = h

  -- The latest row is a row.
  pub latest-Member : (time : A → ℕ) (xs : List A) (y : A) → latest time xs ≡ some y → Member y xs
  latest-Member time [] y h = cc
  latest-Member time (x ∷ xs) y h = by_rest (λ z. latest-Member time xs z) (latest time xs) refl h
    where
      by_test :
          (earlier : (z : A) → latest time xs ≡ some z → Member z xs) (b : Bool) (z : A)
          → latest time xs ≡ some z
          → (if b then some z else some x) ≡ some y
          → (y ≡ x) ⊎ Member y xs
      by_test earlier true z rest h = inr (earlier y (rest ∙ h))
      by_test earlier false z rest h = inl (sym (some-injective h))

      by_rest :
          (earlier : (z : A) → latest time xs ≡ some z → Member z xs) (o : Option A)
          → latest time xs ≡ o
          → (elim o as (λ _. Option A) [
            | none ↦ some x
            | some z ↦ if leb (time x) (time z) then some z else some x
          ])
            ≡ some y
          → (y ≡ x) ⊎ Member y xs
      by_rest earlier none rest h = inl (sym (some-injective h))
      by_rest earlier (some z) rest h = by_test earlier (leb (time x) (time z)) z rest h

  -- A selected row is a row, and passes the test.
  pub select-Member :
      (test : A → Bool) (xs : List A) (y : A)
      → Member y (select test xs)
      → Member y xs × (test y ≡ true)
  select-Member test [] y h = elim h [ ]
  select-Member test (x ∷ xs) y h = by_test (select-Member test xs y) (test x) refl h
    where
      by_test :
          (earlier : Member y (select test xs) → Member y xs × (test y ≡ true)) (b : Bool)
          → test x ≡ b
          → Member y (if b then x ∷ select test xs else select test xs)
          → ((y ≡ x) ⊎ Member y xs) × (test y ≡ true)
      by_test earlier true passed (inl same) = (inl same, rw same passed)
      by_test earlier true passed (inr later) =
          let (there, rest) = earlier later in (inr there, rest)
      by_test earlier false passed later = let (there, rest) = earlier later in (inr there, rest)
