-- ===== src/Common/Results.antt =====
-- Results of code that raises: the exception, or a value.
use mathlib.Core.Path.{◌≡◌, refl, ap}
use mathlib.Core.Bool.{Bool, true, false, not}
use kairos_execution_engine.Common.Tests.{if◌then◌else◌}
use mathlib.Core.Option.{Option, none, some}
use mathlib.Core.List.{List, [], ◌∷◌}

pub data Result (E A : Type 0) : Type 0 where
  err : E → Result E A
  ok : A → Result E A

module _ {E B : Type 0} where
  infixl 5 ◌>>=◌ ◌>>◌
  abbrev pub ◌>>=◌ : {A : Type 0} → Result E A → (A → Result E B) → Result E B
  ◌>>=◌ first next = elim first [ err raised ↦ err raised | ok value ↦ next value ]

  abbrev pub ◌>>◌ : Result E (Unit {0}) → Result E B → Result E B
  first >> second = elim first [ err raised ↦ err raised | ok _ ↦ second ]

  -- A chain that returns has a first step that returned.
  pub bind_returned :
      {A : Type 0} {result : B} (first : Result E A) (next : A → Result E B)
      → (first >>= next) ≡ ok result
      → (value : A) × (first ≡ ok value) × (next value ≡ ok result)
  bind_returned (err raised) next h = cc
  bind_returned (ok value) next h = (value, refl, h)

-- Two chains whose steps are the same.
pub same_gate :
    {E B : Type 0} {first other : Result E (Unit {0})} {next last : Result E B}
    → first ≡ other
    → next ≡ last
    → (first >> next) ≡ (other >> last)
same_gate p q = λ i. p i >> q i

-- `if not test: raise e`.
abbrev pub require : {E : Type 0} → Bool → E → Result E (Unit {0})
require test e = elim test [ false ↦ err e | true ↦ ok tt ]

-- One result is one value.
pub ok-injective : {E A : Type 0} {a b : A} → ◌≡◌ {A = Result E A} (ok a) (ok b) → a ≡ b
ok-injective h = cc

pub ok-pair :
    {E A B : Type 0} {a c : A} {b d : B}
    → ◌≡◌ {A = Result E (A × B)} (ok (a, b)) (ok (c, d))
    → (a ≡ c) × (b ≡ d)
ok-pair h = let e = ok-injective h in (ap (λ p. p.0) e, ap (λ p. p.1) e)

-- A row of tests, each with the exception that its failure raises: the first failure, or the value.
unfoldable pub checked : {E A : Type 0} → List (Bool × E) → A → Result E A
checked [] value = ok value
checked ((test, raised) ∷ rest) value =
    let later = checked rest value in elim test [ false ↦ err raised | true ↦ later ]

abbrev pub AllPass : {E : Type 0} → List (Bool × E) → Type 0
AllPass [] = Unit {0}
AllPass ((test, raised) ∷ rest) = (test ≡ true) × AllPass rest

pub checked_returned :
    {E A : Type 0} (row : List (Bool × E)) (value : A) {result : A}
    → checked row value ≡ ok result
    → (value ≡ result) × AllPass row
unfolding checked
checked_returned [] value h = (ok-injective h, tt)
checked_returned ((true, raised) ∷ rest) value h =
    let (same, passed) = checked_returned rest value h in (same, (refl, passed))
checked_returned ((false, raised) ∷ rest) value h = cc

pub checked_passes :
    {E A : Type 0} (row : List (Bool × E)) (value : A) → AllPass row → checked row value ≡ ok value
unfolding checked
checked_passes [] value h = refl
checked_passes ((test, raised) ∷ rest) value (h, k) = rw h (checked_passes rest value k)

module _ {E A : Type 0} where
  pub if_returned :
      (test : Bool) (raised : E) {result : Result E A} {value : A}
      → ◌≡◌ {A = Result E A} (if test then result else err raised) (ok value)
      → (test ≡ true) × (result ≡ ok value)
  if_returned true raised h = (refl, h)
  if_returned false raised h = cc

  pub unless_returned :
      (test : Bool) (raised : E) {result : Result E A} {value : A}
      → ◌≡◌ {A = Result E A} (if not test then err raised else result) (ok value)
      → (test ≡ true) × (result ≡ ok value)
  unless_returned true raised h = (refl, h)
  unless_returned false raised h = cc

  pub if_not_returned :
      (test : Bool) (raised : E) {result : Result E A} {value : A}
      → ◌≡◌ {A = Result E A} (if test then err raised else result) (ok value)
      → (test ≡ false) × (result ≡ ok value)
  if_not_returned true raised h = cc
  if_not_returned false raised h = (refl, h)

  pub some_returned :
      {C : Type 0} (o : Option C) (raised : E) (next : C → Result E A) {value : A}
      → (elim o as (λ _. Result E A) [ none ↦ err raised | some c ↦ next c ]) ≡ ok value
      → (c : C) × (o ≡ some c) × (next c ≡ ok value)
  some_returned none raised next h = cc
  some_returned (some c) raised next h = (c, refl, h)
