-- ===== src/Common/Int.antt =====
-- Signed integers over the native numbers, for the signed amounts of the model.
use Prim.Native.Nat.{ℕ, ◌+◌, ◌-◌, ◌≤◌}
use mathlib.Core.Path.{◌≡◌, ap}
use mathlib.Core.Bool.{Bool, true, false}
use native.Mathlib.Omega.{arith}
use kairos_execution_engine.Common.Tests.{leb, ◌==◌, ==_iff, if◌then◌else◌}

-- `negsuc n` is -(n + 1).
pub data ℤ : Type 0 where
  pos : ℕ → ℤ
  negsuc : ℕ → ℤ

-- a - b, as an integer.
abbrev pub sub_ℕ : ℕ → ℕ → ℤ
sub_ℕ a b = if leb b a then pos (a - b) else negsuc (b - a - 1)

abbrev pub nonneg : ℤ → Bool
nonneg (pos n) = true
nonneg (negsuc n) = false

pub sub_ℕ-nonneg : (a b : ℕ) → b ≤ a → sub_ℕ a b ≡ pos (a - b)
sub_ℕ-nonneg a b h = ground arith

infixl 60 ◌-ℤ◌
abbrev pub ◌-ℤ◌ : ℤ → ℤ → ℤ
pos a -ℤ pos b = sub_ℕ a b
pos a -ℤ negsuc b = pos (a + b + 1)
negsuc a -ℤ pos b = negsuc (a + b)
negsuc a -ℤ negsuc b = sub_ℕ b a

abbrev pub same_ℤ : ℤ → ℤ → Bool
same_ℤ (pos a) (pos b) = a == b
same_ℤ (negsuc a) (negsuc b) = a == b
same_ℤ _ _ = false

-- max(0, n) and max(0, -n).
abbrev pub pos_part : ℤ → ℕ
pos_part (pos n) = n
pos_part (negsuc n) = 0

abbrev pub neg_part : ℤ → ℕ
neg_part (pos n) = 0
neg_part (negsuc n) = n + 1

-- A debt after a cost and a debit is at most the debt before, the cost and the debit.
pub neg_part-sub :
    (gross : ℤ) (fees : ℕ) (funding : ℤ)
    → neg_part (gross -ℤ pos fees -ℤ funding) ≤ neg_part gross + fees + pos_part funding
neg_part-sub (pos n) fees (pos m) = ground arith
neg_part-sub (pos n) fees (negsuc m) = ground arith
neg_part-sub (negsuc n) fees (pos m) = ground arith
neg_part-sub (negsuc n) fees (negsuc m) = ground arith

pub same_ℤ_refl : (a : ℤ) → same_ℤ a a ≡ true
same_ℤ_refl (pos n) = ground arith
same_ℤ_refl (negsuc n) = ground arith

pub same_ℤ_lem : (a b : ℤ) → same_ℤ a b ≡ true → a ≡ b
same_ℤ_lem (pos a) (pos b) h = ap pos ((==_iff a b).0 h)
same_ℤ_lem (negsuc a) (negsuc b) h = ap negsuc ((==_iff a b).0 h)
same_ℤ_lem (pos a) (negsuc b) h = absurd (ground arith)
same_ℤ_lem (negsuc a) (pos b) h = absurd (ground arith)

abbrev pub neg_ℤ : ℤ → ℤ
neg_ℤ (pos n) = if n == 0 then pos 0 else negsuc (n - 1)
neg_ℤ (negsuc n) = pos (n + 1)

pub neg-sub_ℕ : (a b : ℕ) → neg_ℤ (sub_ℕ a b) ≡ sub_ℕ b a
neg-sub_ℕ a b = ground arith
