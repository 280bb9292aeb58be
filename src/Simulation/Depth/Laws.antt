-- ===== src/Simulation/Depth/Laws.antt =====
-- Reads and writes of the depth dictionary, its total, and the uniqueness of its keys.
use kairos_execution_engine.Common.{
  ℕ, ◌+◌, ◌≤◌, ◌≡◌, true, false, not, List, [], ◌∷◌, ◌==◌, ◌&&◌, if◌then◌else◌, all, length, sum_by,
  arith,
}
use kairos_execution_engine.Simulation.Models.{BookSide, same_side, ConsumedDepth}
use kairos_execution_engine.Simulation.Models.Coherent.{is_keyed, unique_keys, is_valid_depth}
use kairos_execution_engine.Simulation.Depth.{depth_at, set_depth}

abbrev pub depth_quantity : ConsumedDepth → ℕ
depth_quantity d = d.quantity

-- All that was debited, over every level.
abbrev pub total_depth : List ConsumedDepth → ℕ
total_depth = sum_by depth_quantity

pub depth_at-set_depth :
    (s t : BookSide) (p r q : ℕ) (ds : List ConsumedDepth)
    → depth_at s p (set_depth t r q ds) ≡ (if same_side s t && p == r then q else depth_at s p ds)
unfolding depth_at set_depth
depth_at-set_depth s t p r q [] = ground arith
depth_at-set_depth s t p r q (d ∷ ds) = ground (arith, depth_at-set_depth s t p r q ds)

pub total_depth-set_depth :
    (s : BookSide) (p q : ℕ) (ds : List ConsumedDepth)
    → total_depth (set_depth s p q ds) + depth_at s p ds ≡ total_depth ds + q
unfolding depth_at set_depth
total_depth-set_depth s p q [] = omega arith
total_depth-set_depth s p q (d ∷ ds) = ground (arith, total_depth-set_depth s p q ds)

pub length-set_depth :
    (s : BookSide) (p q : ℕ) (ds : List ConsumedDepth) → length (set_depth s p q ds) ≤ length ds + 1
unfolding set_depth
length-set_depth s p q [] = omega arith
length-set_depth s p q (d ∷ ds) = ground (arith, length-set_depth s p q ds)

-- A key that is written is the only new one.
absent-set_depth :
    (s t : BookSide) (p r q : ℕ) (ds : List ConsumedDepth)
    → all (λ e. not (is_keyed t r e)) ds ≡ true
    → is_keyed t r (record { side = s; price = p; quantity = q }) ≡ false
    → all (λ e. not (is_keyed t r e)) (set_depth s p q ds) ≡ true
unfolding set_depth
absent-set_depth s t p r q [] h k = ground arith
absent-set_depth s t p r q (d ∷ ds) h k = ground (arith, absent-set_depth s t p r q ds)

pub unique_keys-set_depth :
    (s : BookSide) (p q : ℕ) (ds : List ConsumedDepth)
    → unique_keys ds ≡ true
    → unique_keys (set_depth s p q ds) ≡ true
unfolding set_depth
unique_keys-set_depth s p q [] h = ground arith
unique_keys-set_depth s p q (d ∷ ds) h =
    ground (arith, unique_keys-set_depth s p q ds, absent-set_depth s d.side p d.price q ds)

pub set_depth-valid :
    (s : BookSide) (p q : ℕ) (ds : List ConsumedDepth)
    → all is_valid_depth ds ≡ true
    → is_valid_depth (record { side = s; price = p; quantity = q }) ≡ true
    → all is_valid_depth (set_depth s p q ds) ≡ true
unfolding set_depth
set_depth-valid s p q [] h k = ground arith
set_depth-valid s p q (d ∷ ds) h k = ground (arith, set_depth-valid s p q ds)
