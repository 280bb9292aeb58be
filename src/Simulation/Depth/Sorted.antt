-- ===== src/Simulation/Depth/Sorted.antt =====
-- Sorting the items of a dictionary changes none of its reads, its total or its invariants.
use kairos_execution_engine.Common.{
  ℕ, ◌+◌, ◌≡◌, refl, Bool, true, not, List, [], ◌∷◌, ◌&&◌, all, length, sum_by, arith,
}
use kairos_execution_engine.Simulation.Models.{BookSide, ConsumedDepth}
use kairos_execution_engine.Simulation.Models.Coherent.{is_keyed, unique_keys}
use kairos_execution_engine.Simulation.Depth.{depth_at, insert_depth, sort_depth}

all-insert_depth :
    (test : ConsumedDepth → Bool) (d : ConsumedDepth) (ds : List ConsumedDepth)
    → all test (insert_depth d ds) ≡ (test d && all test ds)
unfolding insert_depth
all-insert_depth test d [] = refl
all-insert_depth test d (e ∷ es) = ground (arith, all-insert_depth test d es)

pub all-sort_depth :
    (test : ConsumedDepth → Bool) (ds : List ConsumedDepth) → all test (sort_depth ds) ≡ all test ds
unfolding sort_depth
all-sort_depth test [] = refl
all-sort_depth test (d ∷ ds) =
    ground (arith, all-insert_depth test d (sort_depth ds), all-sort_depth test ds)

sum-insert_depth :
    (f : ConsumedDepth → ℕ) (d : ConsumedDepth) (ds : List ConsumedDepth)
    → sum_by f (insert_depth d ds) ≡ f d + sum_by f ds
unfolding insert_depth
sum-insert_depth f d [] = refl
sum-insert_depth f d (e ∷ es) = ground (arith, sum-insert_depth f d es)

pub sum-sort_depth :
    (f : ConsumedDepth → ℕ) (ds : List ConsumedDepth) → sum_by f (sort_depth ds) ≡ sum_by f ds
unfolding sort_depth
sum-sort_depth f [] = refl
sum-sort_depth f (d ∷ ds) = omega (arith, sum-insert_depth f d (sort_depth ds), sum-sort_depth f ds)

length-insert_depth :
    (d : ConsumedDepth) (ds : List ConsumedDepth) → length (insert_depth d ds) ≡ length ds + 1
unfolding insert_depth
length-insert_depth d [] = omega arith
length-insert_depth d (e ∷ es) = ground (arith, length-insert_depth d es)

pub length-sort_depth : (ds : List ConsumedDepth) → length (sort_depth ds) ≡ length ds
unfolding sort_depth
length-sort_depth [] = refl
length-sort_depth (d ∷ ds) =
    omega (arith, length-insert_depth d (sort_depth ds), length-sort_depth ds)

unique_keys-insert_depth :
    (d : ConsumedDepth) (ds : List ConsumedDepth)
    → unique_keys (d ∷ ds) ≡ true
    → unique_keys (insert_depth d ds) ≡ true
unfolding insert_depth
unique_keys-insert_depth d [] h = refl
unique_keys-insert_depth d (e ∷ es) h = ground (
  arith,
  unique_keys-insert_depth d es,
  all-insert_depth (λ x. not (is_keyed e.side e.price x)) d es,
)

pub unique_keys-sort_depth :
    (ds : List ConsumedDepth) → unique_keys ds ≡ true → unique_keys (sort_depth ds) ≡ true
unfolding sort_depth
unique_keys-sort_depth [] h = refl
unique_keys-sort_depth (d ∷ ds) h = ground (
  arith,
  unique_keys-insert_depth d (sort_depth ds),
  unique_keys-sort_depth ds,
  all-sort_depth (λ x. not (is_keyed d.side d.price x)) ds,
)

depth_at-insert_depth :
    (s : BookSide) (p : ℕ) (d : ConsumedDepth) (ds : List ConsumedDepth)
    → all (λ x. not (is_keyed d.side d.price x)) ds ≡ true
    → depth_at s p (insert_depth d ds) ≡ depth_at s p (d ∷ ds)
unfolding insert_depth depth_at
depth_at-insert_depth s p d [] h = refl
depth_at-insert_depth s p d (e ∷ es) h = ground (arith, depth_at-insert_depth s p d es)

pub depth_at-sort_depth :
    (s : BookSide) (p : ℕ) (ds : List ConsumedDepth)
    → unique_keys ds ≡ true
    → depth_at s p (sort_depth ds) ≡ depth_at s p ds
unfolding sort_depth depth_at
depth_at-sort_depth s p [] h = refl
depth_at-sort_depth s p (d ∷ ds) h = ground (
  arith,
  depth_at-insert_depth s p d (sort_depth ds),
  depth_at-sort_depth s p ds,
  all-sort_depth (λ x. not (is_keyed d.side d.price x)) ds,
)
