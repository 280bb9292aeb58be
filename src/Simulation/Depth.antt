-- ===== src/Simulation/Depth.antt =====
-- The dictionary `consumed` of `_walk` (kairos_execution/simulation/fill_model.py), keyed by book
-- side and price, and its sorted copy in the state. A Python dict keeps its insertion order.
pub mod Laws
pub mod Sorted
use kairos_execution_engine.Common.{
  ℕ, ◌≡◌, refl, Bool, true, false, List, [], ◌∷◌, ltb, ◌==◌, ◌&&◌, ◌||◌, if◌then◌else◌,
}
use kairos_execution_engine.Simulation.Models.{BookSide, bid, ask, ConsumedDepth}
use kairos_execution_engine.Simulation.Models.Coherent.{is_keyed}

-- `consumed.get(key, _ZERO)`.
unfoldable pub depth_at : BookSide → ℕ → List ConsumedDepth → ℕ
depth_at s p [] = 0
depth_at s p (d ∷ ds) = if is_keyed s p d then d.quantity else depth_at s p ds

-- `consumed[key] = q`.
unfoldable pub set_depth : BookSide → ℕ → ℕ → List ConsumedDepth → List ConsumedDepth
set_depth s p q [] = record { side = s; price = p; quantity = q } ∷ []
set_depth s p q (d ∷ ds) =
    if is_keyed s p d then record d { quantity = q } ∷ ds else d ∷ set_depth s p q ds

-- The order of the keys: "ASK" comes before "BID".
abbrev pub before : ConsumedDepth → ConsumedDepth → Bool
before d e = side_before d.side e.side (ltb d.price e.price)
  where
    side_before : BookSide → BookSide → Bool → Bool
    side_before ask bid _ = true
    side_before bid ask _ = false
    side_before _ _ same = same

-- `sorted(consumed.items())`, as an insertion sort: no two items have one key.
pub insert_depth : ConsumedDepth → List ConsumedDepth → List ConsumedDepth
insert_depth d [] = d ∷ []
insert_depth d (e ∷ es) = if before e d then e ∷ insert_depth d es else d ∷ e ∷ es

unfoldable pub sort_depth : List ConsumedDepth → List ConsumedDepth
unfolding insert_depth
sort_depth [] = []
sort_depth (d ∷ ds) = insert_depth d (sort_depth ds)
