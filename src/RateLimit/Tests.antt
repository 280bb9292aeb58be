-- ===== src/RateLimit/Tests.antt =====
-- The token bucket of 30 requests in 60 seconds, at three calls.
use kairos_execution_engine.Common.{ℕ, ◌+◌, ◌-◌, ◌*◌, ◌≤◌, ◌≡◌, refl, List, [], ◌∷◌, arith}
use kairos_execution_engine.RateLimit.{TokenBucket, new_bucket, refill, try_acquire, grants}
use kairos_execution_engine.RateLimit.Bound.{end_of, grants_bound, burst_bound}

abbrev bucket : TokenBucket
bucket = new_bucket 30 60 0

abbrev times : List ℕ
times = 1 ∷ 2 ∷ 5 ∷ []

three_grants : grants bucket times ≡ 3
unfolding grants try_acquire refill
three_grants = refl

grants_bound_example :
    grants bucket times * bucket.refill_period
    ≤ bucket.tokens + (end_of bucket.last times - bucket.last) * bucket.capacity
grants_bound_example = grants_bound bucket times (omega arith, (omega arith, (omega arith, tt)))

-- The same three calls after a long idle time.
burst_bound_example :
    grants bucket (9001 ∷ 9002 ∷ 9005 ∷ []) * bucket.refill_period
    ≤ bucket.capacity * bucket.refill_period + (9005 - 9001) * bucket.capacity
burst_bound_example =
    burst_bound bucket 9001 (9002 ∷ 9005 ∷ []) (omega arith) (omega arith, (omega arith, tt))
