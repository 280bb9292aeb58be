-- ===== src/RateLimit.antt =====
-- kairos_execution/ratelimit.py: the token bucket, without its asyncio lock. Times are counts of a fixed
-- unit of `time.monotonic`; `tokens` counts parts of a token of which `refill_period` make one. The
-- rounding of floats is not modelled. The refill period is positive: the division by a period of zero,
-- which the source lets raise a ZeroDivisionError, is not modelled.
mod Tests
pub mod Bound
use kairos_execution_engine.Common.{
  ℕ, ◌+◌, ◌-◌, ◌*◌, min, Bool, true, false, List, [], ◌∷◌, leb, if◌then◌else◌,
}

pub record TokenBucket : Type 0 where
  pub capacity : ℕ
  pub refill_period : ℕ
  pub tokens : ℕ
  pub last : ℕ

-- `__init__`, at the time `now`.
abbrev pub new_bucket : ℕ → ℕ → ℕ → TokenBucket
new_bucket capacity refill_period now = record {
  capacity = capacity;
  refill_period = refill_period;
  tokens = capacity * refill_period;
  last = now;
}

unfoldable pub refill : TokenBucket → ℕ → TokenBucket
refill b now = record b {
  tokens = min (b.capacity * b.refill_period) (b.tokens + (now - b.last) * b.capacity);
  last = now;
}

-- `try_acquire`: whether a token was taken, and the bucket after it.
unfoldable pub try_acquire : TokenBucket → ℕ → Bool × TokenBucket
try_acquire b now =
    let full = refill b now in
    if leb b.refill_period full.tokens
    then (true, record full { tokens = full.tokens - b.refill_period })
    else (false, full)

-- The number of tokens taken by calls at the times of a list, in turn.
unfoldable pub grants : TokenBucket → List ℕ → ℕ
grants b [] = 0
grants b (now ∷ later) =
    let rest = grants (try_acquire b now).1 later in
    if (try_acquire b now).0 then 1 + rest else rest
