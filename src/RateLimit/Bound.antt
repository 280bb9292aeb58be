-- ===== src/RateLimit/Bound.antt =====
-- The rate of the token bucket, and the size of its bursts.
use kairos_execution_engine.Common.{
  sym, ◌<◌, ℕ, ◌+◌, ◌-◌, ◌*◌, ◌≤◌, ◌≡◌, true, false, Bool, List, [], ◌∷◌, if◌then◌else◌, arith,
}
use kairos_execution_engine.RateLimit.{TokenBucket, refill, try_acquire, grants}

-- Times that do not go back, from a first one on.
abbrev pub Ascends : ℕ → List ℕ → Type 0
Ascends first [] = Unit {0}
Ascends first (now ∷ later) = (first ≤ now) × Ascends now later

-- The last of the times.
abbrev pub end_of : ℕ → List ℕ → ℕ
end_of first [] = first
end_of first (now ∷ later) = end_of now later

Ascends-end_of : (first : ℕ) (times : List ℕ) → Ascends first times → first ≤ end_of first times
Ascends-end_of first [] h = omega arith
Ascends-end_of first (now ∷ later) (h, hs) = let k = Ascends-end_of now later hs in omega arith

-- The parts of a token of two spans of time.
spans :
    (a b c capacity : ℕ)
    → a ≤ b
    → b ≤ c
    → (b - a) * capacity + (c - b) * capacity ≡ (c - a) * capacity
spans a b c capacity h k = let e : c - a ≡ (b - a) + (c - b) = omega arith in rw e (omega arith)

-- One call takes from the bucket what it grants.
one_call :
    (b : TokenBucket) (now : ℕ)
    → (if (try_acquire b now).0 then b.refill_period else 0) + (try_acquire b now).1.tokens
      ≤ b.tokens + (now - b.last) * b.capacity
unfolding try_acquire refill
one_call b now = ground arith

call_keeps :
    (b : TokenBucket) (now : ℕ)
    → ((try_acquire b now).1.capacity ≡ b.capacity)
      × ((try_acquire b now).1.refill_period ≡ b.refill_period)
      × ((try_acquire b now).1.last ≡ now)
unfolding try_acquire refill
call_keeps b now = ground arith

add_call :
    (taken : Bool) (n period tokens left flow later_flow : ℕ)
    → (if taken then period else 0) + left ≤ tokens + flow
    → n * period ≤ left + later_flow
    → (if taken then 1 + n else n) * period ≤ tokens + (flow + later_flow)
add_call true n period tokens left flow later_flow h k = omega arith
add_call false n period tokens left flow later_flow h k = omega arith

-- What is known of the bucket after a call, at the fields of the bucket before it.
rest_bound :
    (b after : TokenBucket) (now n : ℕ) (later : List ℕ)
    → after.capacity ≡ b.capacity
    → after.refill_period ≡ b.refill_period
    → after.last ≡ now
    → n * after.refill_period
      ≤ after.tokens + (end_of after.last later - after.last) * after.capacity
    → n * b.refill_period ≤ after.tokens + (end_of now later - now) * b.capacity
rest_bound b after now n later capacity period last h = rw (sym period, sym capacity, sym last) h

-- What calls at ascending times take is at most what the bucket held and what has flowed in since.
pub grants_bound :
    (b : TokenBucket) (times : List ℕ)
    → Ascends b.last times
    → grants b times * b.refill_period ≤ b.tokens + (end_of b.last times - b.last) * b.capacity
unfolding grants
grants_bound b [] h = omega arith
grants_bound b (now ∷ later) (h, hs) =
    let after : TokenBucket = (try_acquire b now).1 in
    let (capacity, period, last) = call_keeps b now in
    let one = one_call b now in
    let rest =
      rest_bound b after now (grants after later) later capacity period last
        (grants_bound after later (rw last hs)) in
    let total = spans b.last now (end_of now later) b.capacity h (Ascends-end_of now later hs) in
    rw (sym total) (
      add_call (try_acquire b now).0 (grants after later) b.refill_period b.tokens after.tokens
        ((now - b.last) * b.capacity) ((end_of now later - now) * b.capacity) one rest)

-- A call leaves no more than a full bucket, less the token that it takes.
first_call :
    (b : TokenBucket) (now : ℕ)
    → (if (try_acquire b now).0 then b.refill_period else 0) + (try_acquire b now).1.tokens
      ≤ b.capacity * b.refill_period
unfolding try_acquire refill
first_call b now = ground arith

-- A burst is bounded by the capacity, however long the bucket has been idle and whatever it holds:
-- what calls at ascending times take is at most a full bucket and what has flowed in since the
-- first of the calls, where the refill period is not zero.
pub burst_bound :
    (b : TokenBucket) (now : ℕ) (later : List ℕ)
    → 0 < b.refill_period
    → Ascends now later
    → grants b (now ∷ later) * b.refill_period
      ≤ b.capacity * b.refill_period + (end_of now later - now) * b.capacity
unfolding grants
burst_bound b now later positive h =
    let after : TokenBucket = (try_acquire b now).1 in
    let (capacity, period, last) = call_keeps b now in
    let rest =
      rest_bound b after now (grants after later) later capacity period last
        (grants_bound after later (rw last h)) in
    let total =
      add_call (try_acquire b now).0 (grants after later) b.refill_period
        (b.capacity * b.refill_period) after.tokens 0 ((end_of now later - now) * b.capacity)
        (rw_zero (first_call b now)) rest in
    omega (arith, total)
  where
    rw_zero : {m n : ℕ} → m ≤ n → m ≤ n + 0
    rw_zero h = omega arith
