-- ===== src/RateLimit.antt =====
-- api/ratelimit.py: `TokenBucketLimiter` and the decision of the middleware. Tokens are counted in
-- parts, of which a token has sixty million, so that a microsecond refills a whole number of them;
-- the program counts in floating point.
pub mod Rate
pub mod Waiting
use product_updates.Dict.{Dict, get, put}
use product_updates.Domain.Contexts.{Time, second}
use product_updates.Prelude.{
  ◌+◌, ◌-◌, ◌*◌, ◌/◌, if◌then◌else◌, leb, ltb, min, max, some, none, Text, ℕ, Bool, true, false,
  Option, List, [], ◌∷◌, any, text_eq, codes, not, ◌&&◌, ◌||◌,
}

-- the parts of one token: a minute in microseconds
abbrev pub token : ℕ
token = 60000000

-- `_Bucket`
pub record Bucket : Type 0 where
  pub tokens : ℕ
  pub last_refill : Time

-- `TokenBucketLimiter`
pub record Limiter : Type 0 where
  pub rate_per_minute : ℕ
  pub burst : ℕ

-- the bucket of a caller, refilled: a new caller's is full, and one is never more than full
unfoldable pub refilled : Limiter → Time → Option Bucket → Bucket
refilled limiter now none = record { tokens = limiter.burst * token; last_refill = now }
refilled limiter now (some bucket) = record {
  tokens =
      min (limiter.burst * token)
        (bucket.tokens + (now - bucket.last_refill) * limiter.rate_per_minute);
  last_refill = now;
}

-- how many seconds until a token is there; the rate is positive
unfoldable pub retry_after : Limiter → Bucket → ℕ
retry_after limiter bucket =
    max 1 ((token - bucket.tokens) / (limiter.rate_per_minute * second) + 1)

-- `allow`
unfoldable pub allow : Limiter → Text → Time → Dict Bucket → (Bool × ℕ) × Dict Bucket
unfolding refilled retry_after
allow limiter key now buckets =
    let bucket = refilled limiter now (get buckets key) in
    if leb token bucket.tokens
    then ((true, 0), put buckets key (record bucket { tokens = bucket.tokens - token }))
    else ((false, retry_after limiter bucket), put buckets key bucket)

-- `LIMITED_METHODS`, `EXEMPT_PATHS`
abbrev limited_methods : List Text
limited_methods = codes "POST" ∷ codes "PUT" ∷ codes "PATCH" ∷ codes "DELETE" ∷ []

abbrev exempt_paths : List Text
exempt_paths = codes "/health" ∷ codes "/health/ready" ∷ []

unfoldable pub is_limited : Text → Text → Bool
is_limited method path =
    any (λ m. text_eq m method) limited_methods && not (any (λ p. text_eq p path) exempt_paths)

-- What `RateLimitMiddleware` does with a request: it is passed on, or answered with 429 and the
-- seconds to wait.
pub data Answer : Type 0 where
  passed_on : Answer
  too_many_requests : ℕ → Answer

unfoldable pub respond : Limiter → Text → Text → Text → Time → Dict Bucket → Answer × Dict Bucket
unfolding allow is_limited
respond limiter method path key now buckets =
    let answer = allow limiter key now buckets in
    if is_limited method path
    then ((if answer.0.0 then passed_on else too_many_requests answer.0.1), answer.1)
    else (passed_on, buckets)
