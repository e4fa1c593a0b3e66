-- ===== src/RateLimit/Waiting.antt =====
-- How long the limiter sends a caller away.
use mathlib.Core.Path.{subst}
use native.Mathlib.Nat.{mul-le-mul_right, lt-mul-div-succ}
use product_updates.Dict.{Dict, get, put, get-put_self}
use product_updates.Domain.Contexts.{Time, second}
use product_updates.Prelude.{
  List, [], ◌∷◌, ◌+◌, ◌-◌, ◌*◌, ◌/◌, ◌≤◌, ◌<◌, leb, some, Text, ℕ, Bool, true, false, ◌≡◌, arith,
  refl, inl, inr, Bool-cases, ap, ◌∙◌, sym, List, All, text_eq,
}
use product_updates.RateLimit.{token, Bucket, Limiter, allow, refilled, retry_after}
use product_updates.RateLimit.Rate.{available, last_refill-refilled, other_bucket}

-- The wait that is announced refills what is missing.
missing_refilled :
    (limiter : Limiter) (b : Bucket) (elapsed : ℕ)
    → 0 < limiter.rate_per_minute
    → retry_after limiter b * second ≤ elapsed
    → token ≤ b.tokens + elapsed * limiter.rate_per_minute
unfolding retry_after
missing_refilled limiter b elapsed rate waited =
    let missing = token - b.tokens in
    let unit = limiter.rate_per_minute * second in
    let enough : missing < unit * (missing / unit + 1) =
      lt-mul-div-succ missing (omega (arith, rate)) in
    let longer : (missing / unit + 1) * second ≤ elapsed = omega (arith, waited) in
    omega (arith, enough, mul-le-mul_right limiter.rate_per_minute longer)

refilled_later :
    (limiter : Limiter) (later : Time) (b : Bucket)
    → 0 < limiter.burst
    → token ≤ b.tokens + (later - b.last_refill) * limiter.rate_per_minute
    → leb token (available limiter later (some b)) ≡ true
unfolding refilled
refilled_later limiter later b burst enough = ground arith

allow_granted :
    (limiter : Limiter) (key : Text) (now : Time) (buckets : Dict Bucket)
    → (allow limiter key now buckets).0.0 ≡ leb token (available limiter now (get buckets key))
unfolding allow
allow_granted limiter key now buckets =
    elim (Bool-cases (leb token (available limiter now (get buckets key)))) [
      | inl e ↦ rw e refl
      | inr e ↦ rw e refl
    ]

allow_refused :
    (limiter : Limiter) (key : Text) (now : Time) (buckets : Dict Bucket)
    → let bucket = refilled limiter now (get buckets key) in
      leb token bucket.tokens ≡ false
      → allow limiter key now buckets
        ≡ ((false, retry_after limiter bucket), put buckets key bucket)
unfolding allow
allow_refused limiter key now buckets e = rw e refl

-- the calls of a list, in order; their answers are left out
unfoldable pub after_calls : Limiter → List (Text × Time) → Dict Bucket → Dict Bucket
after_calls limiter [] buckets = buckets
after_calls limiter ((caller, now) ∷ calls) buckets =
    after_calls limiter calls (allow limiter caller now buckets).1

-- nobody of the list calls with the key
abbrev pub Others : Text → List (Text × Time) → Type 0
Others key calls = All (λ call. text_eq call.0 key ≡ false) calls

after_calls-get :
    (limiter : Limiter) (key : Text) (calls : List (Text × Time)) (buckets : Dict Bucket)
    → Others key calls
    → get (after_calls limiter calls buckets) key ≡ get buckets key
unfolding after_calls
after_calls-get limiter key [] buckets h = refl
after_calls-get limiter key ((caller, now) ∷ calls) buckets h =
    after_calls-get limiter key calls (allow limiter caller now buckets).1 h.1
    ∙ other_bucket limiter caller key now buckets h.0

-- A caller that is sent away and waits as long as it is told is let through, whatever others call
-- meanwhile and when, if nobody calls with its key; the rate is positive and the bucket holds a token.
pub waited-granted :
    (limiter : Limiter) (key : Text) (now later : Time) (buckets : Dict Bucket)
    (calls : List (Text × Time))
    → 0 < limiter.rate_per_minute
    → 0 < limiter.burst
    → Others key calls
    → (allow limiter key now buckets).0.0 ≡ false
    → now + (allow limiter key now buckets).0.1 * second ≤ later
    → (allow limiter key later (after_calls limiter calls (allow limiter key now buckets).1)).0.0
      ≡ true
waited-granted limiter key now later buckets calls rate burst others refused waited =
    let bucket = refilled limiter now (get buckets key) in
    let just_now = last_refill-refilled limiter now (get buckets key) in
    let sent_away =
      allow_refused limiter key now buckets
        (sym (allow_granted limiter key now buckets) ∙ refused) in
    let told : now + retry_after limiter bucket * second ≤ later =
      subst (λ (a : (Bool × ℕ) × Dict Bucket). now + a.0.1 * second ≤ later) sent_away waited in
    let kept = after_calls-get limiter key calls (allow limiter key now buckets).1 others in
    allow_granted limiter key later _
    ∙ ap (λ o. leb token (available limiter later o)) kept
    ∙ ap (λ (a : (Bool × ℕ) × Dict Bucket). leb token (available limiter later (get a.1 key)))
        sent_away
    ∙ ap (λ o. leb token (available limiter later o)) (get-put_self buckets key bucket)
    ∙ refilled_later limiter later bucket burst (
        missing_refilled limiter bucket (later - bucket.last_refill) rate
          (omega (arith, told, just_now)))
