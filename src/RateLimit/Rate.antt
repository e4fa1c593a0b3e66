-- ===== src/RateLimit/Rate.antt =====
-- The limiter keeps its rate: how many requests it lets through in a time.
use mathlib.Core.Path.{subst}
use native.Mathlib.Nat.{mul-le-mul_right}
use product_updates.Dict.{Dict, get, get-put, get-put_self}
use product_updates.Domain.Contexts.{Time}
use product_updates.Prelude.{
  ◌+◌, ◌-◌, ◌*◌, ◌≤◌, if◌then◌else◌, leb, some, none, Text, text_eq, ℕ, suc, false, Option, List,
  [], ◌∷◌, ◌≡◌, arith, refl, inl, inr, Bool-cases, ap, ◌∙◌, ◌&&◌, eq_of_text_eq, sym,
}
use product_updates.RateLimit.{token, Bucket, Limiter, allow, refilled}

-- Calls of any callers, and the time of each; how many of one caller are let through.
unfoldable pub granted : Limiter → Text → List (Text × Time) → Dict Bucket → ℕ
unfolding allow
granted limiter key [] buckets = 0
granted limiter key ((caller, now) ∷ calls) buckets =
    let answer = allow limiter caller now buckets in
    let rest = granted limiter key calls answer.1 in
    if text_eq caller key && answer.0.0 then suc rest else rest

-- the times do not go back, from `start` to at most `end`
abbrev pub Ordered : Time → Time → List (Text × Time) → Type 0
Ordered start end [] = start ≤ end
Ordered start end ((caller, now) ∷ calls) = (start ≤ now) × Ordered now end calls

-- what a caller can spend at a time: the parts of its bucket after the refill
abbrev pub available : Limiter → Time → Option Bucket → ℕ
available limiter now bucket = (refilled limiter now bucket).tokens

rate_split : (a b c r : ℕ) → c ≤ a + b → c * r ≤ a * r + b * r
rate_split a b c r le = omega (arith, mul-le-mul_right r le)

rate_joined : (a b c r : ℕ) → a + b ≤ c → a * r + b * r ≤ c * r
rate_joined a b c r le = omega (arith, mul-le-mul_right r le)

Ordered-le : (start end : Time) (calls : List (Text × Time)) → Ordered start end calls → start ≤ end
Ordered-le start end [] h = h
Ordered-le start end ((caller, now) ∷ calls) (le, h) = omega (arith, le, Ordered-le now end calls h)

later_available :
    (limiter : Limiter) (start now : Time) (bucket : Option Bucket)
    → start ≤ now
    → available limiter now bucket
      ≤ available limiter start bucket + (now - start) * limiter.rate_per_minute
unfolding refilled
later_available limiter start now none le = omega arith
later_available limiter start now (some b) le = omega (
  arith,
  rate_split (start - b.last_refill) (now - start) (now - b.last_refill) limiter.rate_per_minute
      (omega arith),
)

pub last_refill-refilled :
    (limiter : Limiter) (now : Time) (bucket : Option Bucket)
    → (refilled limiter now bucket).last_refill ≡ now
unfolding refilled
last_refill-refilled limiter now none = refl
last_refill-refilled limiter now (some b) = refl

-- A bucket that was just refilled gets nothing more.
refilled_again :
    (limiter : Limiter) (now : Time) (b : Bucket)
    → b.last_refill ≡ now
    → available limiter now (some b) ≤ b.tokens
unfolding refilled
refilled_again limiter now b e =
    let now_too : now - b.last_refill ≡ 0 = omega (arith, e) in
    let nothing : (now - b.last_refill) * limiter.rate_per_minute ≡ 0 = rw now_too (omega arith) in
    omega (arith, nothing)

-- What a call of `allow` leaves of a bucket, and whether it lets the caller through.
spent :
    (limiter : Limiter) (key : Text) (now : Time) (buckets : Dict Bucket)
    → let answer = allow limiter key now buckets in
      available limiter now (get answer.1 key) + (if answer.0.0 then token else 0)
      ≤ available limiter now (get buckets key)
unfolding allow
spent limiter key now buckets =
    let bucket = refilled limiter now (get buckets key) in
    let just_now = last_refill-refilled limiter now (get buckets key) in
    elim (Bool-cases (leb token bucket.tokens)) [
      | inl enough ↦
          rw (enough, get-put_self buckets key (record bucket { tokens = bucket.tokens - token }))
            (ground (
              arith,
              enough,
              refilled_again limiter now (record bucket { tokens = bucket.tokens - token })
                  just_now,
            ))
      | inr short ↦
          rw (short, get-put_self buckets key bucket)
            (omega (arith, refilled_again limiter now bucket just_now))
    ]

pub other_bucket :
    (limiter : Limiter) (caller key : Text) (now : Time) (buckets : Dict Bucket)
    → text_eq caller key ≡ false
    → get (allow limiter caller now buckets).1 key ≡ get buckets key
unfolding allow
other_bucket limiter caller key now buckets other =
    let bucket = refilled limiter now (get buckets caller) in
    elim (Bool-cases (leb token bucket.tokens)) [
      | inl enough ↦ rw enough (get-put buckets caller key _ ∙ rw other refl)
      | inr short ↦ rw short (get-put buckets caller key _ ∙ rw other refl)
    ]

granted-available :
    (limiter : Limiter) (key : Text) (calls : List (Text × Time)) (start end : Time)
    (buckets : Dict Bucket)
    → Ordered start end calls
    → granted limiter key calls buckets * token
      ≤ available limiter start (get buckets key) + (end - start) * limiter.rate_per_minute
unfolding granted
granted-available limiter key [] start end buckets h = omega arith
granted-available limiter key ((caller, now) ∷ calls) start end buckets (le, h) =
    let rest = granted-available limiter key calls now end (allow limiter caller now buckets).1 h in
    let later = later_available limiter start now (get buckets key) le in
    let whole =
      rate_joined (now - start) (end - now) (end - start) limiter.rate_per_minute
        (omega (arith, le, Ordered-le now end calls h)) in
    elim (Bool-cases (text_eq caller key)) [
      | inl this ↦
          let same = eq_of_text_eq caller key this in
          ground (
            arith,
            this,
            rest,
            later,
            whole,
            subst
                (λ k.
                  let answer = allow limiter k now buckets in
                  available limiter now (get answer.1 key) + (if answer.0.0 then token else 0)
                  ≤ available limiter now (get buckets key))
                (sym same) (spent limiter key now buckets),
          )
      | inr another ↦ ground (
        arith,
        another,
        rest,
        later,
        whole,
        ap (available limiter now) (other_bucket limiter caller key now buckets another),
      )
    ]

available_le :
    (limiter : Limiter) (now : Time) (bucket : Option Bucket)
    → available limiter now bucket ≤ limiter.burst * token
unfolding refilled
available_le limiter now none = omega arith
available_le limiter now (some b) = omega arith

-- Of the requests of a caller between two times, in their order and among those of any other callers,
-- the limiter lets through at most its burst and what its rate refills in this time.
pub granted_le :
    (limiter : Limiter) (key : Text) (calls : List (Text × Time)) (start end : Time)
    (buckets : Dict Bucket)
    → Ordered start end calls
    → granted limiter key calls buckets * token
      ≤ limiter.burst * token + (end - start) * limiter.rate_per_minute
granted_le limiter key calls start end buckets h = omega (
  arith,
  granted-available limiter key calls start end buckets h,
  available_le limiter start (get buckets key),
)
