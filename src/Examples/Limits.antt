-- ===== src/Examples/Limits.antt =====
-- Pacing, claims and the limit of the rate.
use product_updates.Claims.{Claim, claim, claims, releases, run_steps, is_free}
use product_updates.Claims.Exclusive.{claim_granted-Refused, Refused}
use product_updates.Dict.{get}
use product_updates.Pacing.{Limits, StoreState, run, state_of, before_call}
use product_updates.Pacing.Guard.{GuardWorld}
use product_updates.Pacing.Shared.{claiming, reporting, transact_all}
use product_updates.Pacing.Shared.Queue.{shared_slots-SpacedFrom}
use product_updates.Pacing.Spacing.{run-SpacedFrom, SpacedFrom, slots_of}
use product_updates.Prelude.{
  some, none, codes, refl, arith, [], ◌∷◌, ◌≡◌, true, false, All, ◌+◌, ◌*◌, ◌≤◌, ◌-◌, List, Text,
  text_eq,
}
use product_updates.RateLimit.{Limiter, allow, token, refilled, retry_after}
use product_updates.RateLimit.Rate.{granted_le, granted}
use product_updates.RateLimit.Waiting.{waited-granted, after_calls}

abbrev shop : Text
shop = codes "shop.test"

abbrev limits : Limits
limits = record { min_interval = 10; failure_threshold = 2; reset_seconds = 100 }

run-SpacedFrom_example :
    SpacedFrom 10 none
      (slots_of shop (run limits (before_call shop 0 1 ∷ before_call shop 2 0 ∷ []) []).0)
unfolding state_of get
run-SpacedFrom_example =
    run-SpacedFrom limits (before_call shop 0 1 ∷ before_call shop 2 0 ∷ []) [] shop

abbrev shut_state : StoreState
shut_state = record { last_request_at = some 5; consecutive_failures = 2; open_until = some 100 }

abbrev world : GuardWorld
world = record { clock = 50; jitter = 0; states = (shop, shut_state) ∷ [] }

abbrev unclaimed : List Claim
unclaimed = record { product_id = 7; claimed_at = none; claimed_by = none } ∷ []

claim_granted-Refused_example :
    All
      (Refused 7)
      (run_steps 900
        (claims 7 (codes "b") 20 ∷ releases 7 (codes "b") ∷ claims 7 (codes "c") 30 ∷ [])
        (claim 7 (codes "a") 900 10 unclaimed).1).0
unfolding claim is_free text_eq
claim_granted-Refused_example =
    claim_granted-Refused 900 7 (codes "a") 10 unclaimed
      (claims 7 (codes "b") 20 ∷ releases 7 (codes "b") ∷ claims 7 (codes "c") 30 ∷ []) (tt, tt)
      refl (omega arith, (refl, (omega arith, tt)))

abbrev limiter : Limiter
limiter = record { rate_per_minute = 60; burst = 1 }

granted_le_example :
    granted limiter shop ((shop, 1) ∷ (shop, 2) ∷ []) [] * token ≤ 1 * token + (2 - 1) * 60
granted_le_example =
    granted_le limiter shop ((shop, 1) ∷ (shop, 2) ∷ []) 1 2 []
      (omega arith, (omega arith, omega arith))

waited-granted_example :
    (allow limiter shop 2000002 (
      after_calls limiter
        ((codes "x", 9) ∷ [])
        (allow limiter shop 2 ((shop, record { tokens = 0; last_refill = 1 }) ∷ [])).1)).0.0
    ≡ true
unfolding allow refilled retry_after get text_eq
waited-granted_example =
    waited-granted limiter shop 2 2000002 ((shop, record { tokens = 0; last_refill = 1 }) ∷ [])
      ((codes "x", 9) ∷ []) (omega arith) (omega arith) (refl, tt) refl (omega arith)

shared_slots-SpacedFrom_example : SpacedFrom 10 none (
    slots_of shop
      (transact_all limits 60
        (claiming shop 3 1 ∷ reporting shop 4 false ∷ claiming shop 5 0 ∷ [])
        []).0)
shared_slots-SpacedFrom_example =
    shared_slots-SpacedFrom limits 60
      (claiming shop 3 1 ∷ reporting shop 4 false ∷ claiming shop 5 0 ∷ []) [] shop
