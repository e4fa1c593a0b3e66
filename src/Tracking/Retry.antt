-- ===== src/Tracking/Retry.antt =====
-- `_fetch` and `_fetch_with_retry`.
use product_updates.Domain.Enums.{error, no_method, is_transient}
use product_updates.Domain.Results.{FetchResult, failure}
use product_updates.Prelude.{
  ℕ, zero, suc, ◌+◌, ◌-◌, ◌^◌, ◌≤◌, ◌<◌, ◌≡◌, arith, true, Text, codes, none, ◌++◌, max, min,
  if◌then◌else◌, Bool-cases, inl, inr, ap, ◌==◌, ◌∙◌,
}

-- What the body of the `try` did: it returned the adapter's result, or raised an exception, of which
-- the type's name and the text are read. The validation of the URL, the choice of the adapter and
-- the adapter itself are behind it.
pub data Fetched : Type 0 where
  returned : FetchResult → Fetched
  raised : Text → Text → Fetched

-- `_fetch`: any exception becomes a failed result.
unfoldable pub fetch : Fetched → FetchResult
fetch (returned result) = result
fetch (raised type_name text) = failure error (type_name ++ (codes ": " ++ text)) no_method none

-- The loop: `attempt` fetches have been made, of which the last gave `result`.
retry_loop : (ℕ → Fetched) → ℕ → ℕ → FetchResult → FetchResult × ℕ
retry_loop world zero attempt result = (result, attempt)
retry_loop world (suc left) attempt result =
    let again = retry_loop world left (suc attempt) (fetch (world attempt)) in
    if is_transient result.outcome then again else (result, attempt)

-- `world i` is what the fetch of index `i` meets.
unfoldable pub fetch_with_retry : ℕ → (ℕ → Fetched) → FetchResult × ℕ
unfolding retry_loop
fetch_with_retry max_retries world = retry_loop world (max 1 max_retries - 1) 1 (fetch (world 0))

-- the seconds that `_backoff` waits before its random part, which is below one half
unfoldable pub backoff_base : ℕ → ℕ
backoff_base attempt = min (2 ^ (attempt - 1)) 8

-- How the loop ends after `n` fetches: it returns the last, every earlier one was transient, and it
-- stopped because that one is not transient or because the budget is used up.
pub record Ended (world : ℕ → Fetched) (from budget : ℕ) (r : FetchResult × ℕ) : Type 0 where
  pub last : (k : ℕ) → r.1 ≡ suc k → r.0 ≡ fetch (world k)
  pub at_least : from ≤ r.1
  pub at_most : r.1 ≤ budget
  pub earlier : (k : ℕ) → from ≤ suc k → suc k < r.1 → is_transient (fetch (world k)).outcome ≡ true
  pub gave_up : is_transient r.0.outcome ≡ true → r.1 ≡ budget

one_fetch :
    (world : ℕ → Fetched) (k : ℕ) (n : ℕ) → suc k ≡ suc n → fetch (world k) ≡ fetch (world n)
one_fetch world k n e = ap (λ i. fetch (world i)) (omega (arith, e))

-- An earlier transient fetch in front of the loop.
Ended-earlier :
    (world : ℕ → Fetched) (k budget : ℕ) (r : FetchResult × ℕ)
    → is_transient (fetch (world k)).outcome ≡ true
    → Ended world (suc (suc k)) budget r
    → Ended world (suc k) budget r
Ended-earlier world k budget r again h = record {
  last = h.last;
  at_least = omega (arith, h.at_least);
  at_most = h.at_most;
  earlier = λ i from before. elim (Bool-cases (i == k)) [
    | inl e ↦ ap (λ j. is_transient (fetch (world j)).outcome) (ground (arith, e)) ∙ again
    | inr ne ↦ h.earlier i (ground arith) before
  ];
  gave_up = h.gave_up;
}

retry_loop-Ended :
    (world : ℕ → Fetched) (left k budget : ℕ)
    → suc k + left ≡ budget
    → Ended world (suc k) budget (retry_loop world left (suc k) (fetch (world k)))
unfolding retry_loop
retry_loop-Ended world zero k budget e = record {
  last = λ n. one_fetch world k n;
  at_least = omega arith;
  at_most = omega arith;
  earlier = λ i from before. absurd (omega arith);
  gave_up = λ _. omega arith;
}
retry_loop-Ended world (suc left) k budget e =
    elim (Bool-cases (is_transient (fetch (world k)).outcome)) [
      | inl again ↦ rw again (
          Ended-earlier world k budget _ again
            (retry_loop-Ended world left (suc k) budget (omega arith)))
      | inr done ↦ rw done (record {
        last = λ n. one_fetch world k n;
        at_least = omega arith;
        at_most = omega arith;
        earlier = λ i from before. absurd (omega arith);
        gave_up = λ t. ground arith;
      })
    ]

-- The fetches of a check: between one and `max 1 max_retries` are made, the last one is the result,
-- every earlier one was transient, and a transient result means that the budget is used up.
pub fetch_with_retry-Ended :
    (max_retries : ℕ) (world : ℕ → Fetched)
    → Ended world 1 (max 1 max_retries) (fetch_with_retry max_retries world)
unfolding fetch_with_retry
fetch_with_retry-Ended max_retries world =
    retry_loop-Ended world (max 1 max_retries - 1) 0 (max 1 max_retries) (omega arith)
