-- ===== src/Claims.antt =====
-- scheduler/claims.py: the lease on a check. The two statements are atomic, so each call is one step.
pub mod Exclusive
pub mod Free
use product_updates.Domain.Contexts.{Time, second}
use product_updates.Prelude.{
  ◌+◌, ◌*◌, if◌then◌else◌, ltb, ◌==◌, ◌&&◌, some, none, List, [], ◌∷◌, Text, text_eq, ℕ, Bool, true,
  false, Option,
}

-- the two columns of a row of `products`
pub record Claim : Type 0 where
  pub product_id : ℕ
  pub claimed_at : Option Time
  pub claimed_by : Option Text

-- `DEFAULT_LEASE_SECONDS`
abbrev pub default_lease_seconds : ℕ
default_lease_seconds = 900

-- the condition of `_CLAIM`: nobody holds the claim, or the lease is over
unfoldable pub is_free : ℕ → Time → Claim → Bool
is_free lease_seconds now row = elim row.claimed_at [
  | none ↦ true
  | some at ↦ ltb (at + lease_seconds * second) now
]

-- `claim`: whether the statement returned a row; the ids are unique.
unfoldable pub claim : ℕ → Text → ℕ → Time → List Claim → Bool × List Claim
unfolding is_free
claim product_id worker lease_seconds now [] = (false, [])
claim product_id worker lease_seconds now (row ∷ rows) =
    let rest = claim product_id worker lease_seconds now rows in
    if row.product_id == product_id
    then (if is_free lease_seconds now row
        then (true, record row { claimed_at = some now; claimed_by = some worker } ∷ rows)
        else (false, row ∷ rows))
    else (rest.0, row ∷ rest.1)

-- this worker holds the claim
unfoldable pub is_held_by : Text → Claim → Bool
is_held_by worker row = elim row.claimed_by [ none ↦ false | some holder ↦ text_eq holder worker ]

-- `release`
unfoldable pub release : ℕ → Text → List Claim → List Claim
unfolding is_held_by
release product_id worker [] = []
release product_id worker (row ∷ rows) =
    (if (row.product_id == product_id) && is_held_by worker row
      then record row { claimed_at = none; claimed_by = none }
      else row)
    ∷ release product_id worker rows

-- What a worker does. The block of `claimed` lies between a claim that was granted and its release,
-- which comes also when the block raises; a worker that dies never comes to it.
pub data Step : Type 0 where
  claims : ℕ → Text → Time → Step
  releases : ℕ → Text → Step

-- the answers of the claims, in order: the product, the worker and whether it was granted
unfoldable pub run_steps : ℕ → List Step → List Claim → List (ℕ × (Text × Bool)) × List Claim
unfolding claim release
run_steps lease_seconds [] rows = ([], rows)
run_steps lease_seconds (claims product_id worker now ∷ steps) rows =
    let answer = claim product_id worker lease_seconds now rows in
    let rest = run_steps lease_seconds steps answer.1 in
    ((product_id, (worker, answer.0)) ∷ rest.0, rest.1)
run_steps lease_seconds (releases product_id worker ∷ steps) rows =
    run_steps lease_seconds steps (release product_id worker rows)
