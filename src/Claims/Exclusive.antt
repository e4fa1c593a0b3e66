-- ===== src/Claims/Exclusive.antt =====
-- While a lease runs and its holder does not give it back, nobody else gets the claim.
use product_updates.Claims.{
  Claim, Step, claims, releases, claim, release, is_free, is_held_by, run_steps,
}
use product_updates.Domain.Contexts.{Time, second}
use product_updates.Prelude.{
  ◌+◌, ◌*◌, ◌≤◌, ◌==◌, ◌&&◌, some, List, [], ◌∷◌, Text, text_eq, ℕ, Bool, true, false, All, ◌≡◌,
  arith, refl, inl, inr, Bool-cases, ◌≢◌, All-mono,
}

-- Every row of the product is held by the worker since `at`.
abbrev Held : ℕ → Text → Time → List Claim → Type 0
Held product_id worker at rows =
    All (λ r. r.product_id ≡ product_id → (r.claimed_at ≡ some at) × (r.claimed_by ≡ some worker))
      rows

-- The step is no release by the holder, and a claim comes before the lease is over.
abbrev pub WithinLease : ℕ → ℕ → Text → Time → Step → Type 0
WithinLease lease product_id worker at (claims p w now) = now ≤ at + lease * second
WithinLease lease product_id worker at (releases p w) = text_eq worker w ≡ false

-- no claim of the product was granted
abbrev pub Refused : ℕ → ℕ × (Text × Bool) → Type 0
Refused product_id (p, (w, granted)) = p ≡ product_id → granted ≡ false

still_held :
    (lease : ℕ) (at now : Time) (row : Claim)
    → now ≤ at + lease * second
    → row.claimed_at ≡ some at
    → is_free lease now row ≡ false
unfolding is_free
still_held lease at now row early e = ground arith

claim-Held :
    (lease product_id : ℕ) (worker : Text) (at : Time) (p : ℕ) (w : Text) (now : Time)
    (rows : List Claim)
    → now ≤ at + lease * second
    → Held product_id worker at rows
    → Held product_id worker at (claim p w lease now rows).1
      × Refused product_id (p, (w, (claim p w lease now rows).0))
unfolding claim is_free
claim-Held lease product_id worker at p w now [] early h = (tt, λ e. refl)
claim-Held lease product_id worker at p w now (row ∷ rows) early (hr, h) =
    elim (Bool-cases (row.product_id == p)) [
      | inl this ↦ elim (Bool-cases (is_free lease now row)) [
        | inl free ↦
            let clash : row.product_id ≡ product_id → ⊥ =
              λ e. ground (arith, free, still_held lease at now row early (hr e).0) in
            rw (this, free)
              ((λ e. absurd (clash e), h), λ e. absurd (clash (ground (arith, this, e))))
        | inr busy ↦ rw (this, busy) ((hr, h), λ e. refl)
      ]
      | inr another ↦
          let rest = claim-Held lease product_id worker at p w now rows early h in
          rw another ((hr, rest.0), rest.1)
    ]

release-Held :
    (product_id : ℕ) (worker : Text) (at : Time) (p : ℕ) (w : Text) (rows : List Claim)
    → text_eq worker w ≡ false
    → Held product_id worker at rows
    → Held product_id worker at (release p w rows)
unfolding release is_held_by
release-Held product_id worker at p w [] other h = tt
release-Held product_id worker at p w (row ∷ rows) other (hr, h) = (
  elim (Bool-cases ((row.product_id == p) && is_held_by w row)) [
    | inl given_up ↦ rw given_up (λ e. absurd (ground (arith, given_up, (hr e).1, other)))
    | inr kept ↦ rw kept hr
  ],
  release-Held product_id worker at p w rows other h,
)

run_steps-Refused :
    (lease product_id : ℕ) (worker : Text) (at : Time) (steps : List Step) (rows : List Claim)
    → Held product_id worker at rows
    → All (WithinLease lease product_id worker at) steps
    → All (Refused product_id) (run_steps lease steps rows).0
unfolding run_steps
run_steps-Refused lease product_id worker at [] rows h within = tt
run_steps-Refused lease product_id worker at (claims p w now ∷ steps) rows h (early, within) =
    let answer = claim-Held lease product_id worker at p w now rows early h in
    (answer.1, run_steps-Refused lease product_id worker at steps _ answer.0 within)
run_steps-Refused lease product_id worker at (releases p w ∷ steps) rows h (other, within) =
    run_steps-Refused lease product_id worker at steps _
      (release-Held product_id worker at p w rows other h) within

abbrev pub UniqueIds : List Claim → Type 0
UniqueIds [] = Unit
UniqueIds (row ∷ rows) = All (λ r. r.product_id ≢ row.product_id) rows × UniqueIds rows

Held-granted :
    (lease product_id : ℕ) (worker : Text) (at : Time) (rows : List Claim)
    → UniqueIds rows
    → (claim product_id worker lease at rows).0 ≡ true
    → Held product_id worker at (claim product_id worker lease at rows).1
unfolding claim
Held-granted lease product_id worker at [] unique granted = tt
Held-granted lease product_id worker at (row ∷ rows) (apart, unique) granted =
    elim (Bool-cases (row.product_id == product_id)) [
      | inl this ↦ elim (Bool-cases (is_free lease at row)) [
        | inl free ↦
            rw (this, free)
              (
                (λ e. (refl, refl)),
                All-mono _ _ rows (λ r other e. absurd (other (ground (arith, this, e)))) apart,
              )
        | inr busy ↦ absurd (ground (arith, granted))
      ]
      | inr another ↦ rw another (
        (λ e. absurd (ground (arith, another, e))),
        Held-granted lease product_id worker at rows unique (ground (arith, granted, another)),
      )
    ]

-- Once a claim was granted, no claim of the product is granted until the lease is over or its holder
-- releases it, whatever the other workers claim and release; the rows have different ids.
pub claim_granted-Refused :
    (lease product_id : ℕ) (worker : Text) (at : Time) (rows : List Claim) (steps : List Step)
    → UniqueIds rows
    → (claim product_id worker lease at rows).0 ≡ true
    → All (WithinLease lease product_id worker at) steps
    → All (Refused product_id) (run_steps lease steps (claim product_id worker lease at rows).1).0
claim_granted-Refused lease product_id worker at rows steps unique granted within =
    run_steps-Refused lease product_id worker at steps _
      (Held-granted lease product_id worker at rows unique granted) within
