-- ===== src/Claims/Free.antt =====
-- Which claims would be granted, and that a claim and its release leave those of other products alone.
use product_updates.Claims.{Claim, claim, release, is_free, is_held_by}
use product_updates.Domain.Contexts.{Time}
use product_updates.Prelude.{
  ◌==◌, ◌&&◌, if◌then◌else◌, List, [], ◌∷◌, Text, ℕ, Bool, false, ◌≡◌, arith, refl, inl, inr,
  Bool-cases,
}

-- a claim of the product would be granted: it has a row, and the claim in it is free
abbrev pub is_open : ℕ → ℕ → Time → List Claim → Bool
is_open id lease now [] = false
is_open id lease now (row ∷ rows) =
    if row.product_id == id then is_free lease now row else is_open id lease now rows

pub claim-is_open :
    (id : ℕ) (worker : Text) (lease : ℕ) (now : Time) (rows : List Claim)
    → (claim id worker lease now rows).0 ≡ is_open id lease now rows
unfolding claim
claim-is_open id worker lease now [] = refl
claim-is_open id worker lease now (row ∷ rows) =
    let rest = claim-is_open id worker lease now rows in
    elim (Bool-cases (row.product_id == id)) [
      | inl e ↦ elim (Bool-cases (is_free lease now row)) [
        | inl f ↦ rw (e, f) refl
        | inr f ↦ rw (e, f) refl
      ]
      | inr e ↦ rw e rest
    ]

module _ (id other : ℕ) (worker : Text) (lease : ℕ) (now : Time) where
  pub claim-is_open_other :
      (at : Time) (rows : List Claim)
      → (other == id) ≡ false
      → is_open other lease at (claim id worker lease now rows).1 ≡ is_open other lease at rows
  unfolding claim is_free
  claim-is_open_other at [] away = refl
  claim-is_open_other at (row ∷ rows) away =
      let rest = claim-is_open_other at rows away in
      elim (Bool-cases (row.product_id == id)) [
        | inl e ↦
            let theirs : (row.product_id == other) ≡ false = ground (arith, e, away) in
            elim (Bool-cases (is_free lease now row)) [
              | inl f ↦ rw (e, f, theirs) refl
              | inr f ↦ rw (e, f, theirs) refl
            ]
        | inr e ↦ rw (e, rest) refl
      ]

  pub release-is_open_other :
      (at : Time) (rows : List Claim)
      → (other == id) ≡ false
      → is_open other lease at (release id worker rows) ≡ is_open other lease at rows
  unfolding release is_free
  release-is_open_other at [] away = refl
  release-is_open_other at (row ∷ rows) away =
      let rest = release-is_open_other at rows away in
      elim (Bool-cases ((row.product_id == id) && is_held_by worker row)) [
        | inl e ↦
            let theirs : (row.product_id == other) ≡ false = ground (arith, e, away) in
            rw (e, theirs, rest) refl
        | inr e ↦ rw (e, rest) refl
      ]
