-- ===== src/Runner/Open.antt =====
-- The ids of a pass, and which of their claims are open when their turn comes.
use product_updates.Claims.{Claim, claim, release, default_lease_seconds}
use product_updates.Domain.Contexts.{Time}
use product_updates.Claims.Free.{is_open, claim-is_open_other, release-is_open_other}
use product_updates.Prelude.{
  if◌then◌else◌, map, keep, false, ℕ, suc, ◌==◌, List, [], ◌∷◌, Text, Bool, take, All, All-mono,
  ◌≡◌, refl, ◌∙◌, inl, inr, Bool-cases, zero,
}
use product_updates.Runner.{Visit}
use product_updates.Tracking.{Product}

-- No id stands twice.
abbrev pub IsUnique : List ℕ → Type 0
IsUnique [] = Unit
IsUnique (id ∷ ids) = All (λ other. (other == id) ≡ false) ids × IsUnique ids

-- The ids whose claims are open when their turn comes, by the claims as they stand before the pass.
abbrev pub open_ids : (ℕ → Visit) → List ℕ → List Claim → List ℕ
open_ids visits [] claims = []
open_ids visits (id ∷ ids) claims =
    let rest = open_ids (λ i. visits (suc i)) ids claims in
    if is_open id default_lease_seconds (visits 0).claimed_at claims then id ∷ rest else rest

-- the same claims are open
abbrev pub SameOpen : List ℕ → List Claim → List Claim → Type 0
SameOpen ids claims claims' =
    All
      (λ id.
        (at : Time)
        → is_open id default_lease_seconds at claims' ≡ is_open id default_lease_seconds at claims)
      ids

pub open_ids-SameOpen :
    (visits : ℕ → Visit) (ids : List ℕ) (claims claims' : List Claim)
    → SameOpen ids claims claims'
    → open_ids visits ids claims' ≡ open_ids visits ids claims
open_ids-SameOpen visits [] claims claims' h = refl
open_ids-SameOpen visits (id ∷ ids) claims claims' h =
    rw (h.0 (visits 0).claimed_at, open_ids-SameOpen (λ i. visits (suc i)) ids claims claims' h.1)
      refl

pub claim-SameOpen :
    (id : ℕ) (worker : Text) (at : Time) (claims : List Claim) (ids : List ℕ)
    → All (λ other. (other == id) ≡ false) ids
    → SameOpen ids claims (claim id worker default_lease_seconds at claims).1
claim-SameOpen id worker at claims ids h =
    All-mono _ _ ids
      (λ other away later.
        claim-is_open_other id other worker default_lease_seconds at later claims away)
      h

pub release-SameOpen :
    (id : ℕ) (worker : Text) (at : Time) (claims : List Claim) (ids : List ℕ)
    → All (λ other. (other == id) ≡ false) ids
    → SameOpen ids claims (release id worker (claim id worker default_lease_seconds at claims).1)
release-SameOpen id worker at claims ids h =
    All-mono _ _ ids
      (λ other away later.
        release-is_open_other id other worker default_lease_seconds at later
          (claim id worker default_lease_seconds at claims).1 away
        ∙ claim-is_open_other id other worker default_lease_seconds at later claims away)
      h

pub All-take {ℓ κ} :
    {A : Type ℓ} (P : A → Type κ) (n : ℕ) (xs : List A) → All P xs → All P (take n xs)
All-take P zero xs h = tt
All-take P (suc n) [] h = tt
All-take P (suc n) (x ∷ xs) h = (h.0, All-take P n xs h.1)

-- the ids that are kept are no others
All-map_keep :
    (P : ℕ → Type 0) (test : Product → Bool) (ps : List Product)
    → All P (map (λ p. p.id) ps)
    → All P (map (λ p. p.id) (keep test ps))
All-map_keep P test [] h = tt
All-map_keep P test (p ∷ ps) h = elim (Bool-cases (test p)) [
  | inl e ↦ rw e (h.0, All-map_keep P test ps h.1)
  | inr e ↦ rw e (All-map_keep P test ps h.1)
]

pub keep-IsUnique :
    (test : Product → Bool) (ps : List Product)
    → IsUnique (map (λ p. p.id) ps)
    → IsUnique (map (λ p. p.id) (keep test ps))
keep-IsUnique test [] h = tt
keep-IsUnique test (p ∷ ps) h = elim (Bool-cases (test p)) [
  | inl e ↦ rw e (All-map_keep _ test ps h.0, keep-IsUnique test ps h.1)
  | inr e ↦ rw e (keep-IsUnique test ps h.1)
]

pub take-IsUnique : (n : ℕ) (ids : List ℕ) → IsUnique ids → IsUnique (take n ids)
take-IsUnique zero ids h = tt
take-IsUnique (suc n) [] h = tt
take-IsUnique (suc n) (id ∷ ids) h = (All-take _ n ids h.0, take-IsUnique n ids h.1)
