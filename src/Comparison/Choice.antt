-- ===== src/Comparison/Choice.antt =====
-- `_one_per_store` answers for each shop the listing that no other one of the shop beats.
use mathlib.Core.Path.{subst}
use product_updates.Comparison.{Listing, prefer, prefer_price, one_per_store}
use product_updates.Comparison.Best.{
  sells_at, Yields, choose_from-Yields, choose_from-From, choose_from-none,
}
use product_updates.Decimal.{Decimal, below, same}
use product_updates.Decimal.Order.{same_refl, below_irrefl, trichotomy, same_sym}
use product_updates.Dict.{get}
use product_updates.Prelude.{
  ◌⊎◌, ◌≤◌, Bool-cases, keep, ◌≡◌, inl, inr, true, false, none, some, Option, ℕ, arith, List, [],
  ◌∷◌, All, Any, Text, refl, is_some, sym, ◌∙◌, All-at, ap,
}

-- a listing of the shop, and none of the shop beats it
record IsBestAt (shop : Text) (q : Listing) (listings : List Listing) : Type 0 where
  pub is_listed : Any (λ x. (x ≡ q) × (sells_at shop x ≡ true)) listings
  pub is_unbeaten : All (Yields shop q) listings

prefer_irrefl : (q : Listing) → prefer q q ≡ false
unfolding prefer prefer_price
prefer_irrefl q = go q.product.current_price
  where
    go : (o : Option Decimal) → prefer_price o o q.product.id q.product.id ≡ false
    go none = refl
    go (some p) = ground (arith, same_refl p)

one_per_store-IsBestAt :
    (listings : List Listing) (shop : Text) (q : Listing)
    → get (one_per_store listings) shop ≡ some q
    → IsBestAt shop q listings
unfolding one_per_store get
one_per_store-IsBestAt listings shop q e = elim (choose_from-From shop q listings [] e) [
  | inl listed ↦ record {
    is_listed = listed;
    is_unbeaten = (choose_from-Yields shop q listings [] e (prefer_irrefl q)).0;
  }
  | inr held ↦ ground arith
]

-- all listings of one are listings of the other
abbrev AllIn : List Listing → List Listing → Type 0
AllIn xs ys = All (λ x. Any (λ y. y ≡ x) ys) xs

abbrev HasUniqueIds : List Listing → Type 0
HasUniqueIds xs =
    (a b : Listing)
    → Any (λ y. y ≡ a) xs
    → Any (λ y. y ≡ b) xs
    → a.product.id ≡ b.product.id
    → a ≡ b

equal_rank-id :
    (p q : Option Decimal) (i j : ℕ)
    → is_some p ≡ true
    → prefer_price p q i j ≡ false
    → prefer_price q p j i ≡ false
    → i ≡ j
unfolding prefer_price
equal_rank-id none q i j h hp hq = ground arith
equal_rank-id (some p) none i j h hp hq = ground arith
equal_rank-id (some p) (some q) i j h hp hq =
    ground (arith, trichotomy p q, below_irrefl q p, same_sym p q, same_sym q p)

-- what beats no price has one
unbeaten-priced :
    (p q : Option Decimal) (i j : ℕ)
    → is_some p ≡ true
    → prefer_price p q i j ≡ false
    → is_some q ≡ true
unfolding prefer_price
unbeaten-priced none q i j h k = ground arith
unbeaten-priced (some p) none i j h k = ground arith
unbeaten-priced (some p) (some q) i j h k = refl

module _ (xs : List Listing) (shop : Text) (q : Listing) where
  IsBestAt-Member : IsBestAt shop q xs → Any (λ y. y ≡ q) xs × (sells_at shop q ≡ true)
  IsBestAt-Member best = go xs best.is_listed
    where
      go :
          (ys : List Listing)
          → Any (λ x. (x ≡ q) × (sells_at shop x ≡ true)) ys
          → Any (λ y. y ≡ q) ys × (sells_at shop q ≡ true)
      go [] h = absurd h
      go (y ∷ ys) (inl (e, s)) = (inl e, subst (λ z. sells_at shop z ≡ true) e s)
      go (y ∷ ys) (inr h) = let rest = go ys h in (inr rest.0, rest.1)

  -- a listing with a price at the shop: what is chosen there has one too
  unbeaten-is_priced :
      (m : Listing)
      → Any (λ y. y ≡ m) xs
      → sells_at shop m ≡ true
      → is_some m.product.current_price ≡ true
      → All (Yields shop q) xs
      → is_some q.product.current_price ≡ true
  unfolding prefer
  unbeaten-is_priced m i here priced yields =
      unbeaten-priced m.product.current_price q.product.current_price m.product.id q.product.id
        priced (All-at (Yields shop q) xs m yields i here)

-- both unbeaten, one of them with a price
both_best :
    (xs ys : List Listing) (shop : Text) (q r : Listing)
    → HasUniqueIds xs
    → AllIn xs ys
    → AllIn ys xs
    → is_some q.product.current_price ≡ true
    → IsBestAt shop q xs
    → IsBestAt shop r ys
    → q ≡ r
unfolding prefer
both_best xs ys shop q r unique xy yx priced bq br =
    let mq = IsBestAt-Member xs shop q bq in
    let mr = IsBestAt-Member ys shop r br in
    let q_in_ys = All-at (λ x. Any (λ y. y ≡ x) ys) xs q xy mq.0 in
    let r_in_xs = All-at (λ x. Any (λ y. y ≡ x) xs) ys r yx mr.0 in
    let rq = All-at (Yields shop q) xs r bq.is_unbeaten r_in_xs mr.1 in
    let qr = All-at (Yields shop r) ys q br.is_unbeaten q_in_ys mq.1 in
    unique q r mq.0 r_in_xs (
      equal_rank-id q.product.current_price r.product.current_price q.product.id r.product.id priced
        qr rq)

-- Where some listing of a shop has a price, and listings with one id are one listing, the choice
-- for the shop does not depend on the order of the rows, nor on rows that are there twice.
one_per_store-order :
    (xs ys : List Listing) (shop : Text) (m : Listing)
    → HasUniqueIds xs
    → AllIn xs ys
    → AllIn ys xs
    → Any (λ y. y ≡ m) xs
    → sells_at shop m ≡ true
    → is_some m.product.current_price ≡ true
    → get (one_per_store xs) shop ≡ get (one_per_store ys) shop
unfolding one_per_store
one_per_store-order xs ys shop m unique xy yx i here priced =
    go (get (one_per_store xs) shop) (get (one_per_store ys) shop) refl refl
  where
    m_in_ys : Any (λ y. y ≡ m) ys
    m_in_ys = All-at (λ x. Any (λ y. y ≡ x) ys) xs m xy i

    go :
        (o p : Option Listing)
        → get (one_per_store xs) shop ≡ o
        → get (one_per_store ys) shop ≡ p
        → get (one_per_store xs) shop ≡ get (one_per_store ys) shop
    go none p eo ep =
        let away = choose_from-none shop xs [] eo in
        let gone : sells_at shop m ≡ false = All-at (λ x. sells_at shop x ≡ false) xs m away.0 i in
        ground (arith, gone)
    go (some q) none eo ep =
        let away = choose_from-none shop ys [] ep in
        let gone : sells_at shop m ≡ false =
          All-at (λ x. sells_at shop x ≡ false) ys m away.0 m_in_ys in
        ground (arith, gone)
    go (some q) (some r) eo ep =
        let bq = one_per_store-IsBestAt xs shop q eo in
        let br = one_per_store-IsBestAt ys shop r ep in
        let same_one =
          both_best xs ys shop q r unique xy yx
            (unbeaten-is_priced xs shop q m i here priced bq.is_unbeaten) bq br in
        eo ∙ ap some same_one ∙ sym ep

-- no dearer, by the prices and the ids: where the other has a price, this has one too, a lower one, or
-- the same with an id that is not larger
pub NoDearerPrice : Option Decimal → Option Decimal → ℕ → ℕ → Type 0
NoDearerPrice o none i j = Unit
NoDearerPrice none (some p) i j = ⊥
NoDearerPrice (some r) (some p) i j = (below r p ≡ true) ⊎ ((same r p ≡ true) × (i ≤ j))

abbrev pub NoDearer : Listing → Listing → Type 0
NoDearer q x =
    NoDearerPrice q.product.current_price x.product.current_price q.product.id x.product.id

-- What the square of a shop promises.
pub record IsCheapestAt (shop : Text) (q : Listing) (listings : List Listing) : Type 0 where
  pub is_listed : Any (λ x. (x ≡ q) × (sells_at shop x ≡ true)) listings
  pub is_cheapest : All (NoDearer q) (keep (sells_at shop) listings)

unbeaten-NoDearerPrice :
    (q x : Option Decimal) (i j : ℕ) → prefer_price x q j i ≡ false → NoDearerPrice q x i j
unfolding NoDearerPrice prefer_price
unbeaten-NoDearerPrice q none i j h = tt
unbeaten-NoDearerPrice none (some p) i j h = ground (arith, h)
unbeaten-NoDearerPrice (some r) (some p) i j h = elim (Bool-cases (same p r)) [
  | inl one ↦ inr (same_sym p r one, ground (arith, h, one))
  | inr two ↦ inl (trichotomy p r two (ground (arith, h, two)))
]

Yields-NoDearer :
    (shop : Text) (q : Listing) (xs : List Listing)
    → All (Yields shop q) xs
    → All (NoDearer q) (keep (sells_at shop) xs)
unfolding prefer
Yields-NoDearer shop q [] h = tt
Yields-NoDearer shop q (x ∷ xs) h = elim (Bool-cases (sells_at shop x)) [
  | inl here ↦ rw here (unbeaten-NoDearerPrice _ _ _ _ (h.0 here), Yields-NoDearer shop q xs h.1)
  | inr away ↦ rw away (Yields-NoDearer shop q xs h.1)
]

-- The listing chosen for a shop is one of the shop's listings, and no other one of the shop is
-- cheaper: where another has a price, it has one too, which is lower, or the same with an id that is
-- not larger. Whether it can be bought plays no part.
pub one_per_store-IsCheapestAt :
    (listings : List Listing) (shop : Text) (q : Listing)
    → get (one_per_store listings) shop ≡ some q
    → IsCheapestAt shop q listings
one_per_store-IsCheapestAt listings shop q e =
    let best = one_per_store-IsBestAt listings shop q e in
    record {
      is_listed = best.is_listed;
      is_cheapest = Yields-NoDearer shop q listings best.is_unbeaten;
    }
