-- ===== src/Comparison/Cheapest.antt =====
-- The best price of a row, the shops that have it, and the spread.
use mathlib.Core.Path.{subst}
use product_updates.Comparison.{Cell}
use product_updates.Comparison.Rows.{
  Row, usable_price, prices_of, least, lower, least_of, best_price, slugs_at, best_store_slugs,
  costs, with_price, slugs_if,
}
use product_updates.Decimal.{Decimal, same, below}
use product_updates.Decimal.Order.{
  same_refl, same_sym, below_irrefl, below_asym, trichotomy, not_below_trans,
}
use product_updates.Dict.{Dict}
use product_updates.Prelude.{
  ◌≡◌, ◌↔◌, ◌⊎◌, ◌∷◌, [], some, none, Option, List, Text, Bool, true, false, All, Any, arith, inl,
  inr, refl, Bool-cases, All-mono, All-at, if◌then◌else◌, sym, ◌∙◌, All-self,
}

-- no price of the list is below `p`
abbrev pub IsLeast : Decimal → List Decimal → Type 0
IsLeast p ps = All (λ q. below q p ≡ false) ps

lower-below :
    (p best : Decimal)
    → (below best (lower p best) ≡ false)
      × (below p (lower p best) ≡ false)
      × ((lower p best ≡ p) ⊎ (lower p best ≡ best))
unfolding lower
lower-below p best = elim (Bool-cases (below p best)) [
  | inl e ↦ rw e (below_asym p best e, below_irrefl p p (same_refl p), inl refl)
  | inr e ↦ rw e (below_irrefl best best (same_refl best), e, inr refl)
]

least-IsLeast :
    (best : Decimal) (ps : List Decimal)
    → (below best (least best ps) ≡ false) × IsLeast (least best ps) ps
unfolding least
least-IsLeast best [] = (below_irrefl best best (same_refl best), tt)
least-IsLeast best (p ∷ ps) =
    let m = least (lower p best) ps in
    let rest = least-IsLeast (lower p best) ps in
    let (b, q, o) = lower-below p best in
    (
      not_below_trans best (lower p best) m b rest.0,
      (not_below_trans p (lower p best) m q rest.0, rest.1),
    )

least-Any : (best : Decimal) (ps : List Decimal) → Any (λ p. p ≡ least best ps) (best ∷ ps)
unfolding least
least-Any best [] = inl refl
least-Any best (p ∷ ps) = elim (least-Any (lower p best) ps) [
  | inr later ↦ inr (inr later)
  | inl first ↦ elim (lower-below p best).2 [
    | inl e ↦ inr (inl (sym e ∙ first))
    | inr e ↦ inl (sym e ∙ first)
  ]
]

-- The best price is one of the prices, and none is below it.
pub least_of-IsLeast :
    (ps : List Decimal) (b : Decimal) → least_of ps ≡ some b → Any (λ p. p ≡ b) ps × IsLeast b ps
unfolding least_of
least_of-IsLeast [] b h = ground arith
least_of-IsLeast (p ∷ ps) b h =
    let e : least p ps ≡ b = ground (arith, h) in
    subst (λ c. Any (λ q. q ≡ c) (p ∷ ps) × IsLeast c (p ∷ ps)) e
      (least-Any p ps, least-IsLeast p ps)

pub least_of-none : (ps : List Decimal) → least_of ps ≡ none → ps ≡ []
unfolding least_of
least_of-none [] h = refl
least_of-none (p ∷ ps) h = ground arith

-- the cell has a price, and no price of the row is below it
pub IsCheapest : List Decimal → Cell → Type 0
IsCheapest prices cell = (p : Decimal) × ((usable_price cell ≡ some p) × IsLeast p prices)

-- equal prices have the same ones below them
IsLeast-same : (p b : Decimal) (ps : List Decimal) → same p b ≡ true → IsLeast b ps → IsLeast p ps
IsLeast-same p b ps e h =
    All-mono _ _ ps
      (λ q not_below. not_below_trans q b p not_below (below_irrefl b p (same_sym p b e))) h

costs-IsCheapest :
    (b : Decimal) (prices : List Decimal) (o : Option Decimal)
    → Any (λ p. p ≡ b) prices
    → IsLeast b prices
    → All (λ p. Any (λ q. q ≡ p) prices) (with_price o [])
    → (costs b o ≡ true) ↔ ((p : Decimal) × ((o ≡ some p) × IsLeast p prices))
costs-IsCheapest b prices none i least listed =
    (λ h. absurd (ground arith), λ (p, (e, h)). absurd (ground arith))
costs-IsCheapest b prices (some p) i least listed =
    (λ h. (p, (refl, IsLeast-same p b prices h least)), backward)
  where
    high : below p b ≡ false
    high = All-at (λ q. below q b ≡ false) prices p least listed.0

    backward : ((r : Decimal) × ((some p ≡ some r) × IsLeast r prices)) → same p b ≡ true
    backward (r, (e, cheapest)) =
        let low : below b r ≡ false = All-at (λ q. below q r ≡ false) prices b cheapest i in
        ground (arith, e, low, high, trichotomy p b)

-- an entry of the row for the shop, with a price that no price of the row is below
pub OffersLeast : List Decimal → Text → Text × Cell → Type 0
OffersLeast prices shop entry = (entry.0 ≡ shop) × IsCheapest prices entry.1

with_price-All :
    (P : Decimal → Type 0) (o : Option Decimal) (ps : List Decimal)
    → All P (with_price o ps)
    → All P (with_price o []) × All P ps
with_price-All P none ps h = (tt, h)
with_price-All P (some p) ps h = ((h.0, tt), h.1)

kept_if-exact :
    (t : Bool) (slug shop : Text) (rest : List Text) (C T : Type 0)
    → (t ≡ true) ↔ C
    → Any (λ s. s ≡ shop) rest ↔ T
    → Any (λ s. s ≡ shop) (if t then slug ∷ rest else rest) ↔ (((slug ≡ shop) × C) ⊎ T)
kept_if-exact true slug shop rest C T head tail = (
  λ h. elim h [ inl e ↦ inl (e, head.0 refl) | inr i ↦ inr (tail.0 i) ],
  λ h. elim h [ inl here ↦ inl here.0 | inr i ↦ inr (tail.1 i) ],
)
kept_if-exact false slug shop rest C T head tail = (
  λ h. inr (tail.0 h),
  λ h. elim h [ inl here ↦ absurd (ground (arith, head.1 here.1)) | inr i ↦ tail.1 i ],
)

slugs_at-exact :
    (b : Decimal) (prices : List Decimal) (cells : Dict Cell) (shop : Text)
    → Any (λ p. p ≡ b) prices
    → IsLeast b prices
    → All (λ p. Any (λ q. q ≡ p) prices) (prices_of cells)
    → Any (λ s. s ≡ shop) (slugs_at b cells) ↔ Any (OffersLeast prices shop) cells
unfolding slugs_at prices_of IsCheapest OffersLeast
slugs_at-exact b prices [] shop i least listed = (λ h. h, λ h. h)
slugs_at-exact b prices ((slug, cell) ∷ cells) shop i least listed =
    let parts = with_price-All _ (usable_price cell) (prices_of cells) listed in
    kept_if-exact (costs b (usable_price cell)) slug shop (slugs_at b cells)
      (IsCheapest prices cell) (Any (OffersLeast prices shop) cells)
      (costs-IsCheapest b prices (usable_price cell) i least parts.0)
      (slugs_at-exact b prices cells shop i least parts.1)

-- A row without a price has no cheapest cell.
no_price-OffersLeast :
    (cells : Dict Cell) (prices : List Decimal) (shop : Text)
    → prices_of cells ≡ []
    → Any (OffersLeast prices shop) cells
    → ⊥
unfolding prices_of OffersLeast IsCheapest
no_price-OffersLeast [] prices shop e h = h
no_price-OffersLeast ((slug, cell) ∷ cells) prices shop e (inl (s, (p, (u, l)))) = ground (arith, u)
no_price-OffersLeast ((slug, cell) ∷ cells) prices shop e (inr h) =
    go (usable_price cell) e (λ k. no_price-OffersLeast cells prices shop k h)
  where
    go : (o : Option Decimal) → with_price o (prices_of cells) ≡ [] → (prices_of cells ≡ [] → ⊥) → ⊥
    go none k rest = rest k
    go (some p) k rest = ground arith

-- The shops named as best for a row are exactly those with a usable price in it that no usable
-- price of the row is below: all of a tie, and none for a row without a usable price.
best_store_slugs_exact :
    (row : Row) (shop : Text)
    → Any (λ s. s ≡ shop) (best_store_slugs row)
      ↔ Any (OffersLeast (prices_of row.cells) shop) row.cells
unfolding best_store_slugs best_price slugs_if
best_store_slugs_exact row shop = go (least_of (prices_of row.cells)) refl
  where
    go :
        (o : Option Decimal)
        → least_of (prices_of row.cells) ≡ o
        → Any (λ s. s ≡ shop) (slugs_if o row.cells)
          ↔ Any (OffersLeast (prices_of row.cells) shop) row.cells
    go none e =
        (λ h. absurd h, λ h. absurd (no_price-OffersLeast row.cells _ shop (least_of-none _ e) h))
    go (some b) e =
        let least = least_of-IsLeast (prices_of row.cells) b e in
        slugs_at-exact b _ row.cells shop least.0 least.1 (All-self (prices_of row.cells))
