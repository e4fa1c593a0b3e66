-- ===== src/Comparison/Offers.antt =====
-- The order that `best_overall` compares rows by, and the first best shop of a row.
use product_updates.Comparison.{Cell}
use product_updates.Comparison.Cheapest.{least_of-IsLeast}
use product_updates.Comparison.Rows.{
  Row, usable_price, prices_of, best_price, slugs_at, best_store_slugs, costs, with_price, slugs_if,
  first_slug, improves, price_or,
}
use product_updates.Decimal.{Decimal, same, below}
use product_updates.Decimal.Order.{same_refl, below_asym, below_split}
use product_updates.Dict.{Dict}
use product_updates.Prelude.{
  ◌≡◌, ◌⊎◌, ◌∷◌, [], some, none, Option, List, Text, Bool, true, false, Any, arith, inl, inr, refl,
  Bool-cases, Option-cases, if◌then◌else◌, is_some,
}

-- a price that is below another, or where there is no other
unfoldable pub cheaper : Option Decimal → Option Decimal → Bool
cheaper none q = false
cheaper (some p) none = true
cheaper (some p) (some q) = below p q

pub cheaper_asym : (p q : Option Decimal) → cheaper p q ≡ true → cheaper q p ≡ false
unfolding cheaper
cheaper_asym none q h = ground arith
cheaper_asym (some p) none h = refl
cheaper_asym (some p) (some q) h = below_asym p q h

pub cheaper_split :
    (p q r : Option Decimal) → cheaper p r ≡ true → (cheaper p q ≡ true) ⊎ (cheaper q r ≡ true)
unfolding cheaper
cheaper_split none q r h = ground arith
cheaper_split (some p) none r h = inl refl
cheaper_split (some p) (some q) none h = inr refl
cheaper_split (some p) (some q) (some r) h = below_split p q r h

abbrev pub price_of : Option (Row × Text) → Option Decimal
price_of none = none
price_of (some best) = best_price best.0

-- the shop is one of the row's best, and the row has a price
abbrev pub IsValid : Option (Row × Text) → Type 0
IsValid none = Unit
IsValid (some best) =
    Any (λ s. s ≡ best.1) (best_store_slugs best.0) × (is_some (best_price best.0) ≡ true)

-- A price of zero, which counts as no price, is not improved on either.
pub below-price_or : (p b : Decimal) → below p (price_or (some b) p) ≡ below p b
unfolding price_or below
below-price_or p b = ground arith

pub improves-cheaper :
    (p : Decimal) (best : Option (Row × Text))
    → IsValid best
    → improves p best ≡ cheaper (some p) (price_of best)
unfolding improves cheaper
improves-cheaper p none valid = refl
improves-cheaper p (some best) valid = elim (Option-cases (best_price best.0)) [
  | inl e ↦ ground (arith, valid)
  | inr (b, e) ↦ rw e (below-price_or p b)
]

pub slugs_at-some :
    (b : Decimal) (cells : Dict Cell)
    → Any (λ p. p ≡ b) (prices_of cells)
    → (s : Text) × (first_slug (slugs_at b cells) ≡ some s)
unfolding slugs_at prices_of
slugs_at-some b [] h = absurd h
slugs_at-some b ((slug, cell) ∷ cells) h = go (usable_price cell) h (slugs_at-some b cells)
  where
    go :
        (o : Option Decimal)
        → Any (λ p. p ≡ b) (with_price o (prices_of cells))
        → (Any (λ p. p ≡ b) (prices_of cells)
            → (s : Text) × (first_slug (slugs_at b cells) ≡ some s))
        → (s : Text) × (first_slug (if costs b o then slug ∷ slugs_at b cells else slugs_at b cells)
            ≡ some s)
    go none i rest = rest i
    go (some p) i rest = elim (Bool-cases (same p b)) [
      | inl e ↦ rw e (slug, refl)
      | inr e ↦ rw e (rest (elim i [ inl eq ↦ ground (arith, same_refl b) | inr later ↦ later ]))
    ]

pub first_slug-Any : (ss : List Text) (s : Text) → first_slug ss ≡ some s → Any (λ t. t ≡ s) ss
first_slug-Any [] s h = ground arith
first_slug-Any (t ∷ ss) s h = inl (ground arith)

-- A row with a price has a first best shop.
pub best_store_slugs-some :
    (row : Row) (b : Decimal)
    → best_price row ≡ some b
    → (s : Text) × (first_slug (best_store_slugs row) ≡ some s)
unfolding best_store_slugs best_price slugs_if
best_store_slugs-some row b e =
    rw (e) (slugs_at-some b row.cells (least_of-IsLeast (prices_of row.cells) b e).0)
