-- ===== src/Comparison/Chosen.antt =====
-- What `_prefer` orders: a strict order in which a listing that beats another beats everything that
-- the other beats.
use product_updates.Comparison.{Listing, prefer, prefer_price}
use product_updates.Decimal.{Decimal}
use product_updates.Decimal.Order.{
  same_sym, same_trans, below_asym, below_irrefl, below_split, trichotomy,
}
use product_updates.Prelude.{◌≡◌, ◌⊎◌, true, false, none, some, Option, ℕ, arith}

prefer_price-asym :
    (p q : Option Decimal) (i j : ℕ) → prefer_price p q i j ≡ true → prefer_price q p j i ≡ false
unfolding prefer_price
prefer_price-asym none q i j h = ground arith
prefer_price-asym (some p) none i j h = ground arith
prefer_price-asym (some p) (some q) i j h =
    ground (arith, same_sym p q, same_sym q p, below_asym p q)

prefer_price-split :
    (p r q : Option Decimal) (i k j : ℕ)
    → prefer_price p q i j ≡ true
    → (prefer_price p r i k ≡ true) ⊎ (prefer_price r q k j ≡ true)
unfolding prefer_price
prefer_price-split none r q i k j h = ground arith
prefer_price-split (some p) none q i k j h = ground arith
prefer_price-split (some p) (some r) none i k j h = ground arith
prefer_price-split (some p) (some r) (some q) i k j h = ground (
  arith,
  same_sym p r,
  same_sym r q,
  same_trans p r q,
  below_split p r q,
  trichotomy p r,
  trichotomy r q,
  below_split q p r,
  below_split r q p,
  below_asym p q,
  below_irrefl q p,
  below_irrefl p q,
  below_irrefl r q,
  below_irrefl p r,
  same_trans p q r,
  same_trans r p q,
  same_sym q r,
  same_sym p q,
)

pub prefer_asym : (a b : Listing) → prefer a b ≡ true → prefer b a ≡ false
unfolding prefer
prefer_asym a b h =
    prefer_price-asym a.product.current_price b.product.current_price a.product.id b.product.id h

pub prefer_split : (a b c : Listing) → prefer a c ≡ true → (prefer a b ≡ true) ⊎ (prefer b c ≡ true)
unfolding prefer
prefer_split a b c h =
    prefer_price-split a.product.current_price b.product.current_price c.product.current_price
      a.product.id b.product.id c.product.id h
