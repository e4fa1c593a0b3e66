-- ===== src/Tracking/Synced/Prices.antt =====
-- The price that a check leaves on a product.
use mathlib.Core.Option
use product_updates.Changes.{PriceOutcome, detect_price_change}
use product_updates.Decimal.{to_money}
use product_updates.Decimal.Money.{to_money-same}
use product_updates.Decimal.Order.{same_refl}
use product_updates.Domain.Contexts.{Time}
use product_updates.Domain.Results.{FetchResult, succeeded}
use product_updates.Prelude.{
  if◌then◌else◌, some, none, arith, refl, ◌≡◌, ◌∙◌, inl, inr, ℕ, Option, ap, Option-cases, All-mono,
  Bool-cases, sym,
}
use product_updates.Tracking.{Database, PriceRow, Product, Decimal}
use product_updates.Tracking.Checking.{price_outcome, stored}
use product_updates.Tracking.History.{latest_row-All, latest_row-append}
use product_updates.Tracking.Recording.{
  latest_price, settle_product, append_price, apply_result, record_price,
}
use product_updates.Tracking.Synced.{PriceRows, last_price}

latest_price-scale :
    (id : ℕ) (clock : Time) (db : Database) (r : PriceRow)
    → PriceRows clock db
    → latest_price id db.prices ≡ some r
    → r.price.scale ≡ 2
unfolding latest_price
latest_price-scale id clock db r rows e =
    (latest_row-All (λ r. r.product_id) (λ r. r.observed_at) (λ r. r.id) _ id db.prices r rows e).1

last_price-to_money :
    (id : ℕ) (clock : Time) (db : Database)
    → PriceRows clock db
    → Option.map to_money (last_price id db.prices) ≡ last_price id db.prices
last_price-to_money id clock db rows = elim (Option-cases (latest_price id db.prices)) [
  | inl e ↦ rw e refl
  | inr (r, e) ↦ rw e (
      ap some (
        to_money-same r.price r.price (latest_price-scale id clock db r rows e)
          (same_refl r.price)))
]

latest_price-append :
    (product : Product) (result : FetchResult) (price : Decimal) (now : Time) (id : ℕ)
    (db : Database)
    → PriceRows now db
    → last_price product.id (record_price product result price now id db).prices
      ≡ some (to_money price)
unfolding record_price latest_price
latest_price-append product result price now id db rows = ap (Option.map (λ r. r.price)) (
    latest_row-append (λ r. r.product_id) (λ r. r.observed_at) (λ r. r.id) db.prices _
      (All-mono _ _ db.prices (λ r w. w.0) rows))

settled_price :
    (product : Product) (result : FetchResult) (now : Time)
    → (settle_product product result now).current_price ≡ (
        if succeeded result
        then (elim result.price [ none ↦ product.current_price | some p ↦ some p ])
        else product.current_price)
unfolding settle_product apply_result
settled_price product result now = ground arith

-- the last price on record after the outcome has been acted on
price_after :
    (product : Product) (result : FetchResult) (now : Time) (id : ℕ) (db : Database)
    (o : PriceOutcome)
    → PriceRows now db
    → last_price product.id (append_price o product result now id db).prices ≡ (elim result.price [
      | none ↦ last_price product.id db.prices
      | some p ↦ if o.should_record then some (to_money p) else last_price product.id db.prices
    ])
unfolding append_price record_price
price_after product result now id db o rows = go result.price refl
  where
    go :
        (p : Option Decimal)
        → result.price ≡ p
        → last_price product.id (append_price o product result now id db).prices ≡ (elim p [
          | none ↦ last_price product.id db.prices
          | some p ↦ if o.should_record then some (to_money p) else last_price product.id db.prices
        ])
    go none e = rw e refl
    go (some p) e = elim (Bool-cases o.should_record) [
      | inl kept ↦
          rw (e, kept)
            (latest_price-append product (record result { price = some p }) p now id db rows)
      | inr left ↦ rw (e, left) refl
    ]

-- The price that a product shows after a check is the last one of its history.
pub price-Shown :
    (product : Product) (result : FetchResult) (now : Time) (id : ℕ) (db : Database)
    → PriceRows now db
    → product.current_price ≡ last_price product.id db.prices
    → (stored (settle_product product result now)).current_price
      ≡ last_price product.id
          (append_price (price_outcome result product.id db) product result now id db).prices
unfolding stored price_outcome detect_price_change
price-Shown product result now id db rows shown =
    ap (Option.map to_money) (settled_price product result now)
    ∙ go result.price (latest_price product.id db.prices) refl refl
    ∙ sym (price_after product result now id db (price_outcome result product.id db) rows)
  where
    go :
        (p : Option Decimal) (last : Option PriceRow)
        → result.price ≡ p
        → latest_price product.id db.prices ≡ last
        → Option.map to_money (
            if succeeded result
            then (elim result.price [ none ↦ product.current_price | some p ↦ some p ])
            else product.current_price)
          ≡ (elim result.price [
            | none ↦ last_price product.id db.prices
            | some p ↦
                if (price_outcome result product.id db).should_record
                then some (to_money p)
                else last_price product.id db.prices
          ])
    go none last ep el = ground (arith, last_price-to_money product.id now db rows)
    go (some p) none ep el = ground (arith, last_price-to_money product.id now db rows)
    go (some p) (some r) ep el = ground (
      arith,
      last_price-to_money product.id now db rows,
      to_money-same p r.price (latest_price-scale product.id now db r rows el),
    )
