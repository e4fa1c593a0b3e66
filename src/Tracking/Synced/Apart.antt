-- ===== src/Tracking/Synced/Apart.antt =====
-- The two histories and the product's columns are written apart from one another.
use product_updates.Changes.{AvailabilityOutcome}
use product_updates.Domain.Contexts.{Time}
use product_updates.Prelude.{arith, inl, inr, ◌≤◌, ℕ, ◌≡◌, refl, All-mono, Bool-cases}
use product_updates.Tracking.Recording.{
  append_price, append_availability, settle_product, record_price, record_availability,
  apply_result,
}
use product_updates.Tracking.Synced.{
  PriceRows, AvailabilityRows, PriceOutcome, Product, Database, FetchResult,
}

pub settle_product-id :
    (product : Product) (result : FetchResult) (now : Time)
    → (settle_product product result now).id ≡ product.id
unfolding settle_product apply_result
settle_product-id product result now = ground arith

pub append_availability-prices :
    (o : AvailabilityOutcome) (product : Product) (result : FetchResult) (now : Time) (id : ℕ)
    (db : Database)
    → (append_availability o product result now id db).prices ≡ db.prices
unfolding append_availability record_availability
append_availability-prices o product result now id db = ground arith

pub append_availability-next_price_id :
    (o : AvailabilityOutcome) (product : Product) (result : FetchResult) (now : Time) (id : ℕ)
    (db : Database)
    → (append_availability o product result now id db).next_price_id ≡ db.next_price_id
unfolding append_availability record_availability
append_availability-next_price_id o product result now id db = ground arith

pub append_price-availabilities :
    (o : PriceOutcome) (product : Product) (result : FetchResult) (now : Time) (id : ℕ)
    (db : Database)
    → (append_price o product result now id db).availabilities ≡ db.availabilities
unfolding append_price record_price
append_price-availabilities o product result now id db = ground arith

pub append_price-next_availability_id :
    (o : PriceOutcome) (product : Product) (result : FetchResult) (now : Time) (id : ℕ)
    (db : Database)
    → (append_price o product result now id db).next_availability_id ≡ db.next_availability_id
unfolding append_price record_price
append_price-next_availability_id o product result now id db = ground arith

pub append_availability-after_price :
    (o : PriceOutcome) (a : AvailabilityOutcome) (product : Product) (result : FetchResult)
    (now : Time) (id : ℕ) (db : Database)
    → (append_availability a product result now id
        (append_price o product result now id db)).availabilities
      ≡ (append_availability a product result now id db).availabilities
unfolding append_availability record_availability
append_availability-after_price o a product result now id db =
    let same_rows = append_price-availabilities o product result now id db in
    let same_id = append_price-next_availability_id o product result now id db in
    elim (Bool-cases a.should_record) [
      | inl kept ↦ rw (kept, same_rows, same_id) refl
      | inr left ↦ rw left same_rows
    ]

pub PriceRows-later :
    (clock now : Time) (db : Database) → clock ≤ now → PriceRows clock db → PriceRows now db
PriceRows-later clock now db later rows =
    All-mono _ _ db.prices (λ r w. ((omega (arith, w.0.0), w.0.1), w.1)) rows

pub AvailabilityRows-later :
    (clock now : Time) (db : Database)
    → clock ≤ now
    → AvailabilityRows clock db
    → AvailabilityRows now db
AvailabilityRows-later clock now db later rows =
    All-mono _ _ db.availabilities (λ r w. (omega (arith, w.0), w.1)) rows

pub append_price-executions :
    (o : PriceOutcome) (product : Product) (result : FetchResult) (now : Time) (id : ℕ)
    (db : Database)
    → (append_price o product result now id db).executions ≡ db.executions
unfolding append_price record_price
append_price-executions o product result now id db = ground arith

pub append_availability-executions :
    (o : AvailabilityOutcome) (product : Product) (result : FetchResult) (now : Time) (id : ℕ)
    (db : Database)
    → (append_availability o product result now id db).executions ≡ db.executions
unfolding append_availability record_availability
append_availability-executions o product result now id db = ground arith
