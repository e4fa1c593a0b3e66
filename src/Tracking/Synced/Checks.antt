-- ===== src/Tracking/Synced/Checks.antt =====
-- A whole check keeps the products in step with their histories.
use mathlib.Core.Path.{subst}
use product_updates.Changes.{PriceOutcome, AvailabilityOutcome}
use product_updates.Decimal.Money.{scale-to_money}
use product_updates.Domain.Contexts.{Time, RuleMatch}
use product_updates.Domain.Enums.{Availability}
use product_updates.Domain.Results.{FetchResult}
use product_updates.Prelude.{
  ◌==◌, ◌∷◌, [], some, none, arith, refl, ◌≡◌, inl, inr, ℕ, List, All, Text, ◌≤◌, Option, ap,
  All-mono, Bool-cases, sym, false, All-append,
}
use product_updates.Tracking.{
  write_product, find_product, Database, AvailabilityRow, Product, Decimal, CheckExecution,
}
use product_updates.Tracking.Alerting.{evaluate_rules, record_alerts}
use product_updates.Tracking.History.{latest_row-other}
use product_updates.Tracking.Recording.{
  append_price, record_price, latest_price, latest_availability, append_availability,
  record_availability,
}
use product_updates.Tracking.Synced.{
  Written, PriceRows, AvailabilityRows, last_availability, SameTables,
}

record_alerts-SameTables :
    (digest : Text → Text) (window product_id : ℕ) (matches : List RuleMatch) (now : Time)
    (execution : CheckExecution) (db : Database)
    → SameTables db (record_alerts digest window product_id matches now execution db).1
unfolding record_alerts
record_alerts-SameTables digest window product_id [] now execution db = record {
  products = refl;
  prices = refl;
  availabilities = refl;
  next_price_id = refl;
  next_availability_id = refl;
  executions = refl;
}
record_alerts-SameTables digest window product_id (m ∷ matches) now execution db = record {
  products = refl;
  prices = refl;
  availabilities = refl;
  next_price_id = refl;
  next_availability_id = refl;
  executions = refl;
}

pub evaluate_rules-SameTables :
    (digest : Text → Text) (window : ℕ) (product : Product) (price : PriceOutcome)
    (availability : AvailabilityOutcome) (now : Time) (execution : CheckExecution) (db : Database)
    → SameTables db (evaluate_rules digest window product price availability now execution db).1
unfolding evaluate_rules
evaluate_rules-SameTables digest window product price availability now execution db =
    record_alerts-SameTables digest window product.id _ now _ db

-- A row that is written now is in step with the clock, and the older ones stay so.
pub append_price-PriceRows :
    (o : PriceOutcome) (product : Product) (result : FetchResult) (clock now : Time) (id : ℕ)
    (db : Database)
    → clock ≤ now
    → PriceRows clock db
    → PriceRows now (append_price o product result now id db)
unfolding append_price record_price
append_price-PriceRows o product result clock now id db later rows = go result.price refl
  where
    older :
        (next : ℕ)
        → db.next_price_id ≤ next
        → All (λ r. Written now next r.observed_at r.id × (r.price.scale ≡ 2)) db.prices
    older next more =
        All-mono _ _ db.prices (λ r w. ((omega (arith, w.0.0), omega (arith, w.0.1)), w.1)) rows

    go :
        (p : Option Decimal)
        → result.price ≡ p
        → PriceRows now (append_price o product result now id db)
    go none e = rw e (older _ (omega arith))
    go (some p) e = elim (Bool-cases o.should_record) [
      | inl kept ↦
          rw (e, kept)
            (All-append _ db.prices _ (older _ (omega arith))
              (((omega arith, omega arith), scale-to_money p), tt))
      | inr left ↦ rw (e, left) (older _ (omega arith))
    ]

pub append_availability-AvailabilityRows :
    (o : AvailabilityOutcome) (product : Product) (result : FetchResult) (clock now : Time) (id : ℕ)
    (db : Database)
    → clock ≤ now
    → AvailabilityRows clock db
    → AvailabilityRows now (append_availability o product result now id db)
unfolding append_availability record_availability
append_availability-AvailabilityRows o product result clock now id db later rows =
    elim (Bool-cases o.should_record) [
      | inl kept ↦ rw kept (
          All-append _ db.availabilities _ (older _ (omega arith)) ((omega arith, omega arith), tt))
      | inr left ↦ rw left (older _ (omega arith))
    ]
  where
    older :
        (next : ℕ)
        → db.next_availability_id ≤ next
        → All (λ r. Written now next r.observed_at r.id) db.availabilities
    older next more =
        All-mono _ _ db.availabilities (λ r w. (omega (arith, w.0), omega (arith, w.1))) rows

pub latest_price-other :
    (o : PriceOutcome) (product : Product) (result : FetchResult) (now : Time) (id q : ℕ)
    (db : Database)
    → (product.id == q) ≡ false
    → latest_price q (append_price o product result now id db).prices ≡ latest_price q db.prices
unfolding append_price record_price latest_price
latest_price-other o product result now id q db other = go result.price refl
  where
    go :
        (p : Option Decimal)
        → result.price ≡ p
        → latest_price q (append_price o product result now id db).prices ≡ latest_price q db.prices
    go none e = rw e refl
    go (some p) e = elim (Bool-cases o.should_record) [
      | inl kept ↦
          rw (e, kept)
            (latest_row-other (λ r. r.product_id) (λ r. r.observed_at) (λ r. r.id) q db.prices _
              other)
      | inr left ↦ rw (e, left) refl
    ]

latest_availability-other :
    (o : AvailabilityOutcome) (product : Product) (result : FetchResult) (now : Time) (id q : ℕ)
    (db : Database)
    → (product.id == q) ≡ false
    → latest_availability q (append_availability o product result now id db).availabilities
      ≡ latest_availability q db.availabilities
unfolding append_availability record_availability latest_availability
latest_availability-other o product result now id q db other = elim (Bool-cases o.should_record) [
  | inl kept ↦ rw kept (
      latest_row-other (λ r. r.product_id) (λ r. r.observed_at) (λ r. r.id) q db.availabilities _
        other)
  | inr left ↦ rw left refl
]

pub last_availability-other :
    (o : AvailabilityOutcome) (product : Product) (result : FetchResult) (now : Time) (id q : ℕ)
    (db : Database)
    → (product.id == q) ≡ false
    → last_availability q db.availabilities
      ≡ last_availability q (append_availability o product result now id db).availabilities
last_availability-other o product result now id q db other =
    ap
      (λ (last : Option AvailabilityRow). elim last [
        | none ↦ Availability.unknown
        | some r ↦ r.availability
      ])
      (sym (latest_availability-other o product result now id q db other))

pub write_product-All {κ μ} :
    (P : Product → Type κ) (Q : Product → Type μ) (p : Product) (ps : List Product)
    → P p
    → ((q : Product) → (p.id == q.id) ≡ false → Q q → P q)
    → All Q ps
    → All P (write_product p ps)
unfolding write_product
write_product-All P Q p [] hp f h = tt
write_product-All P Q p (q ∷ ps) hp f (hq, h) = elim (Bool-cases (q.id == p.id)) [
  | inl e ↦ rw e (hp, write_product-All P Q p ps hp f h)
  | inr e ↦ rw e (f q (ground (arith, e)) hq, write_product-All P Q p ps hp f h)
]

pub find_product-All {κ} :
    (P : Product → Type κ) (id : ℕ) (ps : List Product) (p : Product)
    → All P ps
    → find_product id ps ≡ some p
    → P p
unfolding find_product
find_product-All P id [] p h e = ground arith
find_product-All P id (q ∷ ps) p (hq, h) e = elim (Bool-cases (q.id == id)) [
  | inl same ↦ subst P (ground (arith, e)) hq
  | inr other ↦ find_product-All P id ps p h (ground (arith, e))
]
