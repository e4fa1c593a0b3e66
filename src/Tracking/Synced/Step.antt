-- ===== src/Tracking/Synced/Step.antt =====
-- `check_product` keeps the products in step with their histories.
use mathlib.Core.Path.{subst}
use product_updates.Domain.Contexts.{Time}
use product_updates.Domain.Enums.{Availability}
use product_updates.Domain.Results.{retracts}
use product_updates.Prelude.{
  some, arith, ◌≤◌, Text, ℕ, ◌≡◌, true, List, All, ◌==◌, false, ◌∙◌, Option, sym, ◌-◌,
}
use product_updates.Tracking.{Database, write_product, CheckExecution}
use product_updates.Tracking.Alerting.{evaluate_rules}
use product_updates.Tracking.Cases.{check_product-Good}
use product_updates.Tracking.Checking.{
  record_check, record_skipped, new_execution, price_outcome, availability_outcome, add_execution,
  stored, check_product, CheckGuard, Circumstances,
}
use product_updates.Tracking.Recording.{append_price, append_availability, settle_product}
use product_updates.Tracking.Retry.{fetch, Fetched, fetch_with_retry, fetch_with_retry-Ended}
use product_updates.Tracking.Synced.{
  PriceRows, AvailabilityRows, Shown, Synced, SameTables, Product, FetchResult,
}
use product_updates.Tracking.Synced.Apart.{
  settle_product-id, append_availability-prices, append_availability-next_price_id,
  append_price-availabilities, append_price-next_availability_id, append_availability-after_price,
  PriceRows-later, AvailabilityRows-later,
}
use product_updates.Tracking.Synced.Availabilities.{availability-Shown}
use product_updates.Tracking.Synced.Checks.{
  evaluate_rules-SameTables, write_product-All, append_price-PriceRows, find_product-All,
  latest_price-other, last_availability-other, append_availability-AvailabilityRows,
}
use product_updates.Tracking.Synced.Prices.{price-Shown}

-- A result that retracts the availability does not report one.
abbrev pub Honest : FetchResult → Type 0
Honest r = retracts r ≡ true → r.availability ≡ Availability.unknown

-- The invariant does not read the tables of the rules, the alerts and the checks.
framed :
    (now : Time) (db db' : Database) (products : List Product)
    → SameTables db db'
    → PriceRows now db
    → AvailabilityRows now db
    → All (Shown db.prices db.availabilities) products
    → Synced now (record db' { products = products })
framed now db db' products same prices availabilities shown = record {
  price_rows = rw (same.prices, same.next_price_id) prices;
  availability_rows = rw (same.availabilities, same.next_availability_id) availabilities;
  shown = rw (same.prices, same.availabilities) shown;
}

Shown-products :
    (product : Product) (result : FetchResult) (clock now : Time) (id : ℕ) (db : Database)
    → clock ≤ now
    → Honest result
    → Shown db.prices db.availabilities product
    → Synced clock db
    → let db' =
        append_availability
          (availability_outcome result product.id db)
          product
          result
          now
          id
          (append_price (price_outcome result product.id db) product result now id db) in
      All
        (Shown db'.prices db'.availabilities)
        (write_product (stored (settle_product product result now)) db.products)
unfolding stored
Shown-products product result clock now id db later honest shown h =
    let price = price_outcome result product.id db in
    let availability = availability_outcome result product.id db in
    let with_price = append_price price product result now id db in
    let same_prices = append_availability-prices availability product result now id with_price in
    let same_rows = append_availability-after_price price availability product result now id db in
    write_product-All _ (Shown db.prices db.availabilities) _ db.products
      (rw (same_prices, same_rows, settle_product-id product result now)
        (
          price-Shown product result now id db (PriceRows-later clock now db later h.price_rows)
              shown.0,
          availability-Shown product result now id db
              (AvailabilityRows-later clock now db later h.availability_rows) honest shown.1,
        ))
      (λ q other was.
        let apart : (product.id == q.id) ≡ false =
          ground (arith, other, settle_product-id product result now) in
        (
          rw (same_prices, latest_price-other price product result now id q.id db apart) was.0,
          was.1
              ∙ rw same_rows
                  (last_availability-other availability product result now id q.id db apart),
        ))
      h.shown

module _ (digest : Text → Text) (window : ℕ) where
  record_check-Synced :
      (product : Product) (result : FetchResult) (started clock now : Time) (duration attempts : ℕ)
      (db : Database)
      → clock ≤ now
      → Honest result
      → Shown db.prices db.availabilities product
      → Synced clock db
      → Synced now (record_check digest window product result started now duration attempts db).1
  unfolding record_check add_execution
  record_check-Synced product result started clock now duration attempts db later honest shown h =
      let price = price_outcome result product.id db in
      let availability = availability_outcome result product.id db in
      let id = db.next_execution_id in
      let with_price = append_price price product result now id db in
      let execution =
        new_execution id product result price availability started now duration attempts in
      let checked = settle_product product result now in
      let evaluated =
        evaluate_rules digest window checked price availability now execution
          (append_availability availability product result now id with_price) in
      let framed_it =
        framed now _ evaluated.1 (write_product (stored checked) db.products)
          (evaluate_rules-SameTables digest window checked price availability now execution
            (append_availability availability product result now id with_price))
          (rw
            (
              append_availability-prices availability product result now id with_price,
              append_availability-next_price_id availability product result now id with_price,
            )
            (append_price-PriceRows price product result clock now id db later h.price_rows))
          (append_availability-AvailabilityRows availability product result clock now id with_price
            later
            (rw
              (
                append_price-availabilities price product result now id db,
                append_price-next_availability_id price product result now id db,
              )
              h.availability_rows))
          (Shown-products product result clock now id db later honest shown h) in
      record {
        price_rows = framed_it.price_rows;
        availability_rows = framed_it.availability_rows;
        shown = framed_it.shown;
      }

fetched-Honest :
    (max_retries : ℕ) (world : ℕ → Fetched)
    → ((i : ℕ) → Honest (fetch (world i)))
    → Honest (fetch_with_retry max_retries world).0
fetched-Honest max_retries world honest =
    let ended = fetch_with_retry-Ended max_retries world in
    let n = (fetch_with_retry max_retries world).1 in
    subst Honest (sym (ended.last (n - 1) (omega (arith, ended.at_least)))) (honest (n - 1))

record_skipped-Synced :
    (product : Product) (started clock now : Time) (reason : Text) (db : Database)
    → clock ≤ now
    → Synced clock db
    → Synced now (record_skipped product started now reason db).1
unfolding record_skipped add_execution
record_skipped-Synced product started clock now reason db later h = record {
  price_rows = PriceRows-later clock now db later h.price_rows;
  availability_rows = AvailabilityRows-later clock now db later h.availability_rows;
  shown = h.shown;
}

module _ {S : Type 0} (digest : Text → Text) (window max_retries : ℕ) (now : Circumstances)
    (clock : Time) (db : Database) where
  -- Whatever the fetches of a check give, every product shows the last price and the last
  -- availability of its histories after it, if it did so before, the clock did not go back, and no
  -- result that retracts an availability reports one.
  pub check_product-Synced :
      (guard : Option (CheckGuard S)) (product_id : ℕ) (s : S)
      (done : CheckExecution × (S × Database))
      → clock ≤ now.finished
      → ((i : ℕ) → Honest (fetch (now.fetches i)))
      → Synced clock db
      → check_product digest window max_retries guard now product_id (s, db) ≡ some done
      → Synced now.finished done.1.1
  check_product-Synced guard product_id s done later honest h =
      check_product-Good digest window max_retries now db (λ d. Synced now.finished d.1) guard
        product_id s done
        (λ product f.
          record_check-Synced digest window product _ now.started clock now.finished _ _ db later
            (fetched-Honest max_retries now.fetches honest)
            (find_product-All _ product_id db.products product h.shown f) h)
        (λ product reason f.
          record_skipped-Synced product now.started clock now.finished reason db later h)
