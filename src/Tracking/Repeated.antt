-- ===== src/Tracking/Repeated.antt =====
-- A price that is read twice.
use product_updates.Changes.{detect_price_change, currency_switched}
use product_updates.Decimal.{Decimal, to_money}
use product_updates.Decimal.Places.{is_hundredths, same-to_money}
use product_updates.Domain.Contexts.{Time}
use product_updates.Domain.Results.{FetchResult, succeeded}
use product_updates.Prelude.{
  ◌≡◌, some, ℕ, true, false, not, arith, is_empty, text_eq_refl, Text, All-mono,
}
use product_updates.Tracking.{Database, PriceRow, Product}
use product_updates.Tracking.Checking.{price_outcome}
use product_updates.Tracking.History.{latest_row-append}
use product_updates.Tracking.Recording.{latest_price, record_price}
use product_updates.Tracking.Synced.{PriceRows}

-- the row that stores the price of a result that names its currency
abbrev stored_row : Product → Decimal → Text → Time → ℕ → Database → PriceRow
stored_row product p code now execution_id db = record {
  id = db.next_price_id;
  product_id = product.id;
  observed_at = now;
  price = to_money p;
  currency = code;
  check_execution_id = execution_id;
}

record_price-latest_price :
    (product : Product) (r : FetchResult) (p : Decimal) (code : Text) (now : Time)
    (execution_id : ℕ) (db : Database)
    → r.currency ≡ some code
    → is_empty code ≡ false
    → PriceRows now db
    → latest_price product.id (record_price product r p now execution_id db).prices
      ≡ some (stored_row product p code now execution_id db)
unfolding record_price latest_price
record_price-latest_price product r p code now execution_id db named filled rows =
    rw (named, filled)
      (latest_row-append (λ r. r.product_id) (λ r. r.observed_at) (λ r. r.id) db.prices
        (stored_row product p code now execution_id db) (All-mono _ _ db.prices (λ r w. w.0) rows))

detected :
    (r : FetchResult) (p : Decimal) (code : Text)
    → r.price ≡ some p
    → r.currency ≡ some code
    → succeeded r ≡ true
    → (detect_price_change r (some (to_money p)) (some code)).changed ≡ not (is_hundredths p)
unfolding detect_price_change currency_switched
detected r p code read named learned =
    let kept = same-to_money p in
    let one = text_eq_refl code in ground (arith, read, named, learned, kept, one)

-- A price that was recorded and is then read again, at an unchanged page, is reported as a change
-- exactly if it is no whole number of hundredths. The reading is a success that names its currency,
-- and the rows of the history have two places, ids that were given out, and times not later than the
-- recording.
pub repeated-changed :
    (product : Product) (r : FetchResult) (p : Decimal) (code : Text) (now : Time)
    (execution_id : ℕ) (db : Database)
    → r.price ≡ some p
    → r.currency ≡ some code
    → is_empty code ≡ false
    → succeeded r ≡ true
    → PriceRows now db
    → (price_outcome r product.id (record_price product r p now execution_id db)).changed
      ≡ not (is_hundredths p)
unfolding price_outcome
repeated-changed product r p code now execution_id db read named filled learned rows =
    rw (record_price-latest_price product r p code now execution_id db named filled rows)
      (detected r p code read named learned)
