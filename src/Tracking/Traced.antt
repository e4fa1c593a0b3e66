-- ===== src/Tracking/Traced.antt =====
-- Every recorded price can be traced back to the check that saw it.
use mathlib.Core.Option
use product_updates.Changes.{detect_price_change, PriceOutcome, AvailabilityOutcome}
use product_updates.Decimal.{to_money}
use product_updates.Domain.Contexts.{RuleMatch, Time}
use product_updates.Domain.Enums.{is_success, CheckStatus}
use product_updates.Domain.Results.{succeeded, FetchResult}
use product_updates.Prelude.{
  All-mono, ◌∙◌, ◌++◌, All-append, true, Bool-cases, ap, some, none, arith, inl, inr, Text, ℕ, ◌≡◌,
  refl, Option, Option-cases, Any, Any-append_left, Any-append_last, All, List, ◌∷◌, [],
}
use product_updates.Tracking.{Product, PriceRow, CheckExecution, Database, Decimal}
use product_updates.Tracking.Alerting.{record_alerts, evaluate_rules}
use product_updates.Tracking.Cases.{check_product-Good}
use product_updates.Tracking.Checking.{
  stored_execution, add_execution, record_check, check_product, new_execution, price_outcome,
  availability_outcome, CheckGuard, Circumstances, record_skipped,
}
use product_updates.Tracking.Recording.{
  append_availability, status_for, append_price, record_price, settle_product,
}
use product_updates.Tracking.Synced.Apart.{
  append_price-executions, append_availability-executions, append_availability-prices,
}
use product_updates.Tracking.Synced.Checks.{evaluate_rules-SameTables}

-- The check `e` is the one that saw the price of the row.
pub record Saw (row : PriceRow) (e : CheckExecution) : Type 0 where
  pub id : e.id ≡ row.check_execution_id
  pub product : e.product_id ≡ row.product_id
  pub time : e.finished_at ≡ row.observed_at
  pub price : e.extracted_price ≡ some row.price
  pub status : e.status ≡ CheckStatus.success

abbrev pub Traced : Database → Type 0
Traced db = All (λ row. Any (Saw row) db.executions) db.prices

record_alerts-Saw :
    (digest : Text → Text) (window product_id : ℕ) (matches : List RuleMatch) (now : Time)
    (execution : CheckExecution) (db : Database) (row : PriceRow)
    → Saw row (stored_execution execution)
    → Saw row (stored_execution (record_alerts digest window product_id matches now execution db).0)
unfolding record_alerts stored_execution
record_alerts-Saw digest window product_id [] now execution db row h = h
record_alerts-Saw digest window product_id (m ∷ matches) now execution db row h = record {
  id = h.id;
  product = h.product;
  time = h.time;
  price = h.price;
  status = h.status;
}

-- The rules only count in the row of the check.
evaluate_rules-Saw :
    (digest : Text → Text) (window : ℕ) (product : Product) (price : PriceOutcome)
    (availability : AvailabilityOutcome) (now : Time) (execution : CheckExecution) (db : Database)
    (row : PriceRow)
    → Saw row (stored_execution execution)
    → Saw row (
        stored_execution
          (evaluate_rules digest window product price availability now execution db).0)
unfolding evaluate_rules stored_execution
evaluate_rules-Saw digest window product price availability now execution db row h =
    record_alerts-Saw digest window product.id _ now _ db row
      (record { id = h.id; product = h.product; time = h.time; price = h.price; status = h.status })

-- Only a success is recorded.
recorded-status :
    (result : FetchResult) (last : Option Decimal) (currency : Option Text)
    → (detect_price_change result last currency).should_record ≡ true
    → status_for result.outcome ≡ CheckStatus.success
unfolding detect_price_change succeeded is_success status_for
recorded-status result last currency h = elim (Option-cases result.price) [
  | inl e ↦ ground arith
  | inr (p, e) ↦ ground arith
]

-- What a new row of the price history is.
record NewRow (product : Product) (result : FetchResult) (now : Time) (id : ℕ) (row : PriceRow)
    : Type 0 where
  id_of : id ≡ row.check_execution_id
  product_of : product.id ≡ row.product_id
  time_of : now ≡ row.observed_at
  price_of : Option.map to_money result.price ≡ some row.price

append_price-All :
    (o : PriceOutcome) (product : Product) (result : FetchResult) (now : Time) (id : ℕ)
    (db : Database) (P : PriceRow → Type 0)
    → All P db.prices
    → ((row : PriceRow) → o.should_record ≡ true → NewRow product result now id row → P row)
    → All P (append_price o product result now id db).prices
unfolding append_price record_price
append_price-All o product result now id db P old new = go result.price refl
  where
    go :
        (p : Option Decimal)
        → result.price ≡ p
        → All P (append_price o product result now id db).prices
    go none e = rw e old
    go (some p) e = elim (Bool-cases o.should_record) [
      | inl kept ↦
          rw (e, kept)
            (All-append P db.prices _ old (
              new _ kept (record {
                id_of = refl;
                product_of = refl;
                time_of = refl;
                price_of = ap (Option.map to_money) e;
              }),
              tt,
            ))
      | inr left ↦ rw (e, left) old
    ]

module _ (digest : Text → Text) (window : ℕ) where
  record_check-Traced :
      (product : Product) (result : FetchResult) (started now : Time) (duration attempts : ℕ)
      (db : Database)
      → Traced db
      → Traced (record_check digest window product result started now duration attempts db).1
  unfolding record_check add_execution new_execution price_outcome stored_execution
  record_check-Traced product result started now duration attempts db h =
      let price = price_outcome result product.id db in
      let availability = availability_outcome result product.id db in
      let id = db.next_execution_id in
      let with_price = append_price price product result now id db in
      let with_history = append_availability availability product result now id with_price in
      let execution =
        new_execution id product result price availability started now duration attempts in
      let checked = settle_product product result now in
      let last =
        evaluate_rules digest window checked price availability now execution with_history in
      let same =
        evaluate_rules-SameTables digest window checked price availability now execution
          with_history in
      let executions : last.1.executions ≡ db.executions =
        same.executions
        ∙ append_availability-executions availability product result now id with_price
        ∙ append_price-executions price product result now id db in
      let prices : last.1.prices ≡ with_price.prices =
        same.prices ∙ append_availability-prices availability product result now id with_price in
      rw (executions, prices)
        (append_price-All price product result now id db
          (λ row. Any (Saw row) (db.executions ++ stored_execution last.0 ∷ []))
          (All-mono _ _ db.prices
            (λ row seen.
              Any-append_left (Saw row) db.executions (stored_execution last.0 ∷ []) seen)
            h)
          (λ row kept new. Any-append_last (Saw row) db.executions (stored_execution last.0) (
            evaluate_rules-Saw digest window checked price availability now execution with_history
              row
              (record {
                id = new.id_of;
                product = new.product_of;
                time = new.time_of;
                price = new.price_of;
                status = recorded-status result _ _ kept;
              }))))

  -- A skipped check adds a row that no price names.
  record_skipped-Traced :
      (product : Product) (started now : Time) (reason : Text) (db : Database)
      → Traced db
      → Traced (record_skipped product started now reason db).1
  unfolding record_skipped add_execution
  record_skipped-Traced product started now reason db h =
      All-mono _ _ db.prices (λ row seen. Any-append_left (Saw row) db.executions _ seen) h

  -- Every recorded price names a check of its product, that succeeded, ended when the price was
  -- observed and read this price: if this holds before a check, it holds after it.
  pub check_product-Traced :
      {S : Type 0} (max_retries : ℕ) (guard : Option (CheckGuard S)) (now : Circumstances)
      (product_id : ℕ) (s : S) (db : Database) (done : CheckExecution × (S × Database))
      → Traced db
      → check_product digest window max_retries guard now product_id (s, db) ≡ some done
      → Traced done.1.1
  check_product-Traced max_retries guard now product_id s db done h =
      check_product-Good digest window max_retries now db (λ d. Traced d.1) guard product_id s done
        (λ product f. record_check-Traced product _ now.started now.finished now.duration_ms _ db h)
        (λ product reason f. record_skipped-Traced product now.started now.finished reason db h)
