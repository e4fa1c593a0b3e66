-- ===== src/Tracking/Checking.antt =====
-- `check_product`, `_record` and `_record_skipped`.
use mathlib.Core.Option
use product_updates.Changes.{
  PriceOutcome, detect_price_change, AvailabilityOutcome, detect_availability_change,
}
use product_updates.Decimal.{to_money}
use product_updates.Domain.Contexts.{Time}
use product_updates.Domain.Enums.{CheckStatus, no_method, outcome_value}
use product_updates.Domain.Results.{FetchResult, is_empty, succeeded}
use product_updates.Prelude.{
  if◌then◌else◌, ◌++◌, ◌∷◌, [], suc, some, none, ℕ, Option, Text, Bool, codes, false,
}
use product_updates.Tracking.{CheckExecution, Product, Database, find_product, write_product}
use product_updates.Tracking.Alerting.{evaluate_rules}
use product_updates.Tracking.Recording.{
  latest_price, append_availability, append_price, status_for, settle_product, truncate_error,
  latest_availability, is_success_status,
}
use product_updates.Tracking.Retry.{Fetched, fetch_with_retry}

-- The execution row before the rules are evaluated.
unfoldable pub new_execution :
    ℕ
    → Product
    → FetchResult
    → PriceOutcome
    → AvailabilityOutcome
    → Time
    → Time
    → ℕ
    → ℕ
    → CheckExecution
new_execution id product result price availability started now duration attempts =
    let status = status_for result.outcome in
    record {
      id = id;
      product_id = product.id;
      store_id = product.store_id;
      started_at = started;
      finished_at = now;
      duration_ms = duration;
      status = status;
      fetch_method = result.fetch_method;
      http_status = result.http_status;
      extracted_price = result.price;
      extracted_currency = result.currency;
      availability_result = some result.availability;
      price_changed = price.changed;
      availability_changed = availability.changed;
      rules_evaluated = 0;
      rules_matched = 0;
      notifications_created = 0;
      attempts = attempts;
      error_type = if is_success_status status then none else some (outcome_value result.outcome);
      error_detail = if is_success_status status then none else truncate_error result.message;
    }

-- What the transaction leaves in the product's row: the column keeps two places of the price.
unfoldable pub stored : Product → Product
stored product = record product { current_price = Option.map to_money product.current_price }

-- what is on record before the check, and what the check makes of it
unfoldable pub price_outcome : FetchResult → ℕ → Database → PriceOutcome
unfolding latest_price detect_price_change
price_outcome result product_id db =
    let last = latest_price product_id db.prices in
    detect_price_change result (Option.map (λ r. r.price) last) (Option.map (λ r. r.currency) last)

unfoldable pub availability_outcome : FetchResult → ℕ → Database → AvailabilityOutcome
availability_outcome result product_id db =
    detect_availability_change result
      (Option.map (λ r. r.availability) (latest_availability product_id db.availabilities))

-- What the transaction leaves in the row of the check: the price as its column keeps it.
unfoldable pub stored_execution : CheckExecution → CheckExecution
stored_execution execution = record execution {
  extracted_price = Option.map to_money execution.extracted_price;
}

-- `add` and `commit`
unfoldable pub add_execution : CheckExecution → Database → Database
unfolding stored_execution
add_execution execution db = record db {
  executions = db.executions ++ stored_execution execution ∷ [];
  next_execution_id = suc db.next_execution_id;
}

module _ (digest : Text → Text) (window_seconds : ℕ) where
  -- `_record`, and the commit of its transaction
  unfoldable pub record_check :
      Product → FetchResult → Time → Time → ℕ → ℕ → Database → CheckExecution × Database
  unfolding add_execution
  record_check product result started now duration attempts db =
      let price = price_outcome result product.id db in
      let availability = availability_outcome result product.id db in
      let id = db.next_execution_id in
      let execution =
        new_execution id product result price availability started now duration attempts in
      let with_history =
        append_availability availability product result now id
          (append_price price product result now id db) in
      let checked = settle_product product result now in
      let evaluated =
        evaluate_rules digest window_seconds checked price availability now execution
          with_history in
      (
        evaluated.0,
        record (add_execution evaluated.0 evaluated.1) {
          products = write_product (stored checked) db.products;
        },
      )

-- the row of `_record_skipped`
unfoldable pub skipped_execution : ℕ → Product → Time → Time → Text → CheckExecution
skipped_execution id product started now reason = record {
  id = id;
  product_id = product.id;
  store_id = product.store_id;
  started_at = started;
  finished_at = now;
  duration_ms = 0;
  status = CheckStatus.skipped;
  fetch_method = no_method;
  http_status = none;
  extracted_price = none;
  extracted_currency = none;
  availability_result = none;
  price_changed = false;
  availability_changed = false;
  rules_evaluated = 0;
  rules_matched = 0;
  notifications_created = 0;
  attempts = 0;
  error_type = some (codes "skipped_by_guard");
  error_detail = truncate_error (some reason);
}

-- `_record_skipped`
unfoldable pub record_skipped : Product → Time → Time → Text → Database → CheckExecution × Database
unfolding add_execution
record_skipped product started now reason db =
    let execution = skipped_execution db.next_execution_id product started now reason in
    (execution, add_execution execution db)

-- `GuardDecision`
pub record GuardDecision : Type 0 where
  pub proceed : Bool
  pub reason : Option Text

-- `CheckGuard`, over the state that its implementation keeps
pub record CheckGuard (S : Type 0) : Type 0 where
  pub before : Text → S → GuardDecision × S
  pub after : Text → Bool → S → S

-- What a check meets outside the program: the clock at its start and at its end, the host of the
-- URL, and what each fetch of it gives.
pub record Circumstances : Type 0 where
  pub started : Time
  pub finished : Time
  pub duration_ms : ℕ
  pub host : Option Text
  pub fetches : ℕ → Fetched

-- `reason or "skipped"`, `host_of(url) or slug`
abbrev pub or_else : Option Text → Text → Text
or_else none b = b
or_else (some a) b = if is_empty a then b else a

module _ {S : Type 0} (digest : Text → Text) (window_seconds max_retries : ℕ) where
  -- the rest of `check_product` for a product that was found
  unfoldable pub check_found :
      Option (CheckGuard S)
      → Circumstances
      → Product
      → S × Database
      → CheckExecution × (S × Database)
  unfolding record_skipped
  check_found none now product (s, db) =
      let fetched = fetch_with_retry max_retries now.fetches in
      let done =
        record_check digest window_seconds product fetched.0 now.started now.finished
          now.duration_ms fetched.1 db in
      (done.0, (s, done.1))
  check_found (some guard) now product (s, db) =
      let key = or_else now.host product.store_slug in
      let decision = guard.before key s in
      let fetched = fetch_with_retry max_retries now.fetches in
      let done =
        record_check digest window_seconds product fetched.0 now.started now.finished
          now.duration_ms fetched.1 db in
      let skipped =
        record_skipped product now.started now.finished
          (or_else decision.0.reason (codes "skipped")) db in
      if decision.0.proceed
      then (done.0, (guard.after key (succeeded fetched.0) decision.1, done.1))
      else (skipped.0, (decision.1, skipped.1))

  -- `check_product`: `none` is `NotFoundError`.
  unfoldable pub check_product :
      Option (CheckGuard S)
      → Circumstances
      → ℕ
      → S × Database
      → Option (CheckExecution × (S × Database))
  unfolding check_found
  check_product guard now product_id (s, db) = elim (find_product product_id db.products) [
    | none ↦ none
    | some product ↦ some (check_found guard now product (s, db))
  ]
