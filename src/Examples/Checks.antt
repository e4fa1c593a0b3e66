-- ===== src/Examples/Checks.antt =====
-- Checks of one product.
use product_updates.Dict.{get}
use product_updates.Domain.Enums.{FetchOutcome, in_stock, is_success}
use product_updates.Domain.Results.{failure, succeeded, retracts}
use product_updates.Examples.Data.{phone, tables, circumstances, reading, fetches}
use product_updates.Decimal.{Decimal}
use product_updates.Decimal.Places.{is_hundredths}
use product_updates.Tracking.Repeated.{repeated-changed}
use product_updates.Tracking.Checking.{price_outcome}
use product_updates.Tracking.Recording.{record_price}
use product_updates.Prelude.{
  not, codes, zero, suc, ℕ, inl, some, none, refl, arith, ◌≡◌, false, All, Option, max,
}
use product_updates.Rules.{is_change_rule, evaluate_all}
use product_updates.Tracking.{Database, CheckExecution, find_product}
use product_updates.Tracking.Alerting.{list_enabled, rule_context}
use product_updates.Tracking.Cases.{check_product_found}
use product_updates.Tracking.Checking.{
  CheckGuard, check_found, check_product, price_outcome, availability_outcome,
}
use product_updates.Tracking.Quiet.{failed_check-no_change}
use product_updates.Tracking.Recording.{latest_price, latest_availability, settle_product}
use product_updates.Tracking.Retry.{Ended, fetch_with_retry, fetch_with_retry-Ended, fetch}
use product_updates.Tracking.Synced.{Synced}
use product_updates.Tracking.Synced.Step.{Honest, check_product-Synced}
use product_updates.Tracking.Traced.{Traced, check_product-Traced}

abbrev no_guard : Option (CheckGuard ℕ)
no_guard = none

abbrev checked : CheckExecution × (ℕ × Database)
checked = check_found (λ t. t) 86400 3 no_guard circumstances phone (0, tables)

pub tables-Synced : Synced 5 tables
unfolding latest_price latest_availability
tables-Synced = record {
  price_rows = (((omega arith, omega arith), refl), tt);
  availability_rows = ((omega arith, omega arith), tt);
  shown = ((refl, refl), tt);
}

pub fetches-Honest : (i : ℕ) → Honest (fetch (fetches i))
unfolding fetch retracts get failure
fetches-Honest zero e = refl
fetches-Honest (suc n) e = absurd (ground (arith, e))

tables-Traced : Traced tables
tables-Traced =
    (inl (record { id = refl; product = refl; time = refl; price = refl; status = refl }), tt)

found : check_product (λ t. t) 86400 3 no_guard circumstances 7 (0, tables) ≡ some checked
unfolding find_product
found = check_product_found (λ t. t) 86400 3 no_guard circumstances 7 0 tables phone refl

check_product-Synced_example : Synced 9 checked.1.1
unfolding check_product find_product fetch retracts get
check_product-Synced_example =
    check_product-Synced (λ t. t) 86400 3 circumstances 5 tables no_guard 7 0 checked (omega arith)
      fetches-Honest tables-Synced found

check_product-Traced_example : Traced checked.1.1
unfolding check_product find_product
check_product-Traced_example =
    check_product-Traced (λ t. t) 86400 3 no_guard circumstances 7 0 tables checked tables-Traced
      found

fetch_with_retry-Ended_example : Ended fetches 1 (max 1 3) (fetch_with_retry 3 fetches)
fetch_with_retry-Ended_example = fetch_with_retry-Ended 3 fetches

failed_check-no_change_example :
    let r = reading FetchOutcome.blocked none in_stock in
    All
      (λ m. is_change_rule m.rule_type ≡ false)
      (evaluate_all
        (list_enabled 7 tables.rules)
        (rule_context
          (settle_product phone r 9)
          (price_outcome r 7 tables)
          (availability_outcome r 7 tables)
          9)
        9)
unfolding succeeded is_success latest_price
failed_check-no_change_example =
    failed_check-no_change phone (reading FetchOutcome.blocked none in_stock) 9 tables refl refl

-- a price of three places, read twice
abbrev odd_price : Decimal
odd_price = record { coefficient = 12345; scale = 3 }

repeated-changed_example :
    (price_outcome (reading FetchOutcome.ok (some odd_price) in_stock) phone.id (
      record_price phone
        (reading FetchOutcome.ok (some odd_price) in_stock)
        odd_price
        9
        1
        tables)).changed
    ≡ not (is_hundredths odd_price)
unfolding succeeded is_success
repeated-changed_example =
    repeated-changed phone (reading FetchOutcome.ok (some odd_price) in_stock) odd_price
      (codes "USD") 9 1 tables refl refl refl refl (((omega arith, omega arith), refl), tt)
