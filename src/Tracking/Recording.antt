-- ===== src/Tracking/Recording.antt =====
-- How a result is recorded: the status, the error text, the histories and the product's columns.
use product_updates.Changes.{AvailabilityOutcome, PriceOutcome}
use product_updates.Decimal.{to_money}
use product_updates.Dict.{merge}
use product_updates.Domain.Contexts.{ProductSnapshot, Time}
use product_updates.Domain.Enums.{CheckStatus, FetchOutcome, Availability}
use product_updates.Domain.Results.{FetchResult, succeeded, is_empty, retracts}
use product_updates.Prelude.{
  if◌then◌else◌, ◌++◌, ◌∷◌, [], suc, some, none, List, length, take, ◌-◌, codes, Option, Text, ℕ,
  Bool, leb, true, false,
}
use product_updates.Prelude.Spaces.{strip}
use product_updates.Tracking.{Product, Decimal, Database, PriceRow, AvailabilityRow}
use product_updates.Tracking.History.{latest_row}

-- `_status_for`
unfoldable pub status_for : FetchOutcome → CheckStatus
status_for FetchOutcome.ok = CheckStatus.success
status_for FetchOutcome.out_of_stock = CheckStatus.success
status_for FetchOutcome.unavailable = CheckStatus.success
status_for FetchOutcome.price_not_found = CheckStatus.partial
status_for FetchOutcome.needs_location = CheckStatus.partial
status_for _ = CheckStatus.failed

abbrev pub is_success_status : CheckStatus → Bool
is_success_status CheckStatus.success = true
is_success_status _ = false

-- `MAX_ERROR_DETAIL`
abbrev pub max_error_detail : ℕ
max_error_detail = 1000

unfoldable pub clamp_error : Text → Option Text
clamp_error t =
    if is_empty t
    then none
    else if leb (length t) max_error_detail
    then some t
    else some (take (max_error_detail - 3) t ++ codes "...")

-- `truncate_error`
unfoldable pub truncate_error : Option Text → Option Text
unfolding clamp_error strip
truncate_error none = none
truncate_error (some detail) = clamp_error (strip detail)

-- `PriceHistoryRepository.latest` and `AvailabilityHistoryRepository.latest`
unfoldable pub latest_price : ℕ → List PriceRow → Option PriceRow
unfolding latest_row
latest_price = latest_row (λ r. r.product_id) (λ r. r.observed_at) (λ r. r.id)

unfoldable pub latest_availability : ℕ → List AvailabilityRow → Option AvailabilityRow
unfolding latest_row
latest_availability = latest_row (λ r. r.product_id) (λ r. r.observed_at) (λ r. r.id)

-- `a or b`
abbrev or_text : Option Text → Option Text → Option Text
or_text none b = b
or_text (some a) b = if is_empty a then b else some a

abbrev text_or_empty : Option Text → Text
text_or_empty none = []
text_or_empty (some a) = a

-- `PriceHistoryRepository.record`; the column keeps two places of the price.
unfoldable pub record_price : Product → FetchResult → Decimal → Time → ℕ → Database → Database
record_price product result price now execution_id db = record db {
  prices =
      db.prices
      ++ record {
        id = db.next_price_id;
        product_id = product.id;
        observed_at = now;
        price = to_money price;
        currency = text_or_empty (or_text result.currency product.currency);
        check_execution_id = execution_id;
      }
        ∷ [];
  next_price_id = suc db.next_price_id;
}

-- `AvailabilityHistoryRepository.record`
unfoldable pub record_availability : Product → FetchResult → Time → ℕ → Database → Database
record_availability product result now execution_id db = record db {
  availabilities =
      db.availabilities
      ++ record {
        id = db.next_availability_id;
        product_id = product.id;
        observed_at = now;
        availability = result.availability;
        check_execution_id = execution_id;
      }
        ∷ [];
  next_availability_id = suc db.next_availability_id;
}

-- `if price_outcome.should_record and result.price is not None`
unfoldable pub append_price : PriceOutcome → Product → FetchResult → Time → ℕ → Database → Database
unfolding record_price
append_price outcome product result now execution_id db = elim result.price [
  | none ↦ db
  | some price ↦
      if outcome.should_record then record_price product result price now execution_id db else db
]

-- `if availability_outcome.should_record`
unfoldable pub append_availability :
    AvailabilityOutcome → Product → FetchResult → Time → ℕ → Database → Database
unfolding record_availability
append_availability outcome product result now execution_id db =
    if outcome.should_record then record_availability product result now execution_id db else db

-- `_apply`
unfoldable pub apply_result : Product → FetchResult → Product
apply_result product result = record product {
  current_price = elim result.price [ none ↦ product.current_price | some price ↦ some price ];
  currency = or_text result.currency product.currency;
  name = or_text result.name product.name;
  product_identifier = or_text result.product_identifier product.product_identifier;
  image_url = or_text result.image_url product.image_url;
  availability = result.availability;
  extra_metadata = merge product.extra_metadata result.raw_metadata;
}

-- The product's columns after the check: the branches of `_record` on `result.succeeded`.
unfoldable pub settle_product : Product → FetchResult → Time → Product
unfolding apply_result
settle_product product result now =
    if succeeded result
    then apply_result
        (record product {
          last_checked_at = some now;
          last_success_at = some now;
          consecutive_failures = 0;
        })
        result
    else record product {
      last_checked_at = some now;
      consecutive_failures = suc product.consecutive_failures;
      availability = if retracts result then Availability.unknown else product.availability;
    }

-- `_snapshot`
unfoldable pub snapshot : Product → ProductSnapshot
snapshot product = record {
  id = product.id;
  url = product.url;
  store_slug = product.store_slug;
  name = product.name;
  current_price = product.current_price;
  currency = product.currency;
  availability = product.availability;
  tracking_status = product.tracking_status;
  last_checked_at = product.last_checked_at;
}
