-- ===== src/Comparison.antt =====
-- services/comparison.py: the cells of the comparison grid and the choice of one listing per shop.
-- The rows and the grid of domain/models.py, and what is loaded for them, are modules below.
pub mod Chosen
pub mod Best
pub mod Choice
pub mod Fresh
pub mod AfterCheck
pub mod Cheapest
pub mod Offers
pub mod Overall
pub mod Rows
pub mod Sorting
pub mod Grid
pub mod Matrix
use product_updates.Decimal.{Decimal, same, below}
use product_updates.Dict.{Dict, get, put}
use product_updates.Domain.Contexts.{Time}
use product_updates.Domain.Enums.{
  Availability, CellStatus, CheckStatus, FetchOutcome, outcome_value, same_availability,
}
use product_updates.Prelude.{
  if◌then◌else◌, ◌&&◌, ◌||◌, ◌==◌, ◌+◌, ◌∷◌, [], some, none, Option, List, Text, text_eq, ℕ, Bool,
  true, false, not, ltb,
}
use product_updates.Tracking.{Product}
use product_updates.Tracking.Recording.{is_success_status}

-- A product as the grid loads it, with the display name of its store.
pub record Listing : Type 0 where
  pub product : Product
  pub store_name : Text

-- `ComparisonCell`
pub record Cell : Type 0 where
  pub status : CellStatus
  pub price : Option Decimal
  pub currency : Option Text
  pub availability : Availability
  pub product_id : Option ℕ
  pub url : Option Text
  pub last_checked_at : Option Time
  pub is_stale : Bool
  pub previous_price : Option Decimal

-- the status and the error type of a check
abbrev pub LastCheck : Type 0
LastCheck = CheckStatus × Option Text

-- `ComparisonCell(status=CellStatus.NOT_TRACKED)`
abbrev pub untracked_cell : Cell
untracked_cell = record {
  status = CellStatus.not_tracked;
  price = none;
  currency = none;
  availability = Availability.unknown;
  product_id = none;
  url = none;
  last_checked_at = none;
  is_stale = false;
  previous_price = none;
}

-- `_prefer`, on the prices and the ids of the candidate and the incumbent
unfoldable pub prefer_price : Option Decimal → Option Decimal → ℕ → ℕ → Bool
prefer_price none q i j = false
prefer_price (some p) none i j = true
prefer_price (some p) (some q) i j = if not (same p q) then below p q else ltb i j

unfoldable pub prefer : Listing → Listing → Bool
unfolding prefer_price
prefer candidate incumbent =
    prefer_price candidate.product.current_price incumbent.product.current_price
      candidate.product.id incumbent.product.id

-- `current is None or _prefer(product, current)`
unfoldable pub takes_over : Listing → Option Listing → Bool
unfolding prefer
takes_over listing none = true
takes_over listing (some current) = prefer listing current

unfoldable pub choose_from : List Listing → Dict Listing → Dict Listing
unfolding takes_over put get
choose_from [] chosen = chosen
choose_from (listing ∷ listings) chosen =
    let slug = listing.product.store_slug in
    let next = if takes_over listing (get chosen slug) then put chosen slug listing else chosen in
    choose_from listings next

-- `_one_per_store`
unfoldable pub one_per_store : List Listing → Dict Listing
unfolding choose_from
one_per_store listings = choose_from listings []

-- `error_type == outcome.value`
unfoldable pub has_error : Option Text → FetchOutcome → Bool
unfolding text_eq outcome_value
has_error none outcome = false
has_error (some error) outcome = text_eq error (outcome_value outcome)

-- `error_type in _FAILURE_OUTCOMES`
unfoldable pub is_failure : Option Text → Bool
unfolding has_error
is_failure error =
    has_error error FetchOutcome.timeout
    || has_error error FetchOutcome.http_error
    || has_error error FetchOutcome.error
    || has_error error FetchOutcome.page_structure

abbrev is_failed_status : Option CheckStatus → Bool
is_failed_status (some CheckStatus.failed) = true
is_failed_status _ = false

abbrev pub is_confirming : Option CheckStatus → Option Text → Bool
is_confirming (some status) none = is_success_status status
is_confirming _ _ = false

-- the end of `_classify`, once the listing is known to be checked, answered and not sold out
unfoldable pub classify_price : Option Decimal → Option CheckStatus → Option Text → CellStatus
unfolding is_failure
classify_price none status error =
    if is_failure error || is_failed_status status then CellStatus.failed else CellStatus.no_price
classify_price (some price) status error = CellStatus.ok

-- `_classify`
unfoldable pub classify : Product → Option CheckStatus → Option Text → CellStatus
unfolding has_error same_availability classify_price
classify product status error = elim product.last_checked_at [
  | none ↦ CellStatus.never_checked
  | some checked ↦
      if has_error error FetchOutcome.blocked
      then CellStatus.blocked
      else if same_availability product.availability Availability.out_of_stock
      then CellStatus.out_of_stock
      else classify_price product.current_price status error
]

abbrev pub is_ok_cell : CellStatus → Bool
is_ok_cell CellStatus.ok = true
is_ok_cell _ = false

-- `last_check or (None, None)`
abbrev pub status_of : Option LastCheck → Option CheckStatus
status_of none = none
status_of (some check) = some check.0

abbrev pub error_of : Option LastCheck → Option Text
error_of none = none
error_of (some check) = check.1

-- `(moment - last_checked_at) > stale_after`, where the listing was checked
unfoldable pub is_aged : Option Time → Time → Time → Bool
is_aged none stale_after moment = false
is_aged (some checked) stale_after moment = ltb (checked + stale_after) moment

-- `cell_for_product`
unfoldable pub cell_for_product : Product → Option Decimal → Option LastCheck → Time → Time → Cell
unfolding classify is_aged
cell_for_product product previous_price last_check stale_after moment =
    let status = classify product (status_of last_check) (error_of last_check) in
    let confirmed = is_confirming (status_of last_check) (error_of last_check) in
    record {
      status = status;
      price = product.current_price;
      currency = product.currency;
      availability = product.availability;
      product_id = some product.id;
      url = some product.url;
      last_checked_at = product.last_checked_at;
      is_stale =
          is_aged product.last_checked_at stale_after moment
          || (is_ok_cell status && not confirmed);
      previous_price = previous_price;
    }
