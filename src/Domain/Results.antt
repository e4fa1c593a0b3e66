-- ===== src/Domain/Results.antt =====
-- domain/models.py: `FetchResult`, what an adapter learned in one fetch.
use product_updates.Decimal.{Decimal}
use product_updates.Dict.{Dict, get}
use product_updates.Domain.Enums.{FetchOutcome, Availability, FetchMethod, is_success}
use product_updates.Prelude.{
  zero, Bool, true, false, Text, codes, Option, none, some, is_some, ℕ, [], ◌&&◌, not,
}
pub use product_updates.Prelude.{is_empty}

-- A value of a JSON column, as far as the program reads one: `None`, a flag, a number or a text.
pub data Json : Type 0 where
  null : Json
  flag : Bool → Json
  number : ℕ → Json
  text : Text → Json

abbrev pub truthy : Option Json → Bool
truthy none = false
truthy (some null) = false
truthy (some (flag b)) = b
truthy (some (number zero)) = false
truthy (some (number n)) = true
truthy (some (text t)) = not (is_empty t)

-- `RETRACTS_AVAILABILITY`
abbrev pub retracts_availability : Text
retracts_availability = codes "availability_retracted"

pub record FetchResult : Type 0 where
  pub outcome : FetchOutcome
  pub availability : Availability
  pub name : Option Text
  pub product_identifier : Option Text
  pub price : Option Decimal
  pub currency : Option Text
  pub image_url : Option Text
  pub raw_metadata : Dict Json
  pub fetch_method : FetchMethod
  pub http_status : Option ℕ
  pub message : Option Text

abbrev is_ok : FetchOutcome → Bool
is_ok FetchOutcome.ok = true
is_ok _ = false

-- `__post_init__` raises where this is false.
unfoldable pub is_constructible : FetchResult → Bool
is_constructible r =
    not (is_ok r.outcome && not (is_some r.price))
    && not (is_some r.price && not (is_some r.currency))

unfoldable pub succeeded : FetchResult → Bool
unfolding is_success
succeeded r = is_success r.outcome

-- `result.raw_metadata.get(RETRACTS_AVAILABILITY)`, as a test
unfoldable pub retracts : FetchResult → Bool
retracts r = truthy (get r.raw_metadata retracts_availability)

-- `FetchResult.failure`
unfoldable pub failure : FetchOutcome → Text → FetchMethod → Option ℕ → FetchResult
failure outcome message fetch_method http_status = record {
  outcome = outcome;
  availability = Availability.unknown;
  name = none;
  product_identifier = none;
  price = none;
  currency = none;
  image_url = none;
  raw_metadata = [];
  fetch_method = fetch_method;
  http_status = http_status;
  message = some message;
}
