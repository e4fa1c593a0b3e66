-- ===== src/Changes.antt =====
-- services/change_detection.py: what a check learned about the price and the availability.
pub mod Price
pub mod Stock
use product_updates.Decimal.{Decimal, same}
use product_updates.Domain.Enums.{Availability, unknown, same_availability}
use product_updates.Domain.Results.{FetchResult, succeeded, retracts}
use product_updates.Prelude.{
  Bool, true, false, Text, text_eq, Option, none, some, is_some, ◌&&◌, ◌||◌, not, if◌then◌else◌,
}

pub record PriceOutcome : Type 0 where
  pub should_record : Bool
  pub changed : Bool
  pub previous : Option Decimal
  pub current : Option Decimal
  pub previous_currency : Option Text

pub record AvailabilityOutcome : Type 0 where
  pub should_record : Bool
  pub changed : Bool
  pub previous : Option Availability
  pub current : Availability

unfoldable pub is_first_price : PriceOutcome → Bool
is_first_price o = o.should_record && not (is_some o.previous)

unfoldable pub is_first_availability : AvailabilityOutcome → Bool
is_first_availability o = o.should_record && not (is_some o.previous)

-- both currencies are known and differ
unfoldable pub currency_switched : Option Text → Option Text → Bool
currency_switched (some a) (some b) = not (text_eq a b)
currency_switched _ _ = false

abbrev nothing_learned : Option Decimal → Option Text → PriceOutcome
nothing_learned previous previous_currency = record {
  should_record = false;
  changed = false;
  previous = previous;
  current = none;
  previous_currency = previous_currency;
}

-- a successful check that read the price `current`
compare_price : FetchResult → Decimal → Option Decimal → Option Text → PriceOutcome
compare_price result current none previous_currency = record {
  should_record = true;
  changed = false;
  previous = none;
  current = some current;
  previous_currency = none;
}
compare_price result current (some previous_price) previous_currency =
    let differs =
      not (same current previous_price) || currency_switched previous_currency result.currency in
    record {
      should_record = differs;
      changed = differs;
      previous = some previous_price;
      current = some current;
      previous_currency = previous_currency;
    }

unfoldable pub detect_price_change : FetchResult → Option Decimal → Option Text → PriceOutcome
unfolding compare_price
detect_price_change result previous_price previous_currency = elim result.price [
  | none ↦ nothing_learned previous_price previous_currency
  | some current ↦
      if succeeded result
      then compare_price result current previous_price previous_currency
      else nothing_learned previous_price previous_currency
]

-- the previous availability is known, and is not `UNKNOWN`
abbrev is_known : Option Availability → Bool
is_known none = false
is_known (some a) = not (same_availability a unknown)

compare_availability : Availability → Option Availability → AvailabilityOutcome
compare_availability current none = record {
  should_record = true;
  changed = false;
  previous = none;
  current = current;
}
compare_availability current (some previous) =
    let differs = not (same_availability current previous) in
    record {
      should_record = differs;
      changed = differs;
      previous = some previous;
      current = current;
    }

unfoldable pub detect_availability_change : FetchResult → Option Availability → AvailabilityOutcome
unfolding compare_availability
detect_availability_change result previous =
    if retracts result
    then record {
      should_record = is_known previous;
      changed = is_known previous;
      previous = previous;
      current = unknown;
    }
    else if not (succeeded result)
    then record {
      should_record = false;
      changed = false;
      previous = previous;
      current = result.availability;
    }
    else compare_availability result.availability previous
