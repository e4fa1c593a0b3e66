-- ===== src/Tracking.antt =====
-- services/tracking.py: the state that a check reads and writes. The modules below hold the retries,
-- the recording of a result, and a whole check.
pub mod Retry
pub mod History
pub mod Recording
pub mod Alerting
pub mod Checking
pub mod Cases
pub mod Synced
pub mod Quiet
pub mod Traced
pub mod Counts
pub mod Repeated
use product_updates.Decimal.{Decimal}
use product_updates.Dict.{Dict}
use product_updates.Domain.Contexts.{Time}
use product_updates.Domain.Enums.{Availability, TrackingStatus, CheckStatus, FetchMethod}
use product_updates.Domain.Results.{Json}
use product_updates.Notifications.{Table, Owner}
use product_updates.Prelude.{
  ℕ, ◌+◌, ◌<◌, Bool, true, false, Text, Option, none, some, List, [], ◌∷◌, ◌++◌, ltb, ◌==◌, ◌||◌,
  ◌&&◌, if◌then◌else◌,
}
use product_updates.Rules.{TrackingRule}

-- db/models.py `Product`: the columns that a check reads or writes, and its store's slug
pub record Product : Type 0 where
  pub id : ℕ
  pub url : Text
  pub store_id : ℕ
  pub store_slug : Text
  pub name : Option Text
  pub product_identifier : Option Text
  pub image_url : Option Text
  pub current_price : Option Decimal
  pub currency : Option Text
  pub availability : Availability
  pub extra_metadata : Dict Json
  pub tracking_status : TrackingStatus
  pub last_checked_at : Option Time
  pub last_success_at : Option Time
  pub consecutive_failures : ℕ

-- db/models.py `PriceHistory`
pub record PriceRow : Type 0 where
  pub id : ℕ
  pub product_id : ℕ
  pub observed_at : Time
  pub price : Decimal
  pub currency : Text
  pub check_execution_id : ℕ

-- db/models.py `AvailabilityHistory`
pub record AvailabilityRow : Type 0 where
  pub id : ℕ
  pub product_id : ℕ
  pub observed_at : Time
  pub availability : Availability
  pub check_execution_id : ℕ

-- db/models.py `CheckExecution`
pub record CheckExecution : Type 0 where
  pub id : ℕ
  pub product_id : ℕ
  pub store_id : ℕ
  pub started_at : Time
  pub finished_at : Time
  pub duration_ms : ℕ
  pub status : CheckStatus
  pub fetch_method : FetchMethod
  pub http_status : Option ℕ
  pub extracted_price : Option Decimal
  pub extracted_currency : Option Text
  pub availability_result : Option Availability
  pub price_changed : Bool
  pub availability_changed : Bool
  pub rules_evaluated : ℕ
  pub rules_matched : ℕ
  pub notifications_created : ℕ
  pub attempts : ℕ
  pub error_type : Option Text
  pub error_detail : Option Text

-- The tables that a check touches, each in order of its ids, and the next ids.
pub record Database : Type 0 where
  pub products : List Product
  pub prices : List PriceRow
  pub availabilities : List AvailabilityRow
  pub executions : List CheckExecution
  pub rules : List TrackingRule
  pub notifications : Table
  pub users : List (ℕ × Owner)
  pub next_price_id : ℕ
  pub next_availability_id : ℕ
  pub next_execution_id : ℕ

-- `ProductRepository.get`
unfoldable pub find_product : ℕ → List Product → Option Product
find_product id [] = none
find_product id (p ∷ ps) = if p.id == id then some p else find_product id ps

-- the session writes a changed object back to its row
unfoldable pub write_product : Product → List Product → List Product
write_product p [] = []
write_product p (q ∷ qs) = (if q.id == p.id then p else q) ∷ write_product p qs
