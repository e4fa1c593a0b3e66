-- ===== src/Domain/Contexts.antt =====
-- domain/models.py: what the rule engine reads and what it answers. The price statistics of
-- `RuleContext`, which no evaluator reads, are left out.
use product_updates.Decimal.{Decimal}
use product_updates.Domain.Enums.{Availability, TrackingStatus, RuleType}
use product_updates.Prelude.{ℕ, Text, Option}

-- Times are microseconds since the epoch.
abbrev pub Time : Type 0
Time = ℕ

abbrev pub second : ℕ
second = 1000000

pub record ProductSnapshot : Type 0 where
  pub id : ℕ
  pub url : Text
  pub store_slug : Text
  pub name : Option Text
  pub current_price : Option Decimal
  pub currency : Option Text
  pub availability : Availability
  pub tracking_status : TrackingStatus
  pub last_checked_at : Option Time

pub record RuleContext : Type 0 where
  pub product : ProductSnapshot
  pub previous_price : Option Decimal
  pub current_price : Option Decimal
  pub previous_availability : Availability
  pub current_availability : Availability
  pub observed_at : Option Time

-- The dictionary `RuleMatch.context`: a key that is missing or `None` is `none`.
pub record MatchContext : Type 0 where
  pub previous_price : Option Text
  pub current_price : Option Text
  pub target_price : Option Text
  pub previous_availability : Option Text
  pub current_availability : Option Text
  pub currency : Option Text
  pub url : Text
  pub notify_provider : Option Text

-- `RuleMatch`; its `body`, formatted money and a percentage for a reader, is left out.
pub record RuleMatch : Type 0 where
  pub rule_id : ℕ
  pub rule_type : RuleType
  pub product_id : ℕ
  pub title : Text
  pub context : MatchContext
