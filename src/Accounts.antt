-- ===== src/Accounts.antt =====
-- services/product_service.py, services/alert_service.py and the subscriptions of
-- services/user_service.py: listings are shared, and who watches them is each account's own.
-- This module has the tables and what the repositories read of them.
pub mod Watching
pub mod Alerts
pub mod Pausing
pub mod Requests
pub mod Isolation
pub mod Quotas
pub mod Unique
pub mod Leaving
use product_updates.Domain.Enums.{RuleType, TrackingStatus, same_rule_type}
use product_updates.Prelude.{
  if◌then◌else◌, ◌&&◌, ◌||◌, ◌==◌, ◌++◌, ◌∷◌, [], some, none, Option, List, Text, ℕ, Bool, true,
  false, not, any, keep, length, text_eq,
}
use product_updates.Rules.{TrackingRule}

-- db/models.py `Subscription`; a pair of a user and a product stands once in its table.
pub record Subscription : Type 0 where
  pub user_id : ℕ
  pub product_id : ℕ
  pub paused : Bool

-- db/models.py `Product`: the columns that these services read or write
pub record Listing : Type 0 where
  pub id : ℕ
  pub url : Text
  pub url_canonical : Text
  pub store_id : ℕ
  pub check_interval_seconds : Option ℕ
  pub tracking_status : TrackingStatus

-- db/models.py `User`: its id, and whether it is an admin
pub record User : Type 0 where
  pub id : ℕ
  pub is_admin : Bool

pub record AccountTables : Type 0 where
  pub listings : List Listing
  pub subscriptions : List Subscription
  pub rules : List TrackingRule
  pub users : List User
  pub next_product_id : ℕ
  pub next_rule_id : ℕ

-- The errors that these services raise; a session that sees one is rolled back.
pub data ServiceError : Type 0 where
  not_found duplicate quota_exceeded invalid invalid_url : ServiceError

pub data Result (A : Type 0) : Type 0 where
  failed : ServiceError → Result A
  done : A → Result A

-- `Repository.get`
unfoldable pub get_listing : ℕ → List Listing → Option Listing
get_listing id [] = none
get_listing id (p ∷ ps) = if p.id == id then some p else get_listing id ps

-- `ProductRepository.get_by_canonical_url`
unfoldable pub get_by_canonical_url : Text → List Listing → Option Listing
get_by_canonical_url url [] = none
get_by_canonical_url url (p ∷ ps) =
    if text_eq p.url_canonical url then some p else get_by_canonical_url url ps

-- a changed listing is written back to its row
unfoldable pub write_listing : Listing → List Listing → List Listing
write_listing p [] = []
write_listing p (q ∷ qs) = (if q.id == p.id then p else q) ∷ write_listing p qs

abbrev pub is_of : ℕ → ℕ → Subscription → Bool
is_of user product s = (s.user_id == user) && (s.product_id == product)

-- `SubscriptionRepository.is_subscribed`
unfoldable pub is_subscribed : ℕ → ℕ → List Subscription → Bool
is_subscribed user product subscriptions = any (is_of user product) subscriptions

-- `SubscriptionRepository.product_ids_for`: as many as the account watches
unfoldable pub watched_by : ℕ → List Subscription → List Subscription
watched_by user subscriptions = keep (λ s. s.user_id == user) subscriptions

-- `SubscriptionRepository.subscriber_count`
unfoldable pub subscriber_count : ℕ → List Subscription → ℕ
subscriber_count product subscriptions = length (keep (λ s. s.product_id == product) subscriptions)

-- `SubscriptionRepository.has_active_subscriber`
unfoldable pub has_active_subscriber : ℕ → List Subscription → Bool
has_active_subscriber product subscriptions =
    any (λ s. (s.product_id == product) && not s.paused) subscriptions

-- `exempt_from_quota`
unfoldable pub exempt_from_quota : ℕ → List User → Bool
exempt_from_quota user users = any (λ u. (u.id == user) && u.is_admin) users

-- `unsubscribe`
unfoldable pub unsubscribe : ℕ → ℕ → List Subscription → List Subscription
unsubscribe user product subscriptions = keep (λ s. not (is_of user product s)) subscriptions

-- `subscribe` and `_subscribe`: a second time it does nothing
unfoldable pub subscribe : ℕ → ℕ → List Subscription → List Subscription
unfolding is_subscribed
subscribe user product subscriptions =
    if is_subscribed user product subscriptions
    then subscriptions
    else subscriptions ++ record { user_id = user; product_id = product; paused = false } ∷ []
