-- ===== src/Examples/Data.antt =====
-- One product, its rules and its alerts.
use product_updates.Decimal.{Decimal}
use product_updates.Domain.Contexts.{RuleContext, RuleMatch, MatchContext}
use product_updates.Domain.Enums.{
  Availability, in_stock, TrackingStatus, RuleType, price_dropped, FetchOutcome, FetchMethod,
  NotificationStatus, CheckStatus,
}
use product_updates.Domain.Results.{FetchResult, Json}
use product_updates.Notifications.{Notification, Owner, Table}
use product_updates.Notifications.Sending.{NotificationProvider, delivered}
use product_updates.Prelude.{Option, some, none, codes, ℕ, [], ◌∷◌, false, true, suc, ◌*◌, zero}
use product_updates.Rules.{TrackingRule, target_price_key}
use product_updates.Tracking.{Product, Database}
use product_updates.Tracking.Checking.{Circumstances}
use product_updates.Tracking.Retry.{Fetched, returned, raised}

abbrev pub dollars : ℕ → Decimal
dollars n = record { coefficient = n * 100; scale = 2 }

abbrev pub reading : FetchOutcome → Option Decimal → Availability → FetchResult
reading outcome price availability = record {
  outcome = outcome;
  availability = availability;
  name = some (codes "Phone");
  product_identifier = none;
  price = price;
  currency = some (codes "USD");
  image_url = none;
  raw_metadata = [];
  fetch_method = FetchMethod.http;
  http_status = some 200;
  message = none;
}

abbrev pub phone : Product
phone = record {
  id = 7;
  url = codes "https://shop.test/p";
  store_id = 1;
  store_slug = codes "generic";
  name = some (codes "Phone");
  product_identifier = none;
  image_url = none;
  current_price = some (dollars 120);
  currency = some (codes "USD");
  availability = in_stock;
  extra_metadata = [];
  tracking_status = TrackingStatus.active;
  last_checked_at = none;
  last_success_at = none;
  consecutive_failures = 0;
}

abbrev pub rule_of : ℕ → RuleType → TrackingRule
rule_of id ty = record {
  id = id;
  product_id = 7;
  user_id = 1;
  rule_type = ty;
  params = (target_price_key, Json.text (codes "110")) ∷ [];
  notify_provider = some (codes "email");
  enabled = true;
  cooldown_seconds = some 60;
  last_fired_at = none;
}

abbrev pub context : Option Decimal → Option Decimal → Availability → Availability → RuleContext
context previous current was is = record {
  product = record {
    id = 7;
    url = codes "https://shop.test/p";
    store_slug = codes "generic";
    name = some (codes "Phone");
    current_price = current;
    currency = some (codes "USD");
    availability = is;
    tracking_status = TrackingStatus.active;
    last_checked_at = none;
  };
  previous_price = previous;
  current_price = current;
  previous_availability = was;
  current_availability = is;
  observed_at = none;
}

abbrev pub match_context : MatchContext
match_context = record {
  previous_price = some (codes "120.00");
  current_price = some (codes "100.00");
  target_price = none;
  previous_availability = none;
  current_availability = none;
  currency = some (codes "USD");
  url = codes "https://shop.test/p";
  notify_provider = some (codes "email");
}

abbrev pub drop_match : ℕ → RuleMatch
drop_match rule_id = record {
  rule_id = rule_id;
  rule_type = price_dropped;
  product_id = 7;
  title = codes "Price drop: Phone";
  context = match_context;
}

abbrev pub owner : Owner
owner = record { notify_email = some (codes "her@shop.test"); notify_telegram_chat_id = none }

abbrev pub alert : ℕ → ℕ → Notification
alert id attempts = record {
  id = id;
  product_id = 7;
  tracking_rule_id = some 3;
  owner = some owner;
  event_type = codes "price_dropped";
  dedupe_key = id ∷ [];
  payload = record {
    title = codes "Price drop: Phone";
    provider = some (codes "email");
    context = match_context;
  };
  status = NotificationStatus.pending;
  provider = none;
  error = none;
  attempts = attempts;
  created_at = 0;
  sent_at = none;
}

abbrev pub no_alerts : Table
no_alerts = record { rows = []; next_id = 1 }

abbrev pub email : NotificationProvider
email = record { slug = codes "email"; send = λ message. delivered }

abbrev pub tables : Database
tables = record {
  products = phone ∷ [];
  prices =
      record {
        id = 1;
        product_id = 7;
        observed_at = 5;
        price = dollars 120;
        currency = codes "USD";
        check_execution_id = 1;
      }
      ∷ [];
  availabilities =
      record {
        id = 1;
        product_id = 7;
        observed_at = 5;
        availability = in_stock;
        check_execution_id = 1;
      }
      ∷ [];
  executions =
      record {
        id = 1;
        product_id = 7;
        store_id = 1;
        started_at = 4;
        finished_at = 5;
        duration_ms = 1;
        status = CheckStatus.success;
        fetch_method = FetchMethod.http;
        http_status = some 200;
        extracted_price = some (dollars 120);
        extracted_currency = some (codes "USD");
        availability_result = some in_stock;
        price_changed = false;
        availability_changed = false;
        rules_evaluated = 1;
        rules_matched = 0;
        notifications_created = 0;
        attempts = 1;
        error_type = none;
        error_detail = none;
      }
      ∷ [];
  rules = rule_of 3 price_dropped ∷ [];
  notifications = no_alerts;
  users = (1, owner) ∷ [];
  next_price_id = 2;
  next_availability_id = 2;
  next_execution_id = 2;
}

-- the first fetch times out, the second reads a lower price
abbrev pub fetches : ℕ → Fetched
fetches zero = raised (codes "TimeoutError") (codes "slow")
fetches (suc n) = returned (reading FetchOutcome.ok (some (dollars 100)) in_stock)

abbrev pub circumstances : Circumstances
circumstances = record {
  started = 8;
  finished = 9;
  duration_ms = 1;
  host = some (codes "shop.test");
  fetches = fetches;
}
