-- ===== src/Examples/Watchers.antt =====
-- Two accounts that watch one listing, and the alerts of one of them.
use product_updates.Accounts.{Listing, AccountTables, is_subscribed, watched_by, exempt_from_quota}
use product_updates.Accounts.Alerts.{has_rule, answer_alert, enable_alert, set_tracking_status}
use product_updates.Accounts.Isolation.{others_rules, answer_alert-others}
use product_updates.Accounts.Leaving.{StaysFor, remove_product-StaysFor}
use product_updates.Accounts.Pausing.{IsSettled, set_tracking_status-IsSettled}
use product_updates.Accounts.Quotas.{track_url-within_quota}
use product_updates.Accounts.Unique.{HasUniqueRules, answer_alert-HasUniqueRules}
use product_updates.Accounts.Watching.{remove_product, track_url}
use product_updates.Domain.Enums.{active, paused, price_dropped}
use product_updates.Examples.Data.{rule_of}
use product_updates.Prelude.{
  text_eq, ◌≡◌, ◌≤◌, ◌∷◌, [], arith, codes, false, length, none, refl, some, true, Option, Text,
}

abbrev pub shared : Listing
shared = record {
  id = 7;
  url = codes "https://shop.test/p";
  url_canonical = codes "https://shop.test/p";
  store_id = 1;
  check_interval_seconds = none;
  tracking_status = active;
}

-- account 1 watches the listing and has a rule on it, account 2 watches it too
abbrev pub accounts : AccountTables
accounts = record {
  listings = shared ∷ [];
  subscriptions =
      record { user_id = 1; product_id = 7; paused = false }
      ∷ record { user_id = 2; product_id = 7; paused = false }
      ∷ [];
  rules = rule_of 3 price_dropped ∷ [];
  users = record { id = 1; is_admin = false } ∷ record { id = 2; is_admin = false } ∷ [];
  next_product_id = 8;
  next_rule_id = 4;
}

abbrev disabled : AccountTables
disabled = record accounts { rules = record (rule_of 3 price_dropped) { enabled = false } ∷ [] }

answer_alert-others_example : others_rules 1 disabled.rules ≡ others_rules 1 accounts.rules
unfolding answer_alert
answer_alert-others_example = answer_alert-others 5 1 (enable_alert 3 false) accounts disabled refl

answer_alert-HasUniqueRules_example : HasUniqueRules disabled.rules
unfolding has_rule answer_alert
answer_alert-HasUniqueRules_example =
    answer_alert-HasUniqueRules 5 1 (enable_alert 3 false) accounts disabled (refl, tt) refl

-- account 2 pauses
abbrev half_paused : AccountTables
half_paused = record accounts {
  subscriptions =
      record { user_id = 1; product_id = 7; paused = false }
      ∷ record { user_id = 2; product_id = 7; paused = true }
      ∷ [];
}

set_tracking_status-IsSettled_example : IsSettled 2 7 paused accounts half_paused
unfolding set_tracking_status
set_tracking_status-IsSettled_example =
    set_tracking_status-IsSettled 2 7 paused accounts half_paused refl

-- account 1 leaves
abbrev left : AccountTables
left = record accounts {
  subscriptions = record { user_id = 2; product_id = 7; paused = false } ∷ [];
}

remove_product-StaysFor_example : StaysFor 2 7 accounts left
unfolding is_subscribed remove_product
remove_product-StaysFor_example = remove_product-StaysFor 1 2 7 accounts left refl refl refl

abbrev accepted : Text → Option Text
accepted t = some t

-- account 3 joins
abbrev joined : AccountTables
joined = record accounts {
  subscriptions =
      record { user_id = 1; product_id = 7; paused = false }
      ∷ record { user_id = 2; product_id = 7; paused = false }
      ∷ record { user_id = 3; product_id = 7; paused = false }
      ∷ [];
}

track_url-within_quota_example : length (watched_by 3 joined.subscriptions) ≤ 1
unfolding exempt_from_quota watched_by track_url text_eq
track_url-within_quota_example =
    track_url-within_quota accepted (λ t. t) (λ t. some 1) 1 3 (codes "https://shop.test/p") none
      accounts joined shared refl (omega arith) refl
