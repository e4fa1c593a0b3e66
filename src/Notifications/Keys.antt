-- ===== src/Notifications/Keys.antt =====
-- `build_dedupe_key` and `NotificationService.record`.
use product_updates.Decimal.Written.{digits}
use product_updates.Domain.Contexts.{Time, second, RuleMatch}
use product_updates.Domain.Enums.{rule_type_value}
use product_updates.Notifications.{Table, Owner, Notification, create_if_new}
use product_updates.Prelude.{ℕ, ◌*◌, ◌/◌, max, Text, Option, some, [], ◌∷◌}
use product_updates.Prelude.Joins.{join}
use product_updates.Rules.{dedupe_signature}

-- `DEFAULT_DEDUPE_WINDOW_SECONDS`
abbrev pub default_dedupe_window_seconds : ℕ
default_dedupe_window_seconds = 86400

-- the window of absolute time in which an alert counts once
unfoldable pub bucket_of : Time → ℕ → ℕ
bucket_of when window_seconds = when / (max 1 window_seconds * second)

-- the text that is hashed
unfoldable pub key_text : RuleMatch → ℕ → Text
key_text m bucket = join (b'|' ∷ []) (
    digits m.product_id
    ∷ digits m.rule_id
    ∷ rule_type_value m.rule_type
    ∷ dedupe_signature m
    ∷ digits bucket
    ∷ [])

-- `digest` is the hexadecimal SHA-256 of hashlib.
module _ (digest : Text → Text) where
  unfoldable pub build_dedupe_key : RuleMatch → Time → ℕ → Text
  unfolding key_text bucket_of
  build_dedupe_key m when window_seconds = digest (key_text m (bucket_of when window_seconds))

  -- `owner` is the account of the match's rule.
  unfoldable pub record_match :
      ℕ → Option Owner → RuleMatch → Time → Table → Option Notification × Table
  record_match window_seconds owner m when table =
      create_if_new
        (record {
          product_id = m.product_id;
          tracking_rule_id = some m.rule_id;
          owner = owner;
          event_type = rule_type_value m.rule_type;
          dedupe_key = build_dedupe_key m when window_seconds;
          payload = record {
            title = m.title;
            provider = m.context.notify_provider;
            context = m.context;
          };
        })
        when table
