-- ===== src/Notifications.antt =====
-- The alerts: repositories/notifications.py over the table `notifications`, and the sending of
-- services/notification_service.py in the modules below.
pub mod Keys
pub mod Sending
pub mod Digest
pub mod Uniqueness
pub mod Attempts
use product_updates.Domain.Contexts.{Time, MatchContext}
use product_updates.Domain.Enums.{NotificationStatus, pending, sent, suppressed}
use product_updates.Prelude.{
  ℕ, zero, suc, ◌+◌, ◌<◌, Bool, true, false, Text, text_eq, Option, none, some, List, [], ◌∷◌, ◌++◌,
  map, ltb, ◌==◌, ◌&&◌, ◌||◌, if◌then◌else◌, keep, take, any,
}

-- what `record` stores in the column `payload`, less the body of the alert
pub record Payload : Type 0 where
  pub title : Text
  pub provider : Option Text
  pub context : MatchContext

-- where the owner of the alert's rule wants to be reached: `notification.rule.user`
pub record Owner : Type 0 where
  pub notify_email : Option Text
  pub notify_telegram_chat_id : Option Text

-- db/models.py `Notification`
pub record Notification : Type 0 where
  pub id : ℕ
  pub product_id : ℕ
  pub tracking_rule_id : Option ℕ
  pub owner : Option Owner
  pub event_type : Text
  pub dedupe_key : Text
  pub payload : Payload
  pub status : NotificationStatus
  pub provider : Option Text
  pub error : Option Text
  pub attempts : ℕ
  pub created_at : Time
  pub sent_at : Option Time

-- The rows in order of their ids, and the next id of the sequence. An insert that meets a conflict
-- also draws an id, which nothing observes.
pub record Table : Type 0 where
  pub rows : List Notification
  pub next_id : ℕ

-- `MAX_DELIVERY_ATTEMPTS`
abbrev pub max_delivery_attempts : ℕ
max_delivery_attempts = 3

-- the values that `create_if_new` is called with; the row's owner is that of the rule
pub record NewAlert : Type 0 where
  pub product_id : ℕ
  pub tracking_rule_id : Option ℕ
  pub owner : Option Owner
  pub event_type : Text
  pub dedupe_key : Text
  pub payload : Payload

new_row : ℕ → Time → NewAlert → Notification
new_row id now a = record {
  id = id;
  product_id = a.product_id;
  tracking_rule_id = a.tracking_rule_id;
  owner = a.owner;
  event_type = a.event_type;
  dedupe_key = a.dedupe_key;
  payload = a.payload;
  status = pending;
  provider = none;
  error = none;
  attempts = 0;
  created_at = now;
  sent_at = none;
}

-- a row with this key is there: `ON CONFLICT (dedupe_key)`
unfoldable pub has_key : Text → List Notification → Bool
has_key key rows = any (λ row. text_eq row.dedupe_key key) rows

-- `create_if_new`, with the column's default for `created_at`
unfoldable pub create_if_new : NewAlert → Time → Table → Option Notification × Table
unfolding new_row
create_if_new a now table =
    let row = new_row table.next_id now a in
    if has_key a.dedupe_key table.rows
    then (none, table)
    else (some row, record table { rows = table.rows ++ row ∷ []; next_id = suc table.next_id })

abbrev is_waiting : NotificationStatus → Bool
is_waiting pending = true
is_waiting NotificationStatus.failed = true
is_waiting _ = false

-- the row is still owed: the first `where` of `list_retryable`
unfoldable pub is_retryable : Notification → Bool
is_retryable row = is_waiting row.status && ltb row.attempts max_delivery_attempts

abbrev about : Option ℕ → Notification → Bool
about none row = true
about (some product_id) row = row.product_id == product_id

unfoldable pub list_retryable : ℕ → Option ℕ → Table → List Notification
list_retryable limit product_id table =
    take limit (keep (λ row. is_retryable row && about product_id row) table.rows)

-- an error text is cut to a thousand characters
abbrev clipped : Text → Text
clipped t = take 1000 t

unfoldable pub mark_sent : Text → Time → Notification → Notification
mark_sent provider when row = record row {
  status = sent;
  provider = some provider;
  sent_at = some when;
  error = none;
  attempts = row.attempts + 1;
}

unfoldable pub mark_failed : Text → Notification → Notification
mark_failed error row = record row {
  status = NotificationStatus.failed;
  error = some (clipped error);
  attempts = row.attempts + 1;
}

unfoldable pub mark_suppressed : Text → Notification → Notification
mark_suppressed reason row = record row { status = suppressed; error = some (clipped reason) }

-- The rows of the table are objects of the session: a change to one is a change to the table's row
-- of that id.
unfoldable pub write_row : Notification → List Notification → List Notification
write_row row [] = []
write_row row (r ∷ rows) = (if r.id == row.id then row else r) ∷ write_row row rows
