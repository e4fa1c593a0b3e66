-- ===== src/Notifications/Sending.antt =====
-- `NotificationService.deliver` and `deliver_pending`: one alert, then every alert that waits.
pub mod FirstWins
use product_updates.Dict.{Dict}
use product_updates.Domain.Contexts.{Time, MatchContext}
use product_updates.Domain.Results.{is_empty}
use product_updates.Notifications.{
  Table, Owner, Notification, list_retryable, mark_sent, mark_failed, mark_suppressed, write_row,
}
use product_updates.Prelude.{
  ℕ, ◌+◌, Bool, true, false, Text, text_eq, codes, Option, none, some, List, [], ◌∷◌, ◌++◌,
  if◌then◌else◌, keep, ltb, leb,
}
use product_updates.Prelude.Joins.{join}

-- the `context` of one alert's message, or of a digest: its count and the ids of its alerts
pub data MessageContext : Type 0 where
  single : MatchContext → MessageContext
  digest : ℕ → List ℕ → MessageContext

-- domain/models.py `NotificationMessage`, less its body
pub record NotificationMessage : Type 0 where
  pub title : Text
  pub url : Option Text
  pub context : MessageContext
  pub recipients : Dict Text

-- `send` returns, raises `NotificationDeliveryError` with a reason, or raises another exception,
-- of which the type's name is read.
pub data SendResult : Type 0 where
  delivered : SendResult
  refused crashed : Text → SendResult

-- notifications/base.py: a channel talks to the outside, so what `send` answers is a parameter
pub record NotificationProvider : Type 0 where
  pub slug : Text
  pub send : NotificationMessage → SendResult

pub record DeliveryReport : Type 0 where
  pub created : ℕ
  pub sent : ℕ
  pub failed : ℕ
  pub suppressed : ℕ

abbrev pub empty_report : DeliveryReport
empty_report = record { created = 0; sent = 0; failed = 0; suppressed = 0 }

-- `value` is neither `None` nor empty
abbrev pub given : Option Text → Bool
given none = false
given (some t) = if is_empty t then false else true

abbrev destination : Text → Option Text → Dict Text
destination slug none = []
destination slug (some value) = if is_empty value then [] else (slug, value) ∷ []

unfoldable pub recipients_for : Notification → Dict Text
recipients_for row = elim row.owner [
  | none ↦ []
  | some owner ↦
      destination (codes "email") owner.notify_email
      ++ destination (codes "telegram") owner.notify_telegram_chat_id
]

-- `title or event_type`, for a title that is a text
unfoldable pub message_from : Notification → NotificationMessage
message_from row = record {
  title = if is_empty row.payload.title then row.event_type else row.payload.title;
  url = some row.payload.context.url;
  context = single row.payload.context;
  recipients = recipients_for row;
}

abbrev preferring : Option Text → List NotificationProvider → List NotificationProvider
preferring none providers = providers
preferring (some preferred) providers =
    if is_empty preferred then providers else keep (λ p. text_eq p.slug preferred) providers

-- `_providers_for`: the channel that the rule asked for, or all
unfoldable pub providers_for : List NotificationProvider → Notification → List NotificationProvider
providers_for providers row = preferring row.payload.provider providers

-- The loop over the providers: the first that accepts the message ends it; an error is noted.
unfoldable pub try_providers :
    NotificationMessage → List NotificationProvider → List Text → Option Text × List Text
try_providers message [] errors = (none, errors)
try_providers message (p ∷ ps) errors = elim (p.send message) [
  | delivered ↦ (some p.slug, errors)
  | refused reason ↦ try_providers message ps (errors ++ (p.slug ++ (codes ": " ++ reason)) ∷ [])
  | crashed name ↦
      try_providers message ps (errors ++ (p.slug ++ (codes ": unexpected " ++ name)) ∷ [])
]

abbrev pub no_provider : Text
no_provider = codes "no configured notification provider accepted this alert"

-- the row after the loop, and whether it was delivered
abbrev pub settle : Notification → Time → Option Text × List Text → Notification × Bool
settle row now (some slug, errors) = (mark_sent slug now row, true)
settle row now (none, errors) = (mark_failed (join (codes "; ") errors) row, false)

abbrev pub attempt :
    NotificationMessage → Notification → Time → List NotificationProvider → Notification × Bool
attempt message row now [] = (mark_suppressed no_provider row, false)
attempt message row now (p ∷ ps) = settle row now (try_providers message (p ∷ ps) [])

unfoldable pub deliver : List NotificationProvider → Time → Notification → Notification × Bool
unfolding providers_for try_providers message_from mark_sent mark_failed mark_suppressed
deliver providers now row = attempt (message_from row) row now (providers_for providers row)

abbrev counted : Bool → DeliveryReport → DeliveryReport
counted true r = record r { sent = r.sent + 1 }
counted false r = record r { failed = r.failed + 1 }

-- the loop without a digest: the rows are those of the table
unfoldable pub deliver_each :
    List NotificationProvider
    → Time
    → List Notification
    → Table
    → DeliveryReport
    → Table × DeliveryReport
deliver_each providers now [] table report = (table, report)
deliver_each providers now (row ∷ rows) table report =
    let (row', done) = deliver providers now row in
    deliver_each providers now rows (record table { rows = write_row row' table.rows })
      (counted done report)
