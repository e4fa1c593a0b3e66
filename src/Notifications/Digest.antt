-- ===== src/Notifications/Digest.antt =====
-- `deliver_pending`, and the grouping of waiting alerts into one message per destination.
pub mod Frame
pub mod Privacy
use product_updates.Decimal.Written.{digits}
use product_updates.Dict.{Dict, get, put}
use product_updates.Domain.Contexts.{Time, second}
use product_updates.Notifications.{
  Table, Notification, list_retryable, mark_sent, mark_failed, mark_suppressed, write_row,
}
use product_updates.Notifications.Sending.{
  NotificationMessage, digest, NotificationProvider, SendResult, delivered, refused, crashed,
  DeliveryReport, empty_report, recipients_for, providers_for, deliver, no_provider, deliver_each,
}
use product_updates.Prelude.{
  ℕ, ◌+◌, ◌-◌, ◌*◌, ◌≤◌, Bool, true, false, Text, text_eq, codes, Option, none, some, List, [], ◌∷◌,
  ◌++◌, map, if◌then◌else◌, ltb, leb, ◌==◌, ◌&&◌, length, min,
}
use product_updates.Prelude.Joins.{join}

-- `_BatchKey`: the slugs of the providers, and the recipients. Python sorts the recipients by
-- slug; `recipients_for` lists `email` before `telegram`, so they are sorted.
pub record BatchKey : Type 0 where
  pub slugs : List Text
  pub recipients : Dict Text

unfoldable pub same_texts : List Text → List Text → Bool
same_texts [] [] = true
same_texts (s ∷ ss) (t ∷ ts) = text_eq s t && same_texts ss ts
same_texts _ _ = false

unfoldable pub same_recipients : Dict Text → Dict Text → Bool
same_recipients [] [] = true
same_recipients ((j, u) ∷ d) ((k, v) ∷ e) = text_eq j k && text_eq u v && same_recipients d e
same_recipients _ _ = false

unfoldable pub same_key : BatchKey → BatchKey → Bool
unfolding same_texts same_recipients
same_key a b = same_texts a.slugs b.slugs && same_recipients a.recipients b.recipients

abbrev pub key_of : List NotificationProvider → Notification → BatchKey
key_of providers row = record {
  slugs = map (λ p. p.slug) (providers_for providers row);
  recipients = recipients_for row;
}

abbrev pub Batch : Type 0
Batch = BatchKey × List Notification

-- `batches.setdefault(key, []).append(row)`
unfoldable pub add_to_batch : BatchKey → Notification → List Batch → List Batch
add_to_batch key row [] = (key, row ∷ []) ∷ []
add_to_batch key row ((k, rows) ∷ batches) =
    if same_key k key
    then (k, rows ++ row ∷ []) ∷ batches
    else (k, rows) ∷ add_to_batch key row batches

unfoldable pub group_from : List NotificationProvider → List Notification → List Batch → List Batch
group_from providers [] batches = batches
group_from providers (row ∷ rows) batches =
    group_from providers rows (add_to_batch (key_of providers row) row batches)

-- `_digest_message`: the first row speaks for the recipients of all.
unfoldable pub digest_message : Notification → List Notification → NotificationMessage
digest_message first rest = record {
  title = codes "Product Tracker: " ++ (digits (length (first ∷ rest)) ++ codes " alerts");
  url = none;
  context = digest (length (first ∷ rest)) (map (λ row. row.id) (first ∷ rest));
  recipients = recipients_for first;
}

-- `{p.slug: p for p in self.providers}`
by_slug : List NotificationProvider → Dict NotificationProvider → Dict NotificationProvider
by_slug [] d = d
by_slug (p ∷ ps) d = by_slug ps (put d p.slug p)

try_slugs :
    Dict NotificationProvider
    → NotificationMessage
    → List Text
    → List Text
    → Option Text × List Text
try_slugs known message [] errors = (none, errors)
try_slugs known message (slug ∷ slugs) errors = elim (get known slug) [
  | none ↦ try_slugs known message slugs errors
  | some p ↦ elim (p.send message) [
    | delivered ↦ (some slug, errors)
    | refused reason ↦
        try_slugs known message slugs (errors ++ (slug ++ (codes ": " ++ reason)) ∷ [])
    | crashed name ↦
        try_slugs known message slugs (errors ++ (slug ++ (codes ": unexpected " ++ name)) ∷ [])
  ]
]

unfoldable pub write_all :
    (Notification → Notification) → List Notification → List Notification → List Notification
write_all f [] rows = rows
write_all f (row ∷ batch) rows = write_all f batch (write_row (f row) rows)

abbrev pub marked : (Notification → Notification) → List Notification → Table → Table
marked f batch table = record table { rows = write_all f batch table.rows }

settle_batch :
    List Notification
    → Time
    → Option Text × List Text
    → Table × DeliveryReport
    → Table × DeliveryReport
settle_batch batch now (some slug, errors) (table, report) =
    (marked (mark_sent slug now) batch table, record report { sent = report.sent + length batch })
settle_batch batch now (none, errors) (table, report) = (
  marked (mark_failed (join (codes "; ") errors)) batch table,
  record report { failed = report.failed + length batch },
)

-- `_send_batch`
unfoldable pub send_batch :
    List NotificationProvider
    → Time
    → List Text
    → Notification
    → List Notification
    → Table × DeliveryReport
    → Table × DeliveryReport
unfolding by_slug try_slugs settle_batch write_all mark_sent mark_failed digest_message
send_batch providers now slugs first rest state =
    settle_batch (first ∷ rest) now
      (try_slugs (by_slug providers []) (digest_message first rest) slugs []) state

-- one turn of the loop over the batches, by the slugs and the rows of the batch
deliver_slugs :
    List NotificationProvider
    → Time
    → List Text
    → List Notification
    → Table × DeliveryReport
    → Table × DeliveryReport
deliver_slugs providers now slugs [] state = state
deliver_slugs providers now [] (first ∷ rest) (table, report) = (
  marked (mark_suppressed no_provider) (first ∷ rest) table,
  record report { suppressed = report.suppressed + length (first ∷ rest) },
)
deliver_slugs providers now (s ∷ ss) (row ∷ []) (table, report) =
    deliver_each providers now (row ∷ []) table report
deliver_slugs providers now (s ∷ ss) (first ∷ next ∷ rest) state =
    send_batch providers now (s ∷ ss) first (next ∷ rest) state

unfoldable pub deliver_batches :
    List NotificationProvider → Time → List Batch → Table × DeliveryReport → Table × DeliveryReport
unfolding deliver_slugs write_all
deliver_batches providers now [] state = state
deliver_batches providers now ((key, rows) ∷ batches) state =
    deliver_batches providers now batches (deliver_slugs providers now key.slugs rows state)

-- `min(row.created_at for row in rows)`
unfoldable pub oldest_of : Notification → List Notification → Time
oldest_of row [] = row.created_at
oldest_of row (r ∷ rows) = min row.created_at (oldest_of r rows)

-- `_deliver_digest`: `oldest > moment - window`, written so that no time is negative
unfoldable pub deliver_digest :
    List NotificationProvider
    → ℕ
    → Time
    → Notification
    → List Notification
    → Table
    → Table × DeliveryReport
unfolding oldest_of
deliver_digest providers window_minutes now first rest table =
    if ltb now (oldest_of first rest + window_minutes * 60 * second)
    then (table, empty_report)
    else deliver_batches providers now (group_from providers (first ∷ rest) [])
        (table, empty_report)

deliver_rows :
    List NotificationProvider → ℕ → Time → List Notification → Table → Table × DeliveryReport
deliver_rows providers window_minutes now [] table = (table, empty_report)
deliver_rows providers window_minutes now (first ∷ rest) table =
    if ltb 0 window_minutes
    then deliver_digest providers window_minutes now first rest table
    else deliver_each providers now (first ∷ rest) table empty_report

-- `deliver_pending`, also named `retry_pending`; `digest_minutes` is the setting
unfoldable pub deliver_pending :
    List NotificationProvider → ℕ → ℕ → Option ℕ → Time → Table → Table × DeliveryReport
unfolding deliver_rows
deliver_pending providers digest_minutes limit product_id now table =
    deliver_rows providers digest_minutes now (list_retryable limit product_id table) table
