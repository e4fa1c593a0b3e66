-- ===== src/Notifications/Digest/Frame.antt =====
-- A rule for predicates on rows: what holds of every row, and of each waiting row however it is
-- marked, holds of every row after a pass of `deliver_pending`.
use product_updates.Domain.Contexts.{Time, second}
use product_updates.Notifications.{
  Table, Notification, mark_sent, mark_failed, mark_suppressed, write_row, is_retryable,
  list_retryable,
}
use product_updates.Notifications.Digest.{
  Batch, BatchKey, same_key, deliver_batches, deliver_slugs, deliver_digest, deliver_pending,
  deliver_rows, group_from, add_to_batch, write_all, send_batch, settle_batch, oldest_of, join,
}
use product_updates.Notifications.Sending.{
  NotificationProvider, DeliveryReport, try_providers, message_from, providers_for, deliver,
  deliver_each, attempt, settle, no_provider,
}
use product_updates.Prelude.{
  ℕ, Text, Option, none, some, List, [], ◌∷◌, ◌≡◌, arith, true, All, All-append, keep, take,
  Bool-cases, inl, inr, ltb, ◌==◌, Bool, All-mono, suc, ◌&&◌, ◌+◌, zero, codes, ◌*◌,
}

-- `P` holds of the row, whichever way it is marked.
pub record Markable (P : Notification → Type 0) (now : Time) (row : Notification) : Type 0 where
  pub as_sent : (slug : Text) → P (mark_sent slug now row)
  pub as_failed : (error : Text) → P (mark_failed error row)
  pub as_suppressed : (reason : Text) → P (mark_suppressed reason row)

module _ (P : Notification → Type 0) (now : Time) where
  deliver-P :
      (providers : List NotificationProvider) (row : Notification)
      → Markable P now row
      → P (deliver providers now row).0
  unfolding deliver
  deliver-P providers row m = by_list (providers_for providers row)
    where
      by_result : (r : Option Text × List Text) → P (settle row now r).0
      by_result (some slug, errors) = m.as_sent slug
      by_result (none, errors) = m.as_failed (join (codes "; ") errors)

      by_list : (ps : List NotificationProvider) → P (attempt (message_from row) row now ps).0
      by_list [] = m.as_suppressed no_provider
      by_list (p ∷ ps) = by_result (try_providers (message_from row) (p ∷ ps) [])

  write_row-All :
      (row : Notification) (rows : List Notification)
      → P row
      → All P rows
      → All P (write_row row rows)
  unfolding write_row
  write_row-All row [] h hs = tt
  write_row-All row (r ∷ rows) h hs = elim (Bool-cases (r.id == row.id)) [
    | inl e ↦ rw e (h, write_row-All row rows h hs.1)
    | inr e ↦ rw e (hs.0, write_row-All row rows h hs.1)
  ]

  write_all-All :
      (f : Notification → Notification) (batch rows : List Notification)
      → All (λ row. P (f row)) batch
      → All P rows
      → All P (write_all f batch rows)
  unfolding write_all
  write_all-All f [] rows hb h = h
  write_all-All f (row ∷ batch) rows hb h =
      write_all-All f batch (write_row (f row) rows) hb.1 (write_row-All (f row) rows hb.0 h)

  deliver_each-All :
      (providers : List NotificationProvider) (rows : List Notification) (table : Table)
      (report : DeliveryReport)
      → All (Markable P now) rows
      → All P table.rows
      → All P (deliver_each providers now rows table report).0.rows
  unfolding deliver_each
  deliver_each-All providers [] table report hm h = h
  deliver_each-All providers (row ∷ rows) table report hm h =
      deliver_each-All providers rows _ _ hm.1
        (write_row-All _ table.rows (deliver-P providers row hm.0) h)

  settle_batch-All :
      (batch : List Notification) (r : Option Text × List Text) (state : Table × DeliveryReport)
      → All (Markable P now) batch
      → All P state.0.rows
      → All P (settle_batch batch now r state).0.rows
  unfolding settle_batch
  settle_batch-All batch (some slug, errors) (table, report) hm h =
      write_all-All (mark_sent slug now) batch table.rows
        (All-mono (Markable P now) (λ row. P (mark_sent slug now row)) batch
          (λ row m. m.as_sent slug) hm)
        h
  settle_batch-All batch (none, errors) (table, report) hm h =
      write_all-All _ batch table.rows
        (All-mono (Markable P now) _ batch (λ row m. m.as_failed _) hm) h

  deliver_slugs-All :
      (providers : List NotificationProvider) (slugs : List Text) (rows : List Notification)
      (state : Table × DeliveryReport)
      → All (Markable P now) rows
      → All P state.0.rows
      → All P (deliver_slugs providers now slugs rows state).0.rows
  unfolding deliver_slugs send_batch
  deliver_slugs-All providers [] [] state hm h = h
  deliver_slugs-All providers (s ∷ ss) [] state hm h = h
  deliver_slugs-All providers [] (row ∷ rest) (table, report) hm h =
      write_all-All _ (row ∷ rest) table.rows
        (All-mono (Markable P now) _ (row ∷ rest) (λ r m. m.as_suppressed _) hm) h
  deliver_slugs-All providers (s ∷ ss) (row ∷ []) (table, report) hm h =
      deliver_each-All providers (row ∷ []) table report hm h
  deliver_slugs-All providers (s ∷ ss) (row ∷ next ∷ rest) state hm h =
      settle_batch-All (row ∷ next ∷ rest) _ state hm h

  abbrev AllBatches : (Notification → Type 0) → List Batch → Type 0
  AllBatches Q batches = All (λ (b : Batch). All Q b.1) batches

  deliver_batches-All :
      (providers : List NotificationProvider) (batches : List Batch)
      (state : Table × DeliveryReport)
      → AllBatches (Markable P now) batches
      → All P state.0.rows
      → All P (deliver_batches providers now batches state).0.rows
  unfolding deliver_batches
  deliver_batches-All providers [] state hm h = h
  deliver_batches-All providers ((key, rows) ∷ batches) state hm h =
      deliver_batches-All providers batches _ hm.1
        (deliver_slugs-All providers key.slugs rows state hm.0 h)

module _ {ℓ} (Q : Notification → Type ℓ) where
  abbrev pub AllIn : List Batch → Type ℓ
  AllIn batches = All (λ (b : Batch). All Q b.1) batches

  add_to_batch-All :
      (key : BatchKey) (row : Notification) (batches : List Batch)
      → Q row
      → AllIn batches
      → AllIn (add_to_batch key row batches)
  unfolding add_to_batch
  add_to_batch-All key row [] h hs = ((h, tt), tt)
  add_to_batch-All key row ((k, rows) ∷ batches) h hs = elim (Bool-cases (same_key k key)) [
    | inl e ↦ rw e (All-append Q rows (row ∷ []) hs.0 (h, tt), hs.1)
    | inr e ↦ rw e (hs.0, add_to_batch-All key row batches h hs.1)
  ]

  pub group_from-All :
      (providers : List NotificationProvider) (rows : List Notification) (batches : List Batch)
      → All Q rows
      → AllIn batches
      → AllIn (group_from providers rows batches)
  unfolding group_from
  group_from-All providers [] batches h hs = hs
  group_from-All providers (row ∷ rows) batches h hs =
      group_from-All providers rows _ h.1 (add_to_batch-All _ row batches h.0 hs)

  take-All : (n : ℕ) (rows : List Notification) → All Q rows → All Q (take n rows)
  take-All zero rows h = tt
  take-All (suc n) [] h = tt
  take-All (suc n) (row ∷ rows) h = (h.0, take-All n rows h.1)

  -- the listed rows are waiting rows of the table
  keep_waiting-All :
      (p : Notification → Bool) (rows : List Notification)
      → All (λ row. is_retryable row ≡ true → Q row) rows
      → All Q (keep (λ row. is_retryable row && p row) rows)
  keep_waiting-All p [] h = tt
  keep_waiting-All p (row ∷ rows) h =
      let rest = keep_waiting-All p rows h.1 in
      elim (Bool-cases (is_retryable row)) [
        | inl e ↦ let now = h.0 e in ground (arith, now, rest)
        | inr e ↦ rw e rest
      ]

  list_retryable-All :
      (limit : ℕ) (product_id : Option ℕ) (table : Table)
      → All (λ row. is_retryable row ≡ true → Q row) table.rows
      → All Q (list_retryable limit product_id table)
  unfolding list_retryable
  list_retryable-All limit product_id table h = take-All limit _ (keep_waiting-All _ table.rows h)

-- The rule: in a pass with or without a digest.
pub deliver_pending-All :
    (P : Notification → Type 0) (providers : List NotificationProvider) (digest_minutes limit : ℕ)
    (product_id : Option ℕ) (now : Time) (table : Table)
    → All P table.rows
    → All (λ row. is_retryable row ≡ true → Markable P now row) table.rows
    → All P (deliver_pending providers digest_minutes limit product_id now table).0.rows
unfolding deliver_pending deliver_digest
deliver_pending-All P providers digest_minutes limit product_id now table h hm =
    go (list_retryable limit product_id table)
      (list_retryable-All (Markable P now) limit product_id table hm)
  where
    go :
        (rows : List Notification)
        → All (Markable P now) rows
        → All P (deliver_rows providers digest_minutes now rows table).0.rows
    go [] hr = h
    go (first ∷ rest) hr = elim (Bool-cases (ltb 0 digest_minutes)) [
      | inr e ↦ rw e (deliver_each-All P now providers (first ∷ rest) table _ hr h)
      | inl e ↦ elim (Bool-cases (ltb now (oldest_of first rest + digest_minutes * 60 * second))) [
        | inl young ↦ rw (e, young) h
        | inr due ↦
            rw (e, due)
              (deliver_batches-All P now providers _ _
                (group_from-All (Markable P now) providers (first ∷ rest) [] hr tt) h)
      ]
    ]
