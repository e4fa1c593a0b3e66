-- ===== src/Notifications/Digest/Privacy.antt =====
-- A digest widens nobody's view: the alerts of one batch have one destination, and grouping loses
-- no alert and invents none.
use mathlib.Core.List.Perm
use mathlib.Core.List.{perm_middle, Perm, append-nil, append_assoc}
use product_updates.Dict.{Dict}
use product_updates.Notifications.{Notification}
use product_updates.Notifications.Digest.{
  Batch, BatchKey, same_key, key_of, add_to_batch, group_from, digest_message, providers_for,
}
use product_updates.Notifications.Sending.{NotificationProvider, recipients_for, providers_for}
use product_updates.Prelude.{List, [], ◌∷◌, ◌++◌, ◌≡◌, refl, All, Bool-cases, inl, inr, map}

module _ (providers : List NotificationProvider) where
  -- every row of the batch has the batch's key
  abbrev pub HasKey : Batch → Type 0
  HasKey b = All (λ row. key_of providers row ≡ b.0) b.1

abbrev pub rows_of : List Batch → List Notification
rows_of [] = []
rows_of ((key, rows) ∷ batches) = rows ++ rows_of batches

add_to_batch-perm :
    (key : BatchKey) (row : Notification) (batches : List Batch)
    → Perm (rows_of (add_to_batch key row batches)) (row ∷ rows_of batches)
unfolding add_to_batch
add_to_batch-perm key row [] = Perm.refl (row ∷ [])
add_to_batch-perm key row ((k, rows) ∷ batches) = elim (Bool-cases (same_key k key)) [
  | inl e ↦ rw (e, rows_of) (rw append_assoc (perm_middle rows (rows_of batches)))
  | inr e ↦
      rw (e, rows_of)
        (Perm.trans (Perm.append (Perm.refl rows) (add_to_batch-perm key row batches))
          (perm_middle rows (rows_of batches)))
]

group_from-perm :
    (providers : List NotificationProvider) (rows : List Notification) (batches : List Batch)
    → Perm (rows_of (group_from providers rows batches)) (rows_of batches ++ rows)
unfolding group_from
group_from-perm providers [] batches = rw append-nil (Perm.refl (rows_of batches))
group_from-perm providers (row ∷ rows) batches =
    Perm.trans (group_from-perm providers rows (add_to_batch (key_of providers row) row batches)) (
      Perm.trans
        (Perm.append (add_to_batch-perm (key_of providers row) row batches) (Perm.refl rows))
        (Perm.symm (perm_middle (rows_of batches) rows)))

-- The batches together hold each waiting alert once.
pub batches_partition :
    (providers : List NotificationProvider) (rows : List Notification)
    → Perm (rows_of (group_from providers rows [])) rows
batches_partition providers rows = group_from-perm providers rows []

-- The message of a batch and its channels are those of each of its alerts.
pub IsPrivate : List NotificationProvider → Batch → Type 0
unfolding digest_message
IsPrivate providers (key, []) = Unit
IsPrivate providers (key, first ∷ rest) =
    All
      (λ row.
        ((digest_message first rest).recipients ≡ recipients_for row)
        × (key.slugs ≡ map (λ p. p.slug) (providers_for providers row)))
      (first ∷ rest)
