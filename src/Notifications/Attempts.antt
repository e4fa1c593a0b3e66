-- ===== src/Notifications/Attempts.antt =====
-- What a pass of `deliver_pending` never does: exceed the attempts, touch a settled row, or lose one.
use product_updates.Domain.Contexts.{Time}
use product_updates.Notifications.{
  Table, Notification, mark_sent, mark_failed, mark_suppressed, is_retryable, max_delivery_attempts,
}
use product_updates.Notifications.Digest.{deliver_pending}
use product_updates.Notifications.Digest.Frame.{Markable, deliver_pending-All}
use product_updates.Notifications.Sending.{NotificationProvider}
use product_updates.Prelude.{
  ℕ, ◌≤◌, true, false, Option, List, [], ◌∷◌, ◌≡◌, arith, All, All-mono, ap,
}

abbrev pub WithinAttempts : Notification → Type 0
WithinAttempts row = row.attempts ≤ max_delivery_attempts

retryable-Markable :
    (now : Time) (row : Notification) → is_retryable row ≡ true → Markable WithinAttempts now row
unfolding is_retryable mark_sent mark_failed mark_suppressed
retryable-Markable now row h = record {
  as_sent = λ slug. ground arith;
  as_failed = λ error. ground arith;
  as_suppressed = λ reason. ground arith;
}

All-of_all {ℓ κ} : {A : Type ℓ} (P : A → Type κ) (xs : List A) → ((x : A) → P x) → All P xs
All-of_all P [] f = tt
All-of_all P (x ∷ xs) f = (f x, All-of_all P xs f)

module _ (providers : List NotificationProvider) (digest_minutes limit : ℕ) (product_id : Option ℕ)
    (now : Time) (table : Table) where
  -- If every row is within the three attempts before a pass, then every row is so after it, with or
  -- without a digest and whatever the providers answer.
  pub attempts_bounded :
      All WithinAttempts table.rows
      → All WithinAttempts
          (deliver_pending providers digest_minutes limit product_id now table).0.rows
  attempts_bounded h =
      deliver_pending-All WithinAttempts providers digest_minutes limit product_id now table h
        (All-of_all _ table.rows (retryable-Markable now))

  -- An alert that is sent, suppressed or out of attempts stays as it is: if `row` is the only row of
  -- its id, it is still the only one after the pass.
  pub settled_untouched :
      (row : Notification)
      → is_retryable row ≡ false
      → All (λ r. r.id ≡ row.id → r ≡ row) table.rows
      → All
          (λ r. r.id ≡ row.id → r ≡ row)
          (deliver_pending providers digest_minutes limit product_id now table).0.rows
  unfolding mark_sent mark_failed mark_suppressed
  settled_untouched row settled h =
      deliver_pending-All (λ r. r.id ≡ row.id → r ≡ row) providers digest_minutes limit product_id
        now table h
        (All-mono (λ r. r.id ≡ row.id → r ≡ row) _ table.rows
          (λ r only waiting. record {
            as_sent = λ slug e. absurd (clash r only waiting e);
            as_failed = λ error e. absurd (clash r only waiting e);
            as_suppressed = λ reason e. absurd (clash r only waiting e);
          })
          h)
    where
      clash :
          (r : Notification) → (r.id ≡ row.id → r ≡ row) → is_retryable r ≡ true → r.id ≡ row.id → ⊥
      clash r only waiting e = ground (arith, ap is_retryable (only e))
