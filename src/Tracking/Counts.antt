-- ===== src/Tracking/Counts.antt =====
-- The alerts that a check reports, and the rows that it adds.
use product_updates.Domain.Contexts.{Time, RuleMatch}
use product_updates.Notifications.{Table, has_key}
use product_updates.Notifications.Keys.{build_dedupe_key}
use product_updates.Notifications.Uniqueness.{UniqueKeys}
use product_updates.Prelude.{any, ◌||◌, text_eq, ℕ, ◌+◌, List, Text, length, ◌≡◌}
use product_updates.Tracking.{CheckExecution, Database}

abbrev pub rows_in : Table → ℕ
rows_in table = length table.rows

module _ (digest : Text → Text) (window : ℕ) where
  -- What recording matches makes of the table: the rows that it counts, and no others; the keys of
  -- the matches beside those before, each once.
  pub record IsAdded (matches : List RuleMatch) (when : Time) (before after : Table) (created : ℕ)
      : Type 0 where
    pub count : rows_in after ≡ rows_in before + created
    pub keys :
        (key : Text)
        → has_key key after.rows ≡ (
            has_key key before.rows
            || any (λ m. text_eq (build_dedupe_key digest m when window) key) matches)
    pub unique : UniqueKeys after.rows

  -- the alerts of a check, by its execution
  pub IsReported : Time → Table → CheckExecution × Database → Type 0
  IsReported when before done =
      (matches : List RuleMatch) × ((length matches ≡ done.0.rules_matched)
        × IsAdded matches when before done.1.notifications done.0.notifications_created)
