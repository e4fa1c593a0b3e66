-- ===== src/Runner/Synced.antt =====
-- A pass over all products keeps them in step with their histories.
use mathlib.Core.Option
use product_updates.Domain.Contexts.{Time}
use product_updates.Prelude.{ℕ, some, none, List, Text, Option}
use product_updates.Runner.{RunSettings, CheckOutcome, Tables}
use product_updates.Tracking.Synced.{Synced}

-- What holds of the result, if there is one.
abbrev After {ℓ} : {A : Type ℓ} → (A → Type 0) → Option A → Type 0
After P none = Unit
After P (some x) = P x

module _ (settings : RunSettings) (worker : Text) (end : Time) where
  abbrev SyncedAfter : (List CheckOutcome × ℕ) × Tables → Type 0
  SyncedAfter r = Synced end r.1.1
