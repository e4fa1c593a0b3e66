-- ===== src/Examples/Passes.antt =====
-- Passes over all products, and what a check adds to the alerts.
use product_updates.Claims.{Claim}
use product_updates.Examples.Data.{tables, circumstances, email}
use product_updates.Prelude.{some, none, codes, [], ◌∷◌, ◌≡◌, ℕ, List, take}
use product_updates.Runner.{
  RunSettings, Visit, Tables, CheckAllSummary, run_all_checks, schedulable_ids,
}
use product_updates.Runner.Sweep.{IsPassed, run_all_checks_complete}
use product_updates.Tracking.Synced.{Synced}

abbrev settings : RunSettings
settings = record {
  hash = λ t. t;
  dedupe_window_seconds = 86400;
  max_retries = 3;
  digest_minutes = 0;
  providers = email ∷ [];
}

abbrev visits : ℕ → Visit
visits i = record { claimed_at = 7; check = circumstances }

abbrev unclaimed_phone : List Claim
unclaimed_phone = record { product_id = 7; claimed_at = none; claimed_by = none } ∷ []

-- the pass, and that it came to its end
abbrev completed :
    (r : CheckAllSummary × Tables) × ((run_all_checks settings
          (codes "a")
          visits
          9
          100
          (unclaimed_phone, tables)
        ≡ some r)
      × IsPassed visits (take 100 (schedulable_ids tables.products)) unclaimed_phone r.0)
completed =
    run_all_checks_complete settings (codes "a") visits 9 100 unclaimed_phone tables (tt, tt)
