-- ===== src/Runner.antt =====
-- services/check_runner.py: a check followed by the delivery of its alerts, and the pass over all
-- products. The claims on the products are kept beside their other columns.
pub mod Checked
pub mod Open
pub mod Sweep
pub mod Synced
use mathlib.Core.Option
use product_updates.Claims.{Claim, claim, release, default_lease_seconds}
use product_updates.Decimal.Written.{written}
use product_updates.Domain.Contexts.{Time}
use product_updates.Domain.Enums.{
  Availability, CheckStatus, FetchMethod, TrackingStatus, active, paused,
}
use product_updates.Notifications.Digest.{deliver_pending}
use product_updates.Notifications.Sending.{NotificationProvider, DeliveryReport, empty_report}
use product_updates.Prelude.{
  ℕ, suc, ◌+◌, if◌then◌else◌, ◌==◌, ◌||◌, not, some, none, List, [], ◌∷◌, Text, Bool, true, false,
  Option, map, keep, take, length,
}
use product_updates.Tracking.{Product, CheckExecution, Database}
use product_updates.Tracking.Checking.{CheckGuard, Circumstances, check_product}

pub record CheckOutcome : Type 0 where
  pub execution_id : ℕ
  pub product_id : ℕ
  pub status : CheckStatus
  pub fetch_method : FetchMethod
  pub availability : Option Availability
  pub price : Option Text
  pub currency : Option Text
  pub duration_ms : ℕ
  pub attempts : ℕ
  pub error_type : Option Text
  pub error_detail : Option Text
  pub notifications_created : ℕ
  pub notifications_sent : ℕ

-- `CheckOutcome.from_execution`
unfoldable pub outcome_of : CheckExecution → CheckOutcome
outcome_of e = record {
  execution_id = e.id;
  product_id = e.product_id;
  status = e.status;
  fetch_method = e.fetch_method;
  availability = e.availability_result;
  price = Option.map written e.extracted_price;
  currency = e.extracted_currency;
  duration_ms = e.duration_ms;
  attempts = e.attempts;
  error_type = e.error_type;
  error_detail = e.error_detail;
  notifications_created = e.notifications_created;
  notifications_sent = 0;
}

-- `CheckAllSummary`
pub record CheckAllSummary : Type 0 where
  pub outcomes : List CheckOutcome
  pub skipped : ℕ
  pub delivery : DeliveryReport

abbrev is_active : TrackingStatus → Bool
is_active active = true
is_active paused = false

-- the ids of `list_schedulable`, the products standing in order of their ids
unfoldable pub schedulable_ids : List Product → List ℕ
schedulable_ids products = map (λ p. p.id) (keep (λ p. is_active p.tracking_status) products)

-- the settings that a run reads, the hash of hashlib and the providers
pub record RunSettings : Type 0 where
  pub hash : Text → Text
  pub dedupe_window_seconds : ℕ
  pub max_retries : ℕ
  pub digest_minutes : ℕ
  pub providers : List NotificationProvider

-- `deliver_pending`, in its own transaction
unfoldable pub deliver_all :
    RunSettings → ℕ → Option ℕ → Time → Database → DeliveryReport × Database
deliver_all settings limit product_id now db =
    let done =
      deliver_pending settings.providers settings.digest_minutes limit product_id now
        db.notifications in
    (done.1, record db { notifications = done.0 })

-- the second half of `run_check`
unfoldable pub deliver_own :
    RunSettings → Bool → Time → ℕ → CheckExecution → Database → CheckOutcome × Database
unfolding deliver_all
deliver_own settings deliver now product_id execution db =
    let outcome = outcome_of execution in
    let done = deliver_all settings 50 (some product_id) now db in
    if not deliver || (execution.notifications_created == 0)
    then (outcome, db)
    else (record outcome { notifications_sent = done.0.sent }, done.1)

-- `run_check`
unfoldable pub run_check :
    {S : Type 0}
    → RunSettings
    → Option (CheckGuard S)
    → Bool
    → Circumstances
    → Time
    → ℕ
    → S × Database
    → Option (CheckOutcome × (S × Database))
unfolding deliver_own
run_check settings guard deliver now later product_id state =
    elim (check_product settings.hash settings.dedupe_window_seconds settings.max_retries guard now
      product_id state) [
        | none ↦ none
        | some (execution, (s, db)) ↦
            let done = deliver_own settings deliver later product_id execution db in
            some (done.0, (s, done.1))
      ]

-- what the pass meets at a product: the time of its claim and the circumstances of its check
pub record Visit : Type 0 where
  pub claimed_at : Time
  pub check : Circumstances

-- The tables and the claims.
abbrev pub Tables : Type 0
Tables = List Claim × Database

abbrev pub no_guard : Option (CheckGuard ℕ)
no_guard = none

-- a check whose claim was granted, and the release of the claim
unfoldable pub checked_and_released :
    RunSettings → Text → Visit → ℕ → Tables → Option (CheckOutcome × Tables)
unfolding run_check
checked_and_released settings worker visit product_id (claims, db) =
    elim (run_check settings no_guard false visit.check 0 product_id (0, db)) [
      | none ↦ none
      | some (outcome, (s, db')) ↦ some (outcome, (release product_id worker claims, db'))
    ]

-- The loop: the outcomes and the number of products that another worker held; `visits i` is the i-th
-- product from here.
unfoldable pub sweep :
    RunSettings → Text → (ℕ → Visit) → List ℕ → Tables → Option ((List CheckOutcome × ℕ) × Tables)
unfolding checked_and_released
sweep settings worker visits [] tables = some (([], 0), tables)
sweep settings worker visits (id ∷ ids) (claims, db) =
    let visit = visits 0 in
    let taken = claim id worker default_lease_seconds visit.claimed_at claims in
    let skipped = sweep settings worker (λ i. visits (suc i)) ids (taken.1, db) in
    if taken.0
    then (elim (checked_and_released settings worker visit id (taken.1, db)) [
      | none ↦ none
      | some (outcome, tables) ↦
          Option.map (λ rest. ((outcome ∷ rest.0.0, rest.0.1), rest.1))
            (sweep settings worker (λ i. visits (suc i)) ids tables)
    ])
    else Option.map (λ rest. ((rest.0.0, suc rest.0.1), rest.1)) skipped

-- `run_all_checks`
unfoldable pub run_all_checks :
    RunSettings → Text → (ℕ → Visit) → Time → ℕ → Tables → Option (CheckAllSummary × Tables)
unfolding deliver_all
run_all_checks settings worker visits later limit tables =
    let ids = take limit (schedulable_ids tables.1.products) in
    elim (sweep settings worker visits ids tables) [
      | none ↦ none
      | some ((outcomes, skipped), (claims, db)) ↦
          let done = deliver_all settings 50 none later db in
          some
            (record { outcomes = outcomes; skipped = skipped; delivery = done.0 }, (claims, done.1))
    ]
