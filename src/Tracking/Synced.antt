-- ===== src/Tracking/Synced.antt =====
-- What the products show agrees with the histories, and every check keeps it so.
pub mod Prices
pub mod Availabilities
pub mod Apart
pub mod Checks
pub mod Step
use mathlib.Core.Option
use product_updates.Changes.{
  PriceOutcome, AvailabilityOutcome, detect_price_change, detect_availability_change,
}
use product_updates.Decimal.{to_money}
use product_updates.Decimal.Money.{to_money-same, scale-to_money}
use product_updates.Decimal.Order.{same_refl}
use product_updates.Domain.Contexts.{Time, RuleMatch}
use product_updates.Domain.Enums.{Availability, eq_of_same_availability, unknown}
use product_updates.Domain.Results.{FetchResult, succeeded, retracts}
use product_updates.Prelude.{
  if◌then◌else◌, ◌&&◌, ◌||◌, ◌==◌, ◌++◌, ◌∷◌, [], suc, some, none, arith, refl, ◌≡◌, ◌∙◌, inl, inr,
  ℕ, List, All, Text, ◌≤◌, Option, ◌<◌, ap, Option-cases, All-mono, Bool-cases, sym, true,
}
use product_updates.Rules.{evaluate_all}
use product_updates.Tracking.{Database, PriceRow, AvailabilityRow, Product, Decimal, CheckExecution}
use product_updates.Tracking.Alerting.{evaluate_rules, list_enabled, rule_context, record_alerts}
use product_updates.Tracking.Checking.{price_outcome, stored, availability_outcome}
use product_updates.Tracking.History.{
  latest_row-All, latest_row, latest_row-append, latest_row-other,
}
use product_updates.Tracking.Recording.{
  latest_availability, latest_price, settle_product, append_price, apply_result,
  append_availability, record_availability, record_price,
}

-- A row was written before, with an id that the sequence has given out.
abbrev pub Written : Time → ℕ → Time → ℕ → Type 0
Written clock next observed_at id = observed_at ≤ clock × id < next

abbrev pub PriceRows : Time → Database → Type 0
PriceRows clock db =
    All (λ r. Written clock db.next_price_id r.observed_at r.id × (r.price.scale ≡ 2)) db.prices

abbrev pub AvailabilityRows : Time → Database → Type 0
AvailabilityRows clock db =
    All (λ r. Written clock db.next_availability_id r.observed_at r.id) db.availabilities

abbrev pub last_price : ℕ → List PriceRow → Option Decimal
last_price product_id rows = Option.map (λ r. r.price) (latest_price product_id rows)

-- the availability on record, `UNKNOWN` where there is none
abbrev pub last_availability : ℕ → List AvailabilityRow → Availability
last_availability product_id rows = elim (latest_availability product_id rows) [
  | none ↦ Availability.unknown
  | some r ↦ r.availability
]

-- Every product shows the last price and the last availability of its histories.
abbrev pub Shown : List PriceRow → List AvailabilityRow → Product → Type 0
Shown prices availabilities p =
    (p.current_price ≡ last_price p.id prices)
    × (p.availability ≡ last_availability p.id availabilities)

pub record Synced (clock : Time) (db : Database) : Type 0 where
  pub price_rows : PriceRows clock db
  pub availability_rows : AvailabilityRows clock db
  pub shown : All (Shown db.prices db.availabilities) db.products

-- What the rules and the alerts leave alone.
pub record SameTables (db db' : Database) : Type 0 where
  pub products : db'.products ≡ db.products
  pub prices : db'.prices ≡ db.prices
  pub availabilities : db'.availabilities ≡ db.availabilities
  pub next_price_id : db'.next_price_id ≡ db.next_price_id
  pub next_availability_id : db'.next_availability_id ≡ db.next_availability_id
  pub executions : db'.executions ≡ db.executions
