-- ===== src/Comparison/AfterCheck.antt =====
-- What the grid shows of a product right after a check of it.
use mathlib.Core.Path.{subst}
use product_updates.Changes.{PriceOutcome, AvailabilityOutcome}
use product_updates.Comparison.{Listing, cell_for_product}
use product_updates.Comparison.Fresh.{is_fresh, fresh_iff}
use product_updates.Comparison.Grid.{
  last_execution, last_check_of, load_grid, Catalogue, Group, cell_of, previous_price_of,
}
use product_updates.Domain.Contexts.{RuleMatch, Time}
use product_updates.Domain.Enums.{CheckStatus}
use product_updates.Domain.Results.{FetchResult}
use product_updates.Prelude.{
  ◌≡◌, ◌<◌, ◌≤◌, ◌∙◌, sym, ap, refl, false, some, none, Option, List, [], ◌∷◌, ◌++◌, All, Text, ℕ,
  arith, Bool-cases, inl, inr, All-mono, Bool, ◌==◌,
}
use product_updates.Tracking.{Product, CheckExecution, Database, find_product}
use product_updates.Tracking.Alerting.{record_alerts, evaluate_rules}
use product_updates.Tracking.Cases.{check_product-Good}
use product_updates.Tracking.Checking.{
  CheckGuard, Circumstances, check_product, record_check, record_skipped, new_execution,
  add_execution, price_outcome, availability_outcome, skipped_execution, stored_execution,
}
use product_updates.Tracking.History.{latest_row-append}
use product_updates.Tracking.Recording.{
  append_price, append_availability, settle_product, is_success_status,
}
use product_updates.Tracking.Synced.Apart.{append_price-executions, append_availability-executions}
use product_updates.Tracking.Synced.Checks.{evaluate_rules-SameTables}

-- the row that names the check
record IsRowOf (id product_id : ℕ) (started : Time) (e : CheckExecution) : Type 0 where
  id_is : e.id ≡ id
  product_is : e.product_id ≡ product_id
  started_is : e.started_at ≡ started

-- The check added the row that names it, as the last one.
record AddsRow (product_id : ℕ) (started : Time) (db : Database) (e : CheckExecution)
    (after : Database) : Type 0 where
  row : IsRowOf db.next_execution_id product_id started e
  added : after.executions ≡ db.executions ++ stored_execution e ∷ []

record_alerts-IsRowOf :
    (digest : Text → Text) (window product_id : ℕ) (matches : List RuleMatch) (now : Time)
    (e : CheckExecution) (db : Database) (i p : ℕ) (t : Time)
    → IsRowOf i p t e
    → IsRowOf i p t (record_alerts digest window product_id matches now e db).0
unfolding record_alerts
record_alerts-IsRowOf digest window product_id [] now e db i p t h = h
record_alerts-IsRowOf digest window product_id (m ∷ matches) now e db i p t h = record {
  id_is = h.id_is;
  product_is = h.product_is;
  started_is = h.started_is;
}

evaluate_rules-IsRowOf :
    (digest : Text → Text) (window : ℕ) (product : Product) (price : PriceOutcome)
    (availability : AvailabilityOutcome) (now : Time) (e : CheckExecution) (db : Database) (i p : ℕ)
    (t : Time)
    → IsRowOf i p t e
    → IsRowOf i p t (evaluate_rules digest window product price availability now e db).0
unfolding evaluate_rules
evaluate_rules-IsRowOf digest window product price availability now e db i p t h =
    record_alerts-IsRowOf digest window product.id _ now _ db i p t
      (record { id_is = h.id_is; product_is = h.product_is; started_is = h.started_is })

module _ (digest : Text → Text) (window : ℕ) where
  record_check-AddsRow :
      (product : Product) (result : FetchResult) (started now : Time) (duration attempts : ℕ)
      (db : Database)
      → let done = record_check digest window product result started now duration attempts db in
        AddsRow product.id started db done.0 done.1
  unfolding record_check add_execution new_execution
  record_check-AddsRow product result started now duration attempts db =
      let price = price_outcome result product.id db in
      let availability = availability_outcome result product.id db in
      let id = db.next_execution_id in
      let with_price = append_price price product result now id db in
      let with_history = append_availability availability product result now id with_price in
      let execution =
        new_execution id product result price availability started now duration attempts in
      let checked = settle_product product result now in
      let last =
        evaluate_rules digest window checked price availability now execution with_history in
      let same =
        evaluate_rules-SameTables digest window checked price availability now execution
          with_history in
      let executions =
        same.executions
        ∙ append_availability-executions availability product result now id with_price
        ∙ append_price-executions price product result now id db in
      record {
        row =
            evaluate_rules-IsRowOf digest window checked price availability now execution
              with_history id product.id started
              (record { id_is = refl; product_is = refl; started_is = refl });
        added = ap (λ (es : List CheckExecution). es ++ stored_execution last.0 ∷ []) executions;
      }

  record_skipped-AddsRow :
      (product : Product) (started now : Time) (reason : Text) (db : Database)
      → let done = record_skipped product started now reason db in
        AddsRow product.id started db done.0 done.1
  unfolding record_skipped add_execution skipped_execution
  record_skipped-AddsRow product started now reason db = record {
    row = record { id_is = refl; product_is = refl; started_is = refl };
    added = refl;
  }

find_product-id :
    (id : ℕ) (products : List Product) (p : Product) → find_product id products ≡ some p → p.id ≡ id
unfolding find_product
find_product-id id [] p h = ground arith
find_product-id id (q ∷ products) p h = elim (Bool-cases (q.id == id)) [
  | inl e ↦ ground arith
  | inr e ↦ find_product-id id products p (ground arith)
]

-- every check on record started before, and has a smaller id than the next one
abbrev pub StartedBefore : Time → Database → Type 0
StartedBefore started db =
    All (λ e. e.started_at ≤ started × e.id < db.next_execution_id) db.executions

AddsRow-last_execution :
    (product_id : ℕ) (started : Time) (db : Database) (e : CheckExecution) (after : Database)
    → StartedBefore started db
    → AddsRow product_id started db e after
    → last_execution after.executions product_id ≡ some (stored_execution e)
unfolding last_execution stored_execution
AddsRow-last_execution product_id started db e after earlier h =
    let ids = h.row.id_is in
    let starts = h.row.started_is in
    let older : All (λ r. r.started_at ≤ e.started_at × r.id < e.id) db.executions =
      All-mono _ _ db.executions (λ r (t, i). (ground arith, ground arith)) earlier in
    rw (h.added) (
      subst
        (λ (p : ℕ).
          last_execution (db.executions ++ stored_execution e ∷ []) p ≡ some (stored_execution e))
        h.row.product_is
        (latest_row-append (λ r. r.product_id) (λ r. r.started_at) (λ r. r.id) db.executions
          (stored_execution e) older))

AddsRow-renamed :
    (i j : ℕ) (started : Time) (db : Database) (e : CheckExecution) (after : Database)
    → i ≡ j
    → AddsRow i started db e after
    → AddsRow j started db e after
AddsRow-renamed i j started db e after same h =
    subst (λ (k : ℕ). AddsRow k started db e after) same h

module _ {S : Type 0} (digest : Text → Text) (window max_retries : ℕ)
    (guard : Option (CheckGuard S)) (now : Circumstances) (product_id : ℕ) (s : S) (db : Database)
    (done : CheckExecution × (S × Database)) where
  check_product-last_execution :
      StartedBefore now.started db
      → check_product digest window max_retries guard now product_id (s, db) ≡ some done
      → last_execution done.1.1.executions product_id ≡ some (stored_execution done.0)
  check_product-last_execution earlier h =
      AddsRow-last_execution product_id now.started db done.0 done.1.1 earlier (
        check_product-Good digest window max_retries now db
          (λ d. AddsRow product_id now.started db d.0 d.1) guard product_id s done
          (λ product f.
            AddsRow-renamed product.id product_id now.started db _ _
              (find_product-id product_id _ product f)
              (record_check-AddsRow digest window product _ now.started now.finished now.duration_ms
                _ db))
          (λ product reason f.
            AddsRow-renamed product.id product_id now.started db _ _
              (find_product-id product_id _ product f)
              (record_skipped-AddsRow digest window product now.started now.finished reason db))
          h)

  -- After a check that is not a success, be it failed, partial or skipped, the grid does not show
  -- the product's price as current, whatever price is on record and however recent the check is.
  -- The checks on record are taken to have started before, with smaller ids.
  pub failed_check-not_fresh :
      (collation : Text → Text → Bool) (catalogue : Catalogue) (group : Group) (limit moment : Time)
      (listing : Listing)
      → StartedBefore now.started db
      → check_product digest window max_retries guard now product_id (s, db) ≡ some done
      → is_success_status done.0.status ≡ false
      → listing.product.id ≡ product_id
      → let grid = load_grid collation catalogue done.1.1 group in
        is_fresh (cell_of grid limit moment (some listing)) ≡ false
  unfolding load_grid cell_of last_check_of stored_execution
  failed_check-not_fresh collation catalogue group limit moment listing earlier h failed same =
      let previous = previous_price_of done.1.1.prices listing.product.id in
      let check = last_check_of (last_execution done.1.1.executions listing.product.id) in
      let last : check ≡ some (done.0.status, done.0.error_type) =
        rw (same, check_product-last_execution earlier h) refl in
      elim (Bool-cases (is_fresh (cell_for_product listing.product previous check limit moment))) [
        | inl fresh ↦ absurd (
            let status : some (done.0.status, done.0.error_type)
                ≡ some (CheckStatus.success, none) =
              sym last
              ∙ ((fresh_iff listing.product previous check limit moment).0 fresh).succeeded in
            ground (arith, status))
        | inr stale ↦ stale
      ]
