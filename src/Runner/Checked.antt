-- ===== src/Runner/Checked.antt =====
-- Whose check an execution is.
use product_updates.Changes.{PriceOutcome, AvailabilityOutcome}
use product_updates.Domain.Contexts.{Time, RuleMatch}
use product_updates.Domain.Results.{FetchResult}
use product_updates.Prelude.{
  length, ℕ, Text, List, [], ◌∷◌, Option, some, ◌==◌, ◌≡◌, refl, arith, inl, inr, Bool-cases, ◌∙◌,
}
use product_updates.Tracking.{Product, CheckExecution, Database, find_product}
use product_updates.Rules.{evaluate_all}
use product_updates.Tracking.Recording.{settle_product, append_price, append_availability}
use product_updates.Tracking.Alerting.{list_enabled, rule_context, record_alerts, evaluate_rules}
use product_updates.Tracking.Cases.{check_product-Good}
use product_updates.Tracking.Checking.{
  price_outcome, availability_outcome, CheckGuard, Circumstances, check_product, record_check,
  record_skipped, new_execution, skipped_execution, add_execution,
}

find_product-id :
    (id : ℕ) (ps : List Product) (p : Product) → find_product id ps ≡ some p → p.id ≡ id
unfolding find_product
find_product-id id [] p h = ground arith
find_product-id id (q ∷ ps) p h = elim (Bool-cases (q.id == id)) [
  | inl e ↦ ground (arith, h, e)
  | inr e ↦ find_product-id id ps p (ground (arith, h, e))
]

module _ (digest : Text → Text) (window : ℕ) where
  record_alerts-product_id :
      (id : ℕ) (matches : List RuleMatch) (now : Time) (execution : CheckExecution) (db : Database)
      → (record_alerts digest window id matches now execution db).0.product_id
        ≡ execution.product_id
  unfolding record_alerts
  record_alerts-product_id id [] now execution db = refl
  record_alerts-product_id id (m ∷ matches) now execution db = refl

  evaluate_rules-product_id :
      (product : Product) (price : PriceOutcome) (availability : AvailabilityOutcome) (now : Time)
      (execution : CheckExecution) (db : Database)
      → (evaluate_rules digest window product price availability now execution db).0.product_id
        ≡ execution.product_id
  unfolding evaluate_rules
  evaluate_rules-product_id product price availability now execution db =
      record_alerts-product_id product.id
        (evaluate_all (list_enabled product.id db.rules)
          (rule_context product price availability now) now)
        now
        (record execution {
          rules_evaluated = length (list_enabled product.id db.rules);
          rules_matched = length (
              evaluate_all (list_enabled product.id db.rules)
                (rule_context product price availability now) now);
        })
        db

  record_check-product_id :
      (product : Product) (result : FetchResult) (started now : Time) (duration attempts : ℕ)
      (db : Database)
      → (record_check digest window product result started now duration attempts db).0.product_id
        ≡ product.id
  unfolding record_check add_execution new_execution
  record_check-product_id product result started now duration attempts db =
      let price = price_outcome result product.id db in
      let availability = availability_outcome result product.id db in
      let id = db.next_execution_id in
      evaluate_rules-product_id (settle_product product result now) price availability now
        (new_execution id product result price availability started now duration attempts)
        (append_availability availability product result now id
          (append_price price product result now id db))

  record_skipped-product_id :
      (product : Product) (started now : Time) (reason : Text) (db : Database)
      → (record_skipped product started now reason db).0.product_id ≡ product.id
  unfolding record_skipped skipped_execution add_execution
  record_skipped-product_id product started now reason db = refl

  -- the execution of a check is of the product that was asked for
  pub check_product-product_id :
      {S : Type 0} (max_retries : ℕ) (guard : Option (CheckGuard S)) (now : Circumstances) (id : ℕ)
      (s : S) (db : Database) (done : CheckExecution × (S × Database))
      → check_product digest window max_retries guard now id (s, db) ≡ some done
      → done.0.product_id ≡ id
  check_product-product_id max_retries guard now id s db done =
      check_product-Good digest window max_retries now db (λ d. d.0.product_id ≡ id) guard id s done
        (λ product f.
          record_check-product_id product _ now.started now.finished now.duration_ms _ db
          ∙ find_product-id id db.products product f)
        (λ product reason f.
          record_skipped-product_id product now.started now.finished reason db
          ∙ find_product-id id db.products product f)
