-- ===== src/Tracking/Quiet.antt =====
-- A check that learned nothing does not touch the price and raises no price alert.
use product_updates.Changes.{detect_price_change}
use product_updates.Decimal.Order.{same_refl, below_irrefl}
use product_updates.Domain.Contexts.{RuleContext, Time, RuleMatch}
use product_updates.Domain.Enums.{RuleType, price_changed, price_dropped, price_increased}
use product_updates.Domain.Results.{FetchResult, succeeded}
use product_updates.Prelude.{
  Option, Option-cases, List, suc, All, ◌∷◌, [], ◌∙◌, ap, some, none, arith, inl, inr, Text, ℕ, ◌≡◌,
  refl, false,
}
use product_updates.Rules.{evaluate_all, evaluate, evaluator_of, is_change_rule, TrackingRule}
use product_updates.Rules.Firing.{evaluate-Names}
use product_updates.Tracking.{Product, Database, Decimal}
use product_updates.Tracking.Alerting.{rule_context, list_enabled}
use product_updates.Tracking.Checking.{
  add_execution, price_outcome, availability_outcome, record_check,
}
use product_updates.Tracking.Recording.{settle_product, append_price}
use product_updates.Tracking.Synced.{last_price}
use product_updates.Tracking.Synced.Apart.{append_availability-prices}
use product_updates.Tracking.Synced.Checks.{evaluate_rules-SameTables}

same_price-no_change :
    (rule : TrackingRule) (ctx : RuleContext) (now : Time) (m : RuleMatch)
    → ctx.previous_price ≡ ctx.current_price
    → evaluate rule ctx now ≡ some m
    → is_change_rule m.rule_type ≡ false
unfolding evaluate evaluator_of is_change_rule
same_price-no_change rule ctx now m e h = go rule.rule_type ctx.current_price refl refl
  where
    go :
        (ty : RuleType) (c : Option Decimal)
        → rule.rule_type ≡ ty
        → ctx.current_price ≡ c
        → is_change_rule m.rule_type ≡ false
    go price_changed none et ec = ground arith
    go price_changed (some c) et ec = ground (arith, same_refl c)
    go price_dropped none et ec = ground arith
    go price_dropped (some c) et ec = ground (arith, below_irrefl c c (same_refl c))
    go price_increased none et ec = ground arith
    go price_increased (some c) et ec = ground (arith, below_irrefl c c (same_refl c))
    go _ c et ec = ground (arith, (evaluate-Names rule ctx now m h).of_type)

evaluate_all-no_change :
    (rules : List TrackingRule) (ctx : RuleContext) (now : Time)
    → ctx.previous_price ≡ ctx.current_price
    → All (λ m. is_change_rule m.rule_type ≡ false) (evaluate_all rules ctx now)
unfolding evaluate_all
evaluate_all-no_change [] ctx now e = tt
evaluate_all-no_change (rule ∷ rules) ctx now e = elim (Option-cases (evaluate rule ctx now)) [
  | inl no_alert ↦ rw (no_alert, All) (evaluate_all-no_change rules ctx now e)
  | inr (m, alert) ↦
      rw (alert, All)
        (same_price-no_change rule ctx now m e alert, evaluate_all-no_change rules ctx now e)
]

-- Where the product shows the last price on record, its rules see no movement of it.
failed_check-price :
    (product : Product) (result : FetchResult) (now : Time) (db : Database)
    → succeeded result ≡ false
    → product.current_price ≡ last_price product.id db.prices
    → let ctx =
        rule_context
          (settle_product product result now)
          (price_outcome result product.id db)
          (availability_outcome result product.id db)
          now in
      ctx.previous_price ≡ ctx.current_price
unfolding rule_context settle_product price_outcome detect_price_change
failed_check-price product result now db f shown = elim (Option-cases result.price) [
  | inl e ↦ ground arith
  | inr (p, e) ↦ ground arith
]

failed_check-no_price :
    (product : Product) (result : FetchResult) (now : Time) (id : ℕ) (db : Database)
    → succeeded result ≡ false
    → append_price (price_outcome result product.id db) product result now id db ≡ db
unfolding append_price price_outcome detect_price_change succeeded
failed_check-no_price product result now id db f = elim (Option-cases result.price) [
  | inl e ↦ ground arith
  | inr (p, e) ↦ rw (e, f) refl
]

-- A check that is not a success raises no alert of a change, a drop or an increase of the price, for
-- a product that shows the last price on record.
pub failed_check-no_change :
    (product : Product) (result : FetchResult) (now : Time) (db : Database)
    → succeeded result ≡ false
    → product.current_price ≡ last_price product.id db.prices
    → All
        (λ m. is_change_rule m.rule_type ≡ false)
        (evaluate_all
          (list_enabled product.id db.rules)
          (rule_context
            (settle_product product result now)
            (price_outcome result product.id db)
            (availability_outcome result product.id db)
            now)
          now)
failed_check-no_change product result now db f shown =
    evaluate_all-no_change _ _ now (failed_check-price product result now db f shown)

module _ (digest : Text → Text) (window : ℕ) where
  -- A check that is not a success appends no price, and leaves the price, the currency, the name, the
  -- identifier, the image and the time of the last success of the product as they are; it counts one
  -- more failure.
  failed_check-keeps :
      (product : Product) (result : FetchResult) (started now : Time) (duration attempts : ℕ)
      (db : Database)
      → succeeded result ≡ false
      → let after = record_check digest window product result started now duration attempts db in
        (after.1.prices ≡ db.prices)
        × (settle_product product result now ≡ record product {
          last_checked_at = some now;
          consecutive_failures = suc product.consecutive_failures;
          availability = (settle_product product result now).availability;
        })
  unfolding record_check add_execution settle_product
  failed_check-keeps product result started now duration attempts db f = (
    (evaluate_rules-SameTables digest window _ _ _ now _ _).prices
        ∙ append_availability-prices _ product result now db.next_execution_id _
        ∙ ap (λ (d : Database). d.prices)
            (failed_check-no_price product result now db.next_execution_id db f),
    rw f refl,
  )
