-- ===== src/Tracking/Alerting.antt =====
-- `_evaluate_rules`: the alerts of a check are recorded, and its rules start their cooldown.
use product_updates.Changes.{PriceOutcome, AvailabilityOutcome}
use product_updates.Domain.Contexts.{RuleMatch, Time, RuleContext}
use product_updates.Domain.Enums.{Availability}
use product_updates.Notifications.{Owner, Table}
use product_updates.Notifications.Keys.{record_match}
use product_updates.Prelude.{
  if◌then◌else◌, ◌&&◌, ◌==◌, ◌∷◌, [], suc, some, none, length, is_some, any, Text, ℕ, List, Option,
  keep, map,
}
use product_updates.Rules.{evaluate_all, mark_fired}
use product_updates.Tracking.{Product, TrackingRule, CheckExecution, Database}
use product_updates.Tracking.Recording.{snapshot}

-- `TrackingRuleRepository.list_enabled`, the rules standing in order of their ids
unfoldable pub list_enabled : ℕ → List TrackingRule → List TrackingRule
list_enabled product_id rules = keep (λ rule. (rule.product_id == product_id) && rule.enabled) rules

-- `notification.rule.user`, found through the match's rule
owner_of_user : ℕ → List (ℕ × Owner) → Option Owner
owner_of_user id [] = none
owner_of_user id ((i, owner) ∷ users) = if i == id then some owner else owner_of_user id users

unfoldable pub owner_of_rule : ℕ → List TrackingRule → List (ℕ × Owner) → Option Owner
unfolding owner_of_user
owner_of_rule id [] users = none
owner_of_rule id (rule ∷ rules) users =
    if rule.id == id then owner_of_user rule.user_id users else owner_of_rule id rules users

-- the rules of `rules` that are in `fired`, marked: the loop over `mark_fired`
unfoldable pub mark_all_fired : ℕ → List RuleMatch → Time → List TrackingRule → List TrackingRule
mark_all_fired product_id matches now rules =
    map
      (λ rule.
        if ((rule.product_id == product_id) && rule.enabled)
          && any (λ m. m.rule_id == rule.id) matches
        then mark_fired rule now
        else rule)
      rules

-- the context of the rules
unfoldable pub rule_context : Product → PriceOutcome → AvailabilityOutcome → Time → RuleContext
unfolding snapshot
rule_context product price availability now = record {
  product = snapshot product;
  previous_price = price.previous;
  current_price = elim price.current [ none ↦ product.current_price | some p ↦ some p ];
  previous_availability = elim availability.previous [ none ↦ Availability.unknown | some a ↦ a ];
  current_availability = availability.current;
  observed_at = some now;
}

module _ (digest : Text → Text) (window_seconds : ℕ) where
  -- `NotificationService.record_all`: how many were new
  unfoldable pub record_all : (RuleMatch → Option Owner) → List RuleMatch → Time → Table → ℕ × Table
  record_all owner_of [] when table = (0, table)
  record_all owner_of (m ∷ matches) when table =
      let first = record_match digest window_seconds (owner_of m) m when table in
      let rest = record_all owner_of matches when first.1 in
      ((if is_some first.0 then suc rest.0 else rest.0), rest.1)

  -- The end of `_evaluate_rules`: nothing where there are no matches.
  unfoldable pub record_alerts :
      ℕ → List RuleMatch → Time → CheckExecution → Database → CheckExecution × Database
  record_alerts product_id [] now execution db = (execution, db)
  record_alerts product_id (m ∷ rest) now execution db =
      let matches = m ∷ rest in
      let recorded =
        record_all (λ m. owner_of_rule m.rule_id db.rules db.users) matches now db.notifications in
      (
        record execution { notifications_created = recorded.0 },
        record db {
          notifications = recorded.1;
          rules =
              if recorded.0 == 0 then db.rules else mark_all_fired product_id matches now db.rules;
        },
      )

  -- `_evaluate_rules`; no evaluator raises.
  unfoldable pub evaluate_rules :
      Product
      → PriceOutcome
      → AvailabilityOutcome
      → Time
      → CheckExecution
      → Database
      → CheckExecution × Database
  unfolding record_alerts
  evaluate_rules product price availability now execution db =
      let rules = list_enabled product.id db.rules in
      let matches = evaluate_all rules (rule_context product price availability now) now in
      let counted = record execution {
        rules_evaluated = length rules;
        rules_matched = length matches;
      } in
      record_alerts product.id matches now counted db
