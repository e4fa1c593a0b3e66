-- ===== src/Rules.antt =====
-- services/rules_engine.py: the evaluators, the engine and the signature of an alert.
pub mod Params
pub mod Firing
pub mod Signature
use mathlib.Core.Option
use product_updates.Decimal.{Decimal, same, below}
use product_updates.Decimal.Written.{written, read_decimal}
use product_updates.Dict.{Dict, get, put}
use product_updates.Domain.Contexts.{
  Time, second, ProductSnapshot, RuleContext, MatchContext, RuleMatch,
}
use product_updates.Domain.Enums.{
  Availability, in_stock, unknown, RuleType, price_changed, price_dropped, price_increased,
  price_below_target, became_available, became_unavailable, same_availability, availability_value,
}
use product_updates.Domain.Results.{Json, null, flag, number, text, is_empty}
use product_updates.Prelude.{
  ℕ, ◌+◌, ◌*◌, zero, Bool, true, false, Text, codes, Option, none, some, List, [], ◌∷◌, ◌++◌, ltb,
  ◌==◌, not, ◌&&◌, ◌||◌, if◌then◌else◌,
}

-- db/models.py `TrackingRule`, less its timestamps
pub record TrackingRule : Type 0 where
  pub id : ℕ
  pub product_id : ℕ
  pub user_id : ℕ
  pub rule_type : RuleType
  pub params : Dict Json
  pub notify_provider : Option Text
  pub enabled : Bool
  pub cooldown_seconds : Option ℕ
  pub last_fired_at : Option Time

-- `_NOT_PURCHASABLE`
unfoldable pub not_purchasable : Availability → Bool
not_purchasable Availability.out_of_stock = true
not_purchasable Availability.unavailable = true
not_purchasable _ = false

-- the key `"target_price"`
abbrev pub target_price_key : Text
target_price_key = codes "target_price"

-- `Decimal(str(raw))` for a value that is not `None`; a flag is no number
unfoldable pub decimal_of : Json → Option (Bool × Decimal)
decimal_of null = none
decimal_of (flag b) = none
decimal_of (number n) = some (false, record { coefficient = n; scale = 0 })
decimal_of (text t) = read_decimal t

-- `target_price_of`; a negative target, which no rule is saved with, is below every price
unfoldable pub target_price_of : TrackingRule → Option (Bool × Decimal)
unfolding decimal_of
target_price_of rule = elim (get rule.params target_price_key) [
  | none ↦ none
  | some raw ↦ decimal_of raw
]

-- `product.name or product.url`
unfoldable pub name_of : RuleContext → Text
name_of ctx = elim ctx.product.name [
  | none ↦ ctx.product.url
  | some name ↦ if is_empty name then ctx.product.url else name
]

-- `_price_match`; `target` is the `extra` of its caller
price_match : TrackingRule → RuleContext → Text → Option Text → RuleMatch
price_match rule ctx title target = record {
  rule_id = rule.id;
  rule_type = rule.rule_type;
  product_id = ctx.product.id;
  title = title;
  context = record {
    previous_price = Option.map written ctx.previous_price;
    current_price = Option.map written ctx.current_price;
    target_price = target;
    previous_availability = none;
    current_availability = none;
    currency = ctx.product.currency;
    url = ctx.product.url;
    notify_provider = rule.notify_provider;
  };
}

-- `_availability_match`
availability_match : TrackingRule → RuleContext → Text → RuleMatch
availability_match rule ctx title = record {
  rule_id = rule.id;
  rule_type = rule.rule_type;
  product_id = ctx.product.id;
  title = title;
  context = record {
    previous_price = none;
    current_price = Option.map written ctx.current_price;
    target_price = none;
    previous_availability = some (availability_value ctx.previous_availability);
    current_availability = some (availability_value ctx.current_availability);
    currency = ctx.product.currency;
    url = ctx.product.url;
    notify_provider = rule.notify_provider;
  };
}

abbrev pub Evaluator : Type 0
Evaluator = TrackingRule → RuleContext → Option RuleMatch

-- The price rules read both prices: `None` if either is missing.
with_prices : RuleContext → (Decimal → Decimal → Option RuleMatch) → Option RuleMatch
with_prices ctx f = elim ctx.previous_price [
  | none ↦ none
  | some previous ↦ elim ctx.current_price [ none ↦ none | some current ↦ f previous current ]
]

evaluate_price_changed : Evaluator
unfolding with_prices
evaluate_price_changed rule ctx = with_prices ctx λ previous current.
    if same current previous
    then none
    else some (
        price_match rule ctx
          (codes "Price "
            ++ ((if below current previous then codes "dropped" else codes "rose")
                ++ (codes ": " ++ name_of ctx)))
          none)

evaluate_price_dropped : Evaluator
unfolding with_prices
evaluate_price_dropped rule ctx = with_prices ctx λ previous current.
    if below current previous
    then some (price_match rule ctx (codes "Price drop: " ++ name_of ctx) none)
    else none

evaluate_price_increased : Evaluator
unfolding with_prices
evaluate_price_increased rule ctx = with_prices ctx λ previous current.
    if below previous current
    then some (price_match rule ctx (codes "Price increase: " ++ name_of ctx) none)
    else none

-- `str(target)`
abbrev written_target : Bool × Decimal → Text
written_target (true, target) = b'-' ∷ written target
written_target (false, target) = written target

-- `current > target`
abbrev pub above_target : Decimal → Bool × Decimal → Bool
above_target current (true, target) =
    not (target.coefficient == 0) || not (current.coefficient == 0)
above_target current (false, target) = below target current

evaluate_price_below_target : Evaluator
unfolding target_price_of
evaluate_price_below_target rule ctx = elim (target_price_of rule) [
  | none ↦ none
  | some target ↦ elim ctx.current_price [
    | none ↦ none
    | some current ↦
        if above_target current target
        then none
        else some (
            price_match rule ctx (codes "Target price reached: " ++ name_of ctx)
              (some (written_target target)))
  ]
]

evaluate_became_available : Evaluator
unfolding not_purchasable
evaluate_became_available rule ctx =
    if not (not_purchasable ctx.previous_availability)
    then none
    else if not (same_availability ctx.current_availability in_stock)
    then none
    else some (availability_match rule ctx (codes "Back in stock: " ++ name_of ctx))

evaluate_became_unavailable : Evaluator
unfolding not_purchasable
evaluate_became_unavailable rule ctx =
    if not (same_availability ctx.previous_availability in_stock)
    then none
    else if not (not_purchasable ctx.current_availability)
    then none
    else some (availability_match rule ctx (codes "Out of stock: " ++ name_of ctx))

-- `RULE_EVALUATORS`: the decorators register one for each type.
unfoldable pub evaluator_of : RuleType → Option Evaluator
unfolding evaluate_price_changed evaluate_price_dropped evaluate_price_increased
    evaluate_price_below_target evaluate_became_available evaluate_became_unavailable price_match
    availability_match
evaluator_of price_changed = some evaluate_price_changed
evaluator_of price_dropped = some evaluate_price_dropped
evaluator_of price_increased = some evaluate_price_increased
evaluator_of price_below_target = some evaluate_price_below_target
evaluator_of became_available = some evaluate_became_available
evaluator_of became_unavailable = some evaluate_became_unavailable

-- `_in_cooldown`
unfoldable pub in_cooldown : TrackingRule → Time → Bool
in_cooldown rule now = elim rule.cooldown_seconds [
  | none ↦ false
  | some cooldown ↦ if cooldown == 0 then false else elim rule.last_fired_at [
    | none ↦ false
    | some fired ↦ ltb now (fired + cooldown * second)
  ]
]

unfoldable pub evaluate : TrackingRule → RuleContext → Time → Option RuleMatch
unfolding in_cooldown
evaluate rule ctx now =
    if not rule.enabled
    then none
    else if in_cooldown rule now
    then none
    else elim (evaluator_of rule.rule_type) [ none ↦ none | some evaluator ↦ evaluator rule ctx ]

unfoldable pub evaluate_all : List TrackingRule → RuleContext → Time → List RuleMatch
evaluate_all [] ctx now = []
evaluate_all (rule ∷ rules) ctx now =
    let rest = evaluate_all rules ctx now in
    elim (evaluate rule ctx now) [ none ↦ rest | some m ↦ m ∷ rest ]

-- `TrackingRuleRepository.mark_fired`
unfoldable pub mark_fired : TrackingRule → Time → TrackingRule
mark_fired rule now = record rule { last_fired_at = some now }

-- an f-string writes `None` as a word
abbrev pub shown : Option Text → Text
shown none = codes "None"
shown (some t) = t

-- `_CHANGE_RULES`
unfoldable pub is_change_rule : RuleType → Bool
is_change_rule price_changed = true
is_change_rule price_dropped = true
is_change_rule price_increased = true
is_change_rule _ = false

abbrev is_target_rule : RuleType → Bool
is_target_rule price_below_target = true
is_target_rule _ = false

signature : RuleType → MatchContext → Text
signature ty c =
    if is_change_rule ty
    then shown c.previous_price ++ (codes "->" ++ shown c.current_price)
    else if is_target_rule ty
    then codes "at:" ++ (shown c.current_price ++ (codes "<=" ++ shown c.target_price))
    else shown c.current_availability

unfoldable pub dedupe_signature : RuleMatch → Text
unfolding signature is_change_rule
dedupe_signature m = signature m.rule_type m.context
