-- ===== src/Rules/Firing.antt =====
-- When rules fire: how the evaluators relate to one another, and what the engine never does.
use mathlib.Core.List.{Sublistᴰ}
use product_updates.Decimal.{Decimal, same, below}
use product_updates.Decimal.Order.{below_trans, below_asym, below_irrefl, trichotomy, same_sym}
use product_updates.Domain.Contexts.{Time, second, RuleContext, RuleMatch}
use product_updates.Domain.Enums.{
  unknown, RuleType, price_changed, price_dropped, price_increased, price_below_target,
  became_available, became_unavailable, same_availability,
}
use product_updates.Prelude.{
  ℕ, ◌+◌, ◌*◌, ◌≤◌, Bool, true, false, Option, none, some, is_some, List, [], ◌∷◌, map, ◌≡◌, refl,
  ◌⊎◌, inl, inr, arith, ltb, ◌||◌, ◌&&◌, if◌then◌else◌, Option-cases, Bool-cases,
}
use product_updates.Rules.{
  TrackingRule, evaluate, evaluate_all, evaluator_of, above_target, target_price_of, mark_fired,
  in_cooldown, not_purchasable,
}

-- the rule with another type
abbrev pub retyped : TrackingRule → RuleType → TrackingRule
retyped rule ty = record rule { rule_type = ty }

abbrev pub fires : TrackingRule → RuleType → RuleContext → Time → Bool
fires rule ty ctx now = is_some (evaluate (retyped rule ty) ctx now)

above_target_mono :
    (p c : Decimal) (t : Bool × Decimal)
    → below p c ≡ true
    → above_target c t ≡ false
    → above_target p t ≡ false
unfolding below
above_target_mono p c (true, t) lt h = ground arith
above_target_mono p c (false, t) lt h = elim (Bool-cases (below t p)) [
  | inl e ↦ absurd (ground (arith, below_trans t p c e lt))
  | inr e ↦ e
]

module _ (rule : TrackingRule) (ctx : RuleContext) (now : Time) where
  -- A change alert fires exactly when a drop alert or an increase alert would, and these two never
  -- fire together.
  pub changed_iff_moved :
      (fires rule price_changed ctx now
        ≡ (fires rule price_dropped ctx now || fires rule price_increased ctx now))
      × ((fires rule price_dropped ctx now && fires rule price_increased ctx now) ≡ false)
  unfolding evaluate evaluator_of
  changed_iff_moved = go ctx.previous_price ctx.current_price refl refl
    where
      go :
          (p c : Option Decimal)
          → ctx.previous_price ≡ p
          → ctx.current_price ≡ c
          → (fires rule price_changed ctx now
              ≡ (fires rule price_dropped ctx now || fires rule price_increased ctx now))
            × ((fires rule price_dropped ctx now && fires rule price_increased ctx now) ≡ false)
      go (some p) (some c) ep ec =
          ground (
            arith,
            trichotomy c p,
            below_asym c p,
            below_irrefl c p,
            below_irrefl p c,
            same_sym c p,
          )
      go none c ep ec = ground arith
      go (some p) none ep ec = ground arith

  -- Where the number of the price and the availability are those of the check before, only a target-price rule
  -- can fire.
  pub no_news-no_alert :
      (m : RuleMatch) (p c : Decimal)
      → ctx.previous_price ≡ some p
      → ctx.current_price ≡ some c
      → same c p ≡ true
      → ctx.previous_availability ≡ ctx.current_availability
      → evaluate rule ctx now ≡ some m
      → rule.rule_type ≡ price_below_target
  unfolding evaluate evaluator_of same_availability not_purchasable
  no_news-no_alert m p c ep ec e ea h =
      ground (arith, below_irrefl c p e, below_irrefl p c (same_sym c p e))

  -- No availability rule fires on a transition from or to an unknown availability.
  pub unknown-silent :
      (ctx.previous_availability ≡ unknown) ⊎ (ctx.current_availability ≡ unknown)
      → (fires rule became_available ctx now ≡ false)
        × (fires rule became_unavailable ctx now ≡ false)
  unfolding evaluate evaluator_of same_availability not_purchasable
  unknown-silent h = ground arith

  -- A rule that fired at `fired` is silent until its whole cooldown has passed, and from that moment on it
  -- is evaluated as if it had none; the clock is not before `fired`.
  cooldown_exact :
      (fired cooldown : ℕ)
      → rule.cooldown_seconds ≡ some cooldown
      → fired ≤ now
      → evaluate (mark_fired rule fired) ctx now ≡ (
          if ltb now (fired + cooldown * second)
          then none
          else evaluate (record rule { cooldown_seconds = none }) ctx now)
  unfolding evaluate in_cooldown mark_fired evaluator_of target_price_of
  cooldown_exact fired cooldown e past = go rule.rule_type refl
    where
      go :
          (ty : RuleType)
          → rule.rule_type ≡ ty
          → evaluate (mark_fired rule fired) ctx now ≡ (
              if ltb now (fired + cooldown * second)
              then none
              else evaluate (record rule { cooldown_seconds = none }) ctx now)
      go price_changed et = ground arith
      go _ et = ground arith

  -- A target alert that fires at one price fires at every lower price.
  pub lower_price-fires :
      (p c : Decimal)
      → ctx.current_price ≡ some c
      → below p c ≡ true
      → fires rule price_below_target ctx now ≡ true
      → fires rule price_below_target (record ctx { current_price = some p }) now ≡ true
  unfolding evaluate evaluator_of
  lower_price-fires p c e lt h = go (target_price_of (retyped rule price_below_target)) refl
    where
      go :
          (o : Option (Bool × Decimal))
          → target_price_of (retyped rule price_below_target) ≡ o
          → fires rule price_below_target (record ctx { current_price = some p }) now ≡ true
      go none et = ground arith
      go (some t) et = ground (arith, above_target_mono p c t lt)

-- An alert names its rule, the rule's type and the product of the context.
pub record Names (rule : TrackingRule) (ctx : RuleContext) (m : RuleMatch) : Type 0 where
  pub of_rule : m.rule_id ≡ rule.id
  pub of_type : m.rule_type ≡ rule.rule_type
  pub of_product : m.product_id ≡ ctx.product.id

pub evaluate-Names :
    (rule : TrackingRule) (ctx : RuleContext) (now : Time) (m : RuleMatch)
    → evaluate rule ctx now ≡ some m
    → Names rule ctx m
unfolding evaluate evaluator_of
evaluate-Names rule ctx now m h = go rule.rule_type refl
  where
    go : (ty : RuleType) → rule.rule_type ≡ ty → Names rule ctx m
    go price_changed et = ground arith
    go _ et = ground arith

-- The alerts of a check stand in the order of its rules, at most one for each rule.
pub evaluate_all-sublist :
    (rules : List TrackingRule) (ctx : RuleContext) (now : Time)
    → Sublistᴰ (map (λ m. m.rule_id) (evaluate_all rules ctx now)) (map (λ r. r.id) rules)
unfolding evaluate_all
evaluate_all-sublist [] ctx now = Sublistᴰ.slnil
evaluate_all-sublist (rule ∷ rules) ctx now = elim (Option-cases (evaluate rule ctx now)) [
  | inl e ↦ rw (e, map) (Sublistᴰ.cons (evaluate_all-sublist rules ctx now))
  | inr (m, e) ↦
      rw (e, map)
        (Sublistᴰ.cons-cons (evaluate-Names rule ctx now m e).of_rule
          (evaluate_all-sublist rules ctx now))
]
