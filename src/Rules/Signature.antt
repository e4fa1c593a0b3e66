-- ===== src/Rules/Signature.antt =====
-- `dedupe_signature`: which alerts count as the same one.
use product_updates.Decimal.{Decimal}
use product_updates.Decimal.Written.{written}
use product_updates.Decimal.Written.Digits.{written-Lacks, written_injective}
use product_updates.Domain.Contexts.{Time, RuleContext, RuleMatch}
use product_updates.Domain.Enums.{
  RuleType, price_changed, price_dropped, price_increased, price_below_target,
}
use product_updates.Prelude.{
  Text, codes, Option, none, some, ◌∷◌, ◌++◌, ◌≡◌, refl, sym, ap, ◌∙◌, arith, true,
}
use product_updates.Prelude.Joins.{split_at_separator}
use product_updates.Rules.{TrackingRule, evaluate, evaluator_of, dedupe_signature, is_change_rule}

-- the signature of a transition
abbrev pub transition : Decimal → Decimal → Text
transition p c = written p ++ (codes "->" ++ written c)

pub change_signature :
    (rule : TrackingRule) (ctx : RuleContext) (now : Time) (m : RuleMatch)
    → is_change_rule rule.rule_type ≡ true
    → evaluate rule ctx now ≡ some m
    → (p : Decimal) × (c : Decimal) × (ctx.previous_price ≡ some p)
      × (ctx.current_price ≡ some c)
      × (dedupe_signature m ≡ transition p c)
unfolding evaluate evaluator_of dedupe_signature
change_signature rule ctx now m ty h =
    go ctx.previous_price ctx.current_price rule.rule_type refl refl refl
  where
    go :
        (p c : Option Decimal) (r : RuleType)
        → ctx.previous_price ≡ p
        → ctx.current_price ≡ c
        → rule.rule_type ≡ r
        → (p : Decimal) × (c : Decimal) × (ctx.previous_price ≡ some p)
          × (ctx.current_price ≡ some c)
          × (dedupe_signature m ≡ transition p c)
    go (some p) (some c) price_changed ep ec er = (p, c, ep, ec, ground arith)
    go (some p) (some c) price_dropped ep ec er = (p, c, ep, ec, ground arith)
    go (some p) (some c) price_increased ep ec er = (p, c, ep, ec, ground arith)
    go none c _ ep ec er = absurd (ground arith)
    go p none _ ep ec er = absurd (ground arith)
    go p c _ ep ec er = absurd (ground arith)

transition_injective :
    (p c p' c' : Decimal) → transition p c ≡ transition p' c' → (p ≡ p') × (c ≡ c')
transition_injective p c p' c' h =
    let (ep, rest) =
      split_at_separator b'-' (written p) (written p') (b'>' ∷ written c) (b'>' ∷ written c')
        (written-Lacks b'-' p (ground arith)) (written-Lacks b'-' p' (ground arith)) h in
    (written_injective p p' ep, written_injective c c' (cc))

-- Two alerts of price-change rules have the same signature only when they report the same
-- transition: the same two prices, as written.
pub change_signature_injective :
    (rule rule' : TrackingRule) (ctx ctx' : RuleContext) (now now' : Time) (m m' : RuleMatch)
    → is_change_rule rule.rule_type ≡ true
    → is_change_rule rule'.rule_type ≡ true
    → evaluate rule ctx now ≡ some m
    → evaluate rule' ctx' now' ≡ some m'
    → dedupe_signature m ≡ dedupe_signature m'
    → (ctx.previous_price ≡ ctx'.previous_price) × (ctx.current_price ≡ ctx'.current_price)
change_signature_injective rule rule' ctx ctx' now now' m m' ty ty' h h' e =
    let (p, c, ep, ec, s) = change_signature rule ctx now m ty h in
    let (p', c', ep', ec', s') = change_signature rule' ctx' now' m' ty' h' in
    let (pp, cc') = transition_injective p c p' c' (sym s ∙ e ∙ s') in
    (ep ∙ ap some pp ∙ sym ep', ec ∙ ap some cc' ∙ sym ec')

-- Two alerts of one target-price rule have the same signature when the price is the same, however
-- the price came about.
pub target_signature :
    (rule : TrackingRule) (ctx ctx' : RuleContext) (now now' : Time) (m m' : RuleMatch)
    → rule.rule_type ≡ price_below_target
    → ctx.current_price ≡ ctx'.current_price
    → evaluate rule ctx now ≡ some m
    → evaluate rule ctx' now' ≡ some m'
    → dedupe_signature m ≡ dedupe_signature m'
unfolding evaluate evaluator_of dedupe_signature
target_signature rule ctx ctx' now now' m m' ty e h h' = ground arith
