-- ===== src/Rules/Params.antt =====
-- `validate_params`: a rule is saved only with parameters that its evaluator can read.
use product_updates.Decimal.{Decimal}
use product_updates.Decimal.Written.{written}
use product_updates.Decimal.Written.Reading.{read_decimal-written}
use product_updates.Dict.{Dict, get, put, get-put_self, put-put_self}
use product_updates.Domain.Enums.{RuleType, price_below_target}
use product_updates.Domain.Results.{Json, text}
use product_updates.Prelude.{
  Bool, true, false, Option, none, some, ◌==◌, if◌then◌else◌, ◌≡◌, arith, ◌<◌, ap, refl, Text, ◌∙◌,
}
use product_updates.Rules.{target_price_key, decimal_of, target_price_of, TrackingRule}

-- the messages of its `ValidationError`
pub data ParamsError : Type 0 where
  target_missing target_not_a_number target_not_positive : ParamsError

pub data Validated : Type 0 where
  valid : Dict Json → Validated
  invalid : ParamsError → Validated

validate_target : Dict Json → Option (Bool × Decimal) → Validated
validate_target params none = invalid target_not_a_number
validate_target params (some (true, target)) = invalid target_not_positive
validate_target params (some (false, target)) =
    if target.coefficient == 0
    then invalid target_not_positive
    else valid (put params target_price_key (text (written target)))

unfoldable pub validate_params : RuleType → Dict Json → Validated
unfolding validate_target decimal_of
validate_params price_below_target params = elim (get params target_price_key) [
  | none ↦ invalid target_missing
  | some Json.null ↦ invalid target_missing
  | some raw ↦ validate_target params (decimal_of raw)
]
validate_params _ params = valid params

-- An accepted target is a positive number, stored in the form that `str` gives it.
StoredTarget : Dict Json → Dict Json → Type 0
StoredTarget params params' =
    (t : Decimal) × (params' ≡ put params target_price_key (text (written t))) × (0 < t.coefficient)

validate_target-StoredTarget :
    (params params' : Dict Json) (o : Option (Bool × Decimal))
    → validate_target params o ≡ valid params'
    → StoredTarget params params'
unfolding validate_target StoredTarget
validate_target-StoredTarget params params' none h = cc
validate_target-StoredTarget params params' (some (true, t)) h = cc
validate_target-StoredTarget params params' (some (false, t)) h = (t, ground arith, ground arith)

validate_params-StoredTarget :
    (params params' : Dict Json)
    → validate_params price_below_target params ≡ valid params'
    → StoredTarget params params'
unfolding validate_params
validate_params-StoredTarget params params' h = go (get params target_price_key) refl
  where
    go : (o : Option Json) → get params target_price_key ≡ o → StoredTarget params params'
    go none e = absurd (ground arith)
    go (some Json.null) e = absurd (ground arith)
    go (some (Json.flag b)) e = absurd (ground arith)
    go (some (Json.number n)) e =
        validate_target-StoredTarget params params' (decimal_of (Json.number n)) (ground arith)
    go (some (text t)) e =
        validate_target-StoredTarget params params' (decimal_of (text t)) (ground arith)

decimal_of-written : (t : Decimal) → decimal_of (text (written t)) ≡ some (false, t)
unfolding decimal_of
decimal_of-written t = read_decimal-written t

target_price_of-get :
    (rule : TrackingRule) (raw : Json)
    → get rule.params target_price_key ≡ some raw
    → target_price_of rule ≡ decimal_of raw
unfolding target_price_of
target_price_of-get rule raw h = ground arith

validate_params-get :
    (params : Dict Json) (raw : Text)
    → get params target_price_key ≡ some (text raw)
    → validate_params price_below_target params ≡ validate_target params (decimal_of (text raw))
unfolding validate_params
validate_params-get params raw h = ground arith

-- A rule saved with the parameters that `validate_params` accepts for a target-price rule has a
-- target that its evaluator reads back, and the target is a positive number.
pub validate_params-usable :
    (params params' : Dict Json) (rule : TrackingRule)
    → validate_params price_below_target params ≡ valid params'
    → rule.params ≡ params'
    → (t : Decimal) × (target_price_of rule ≡ some (false, t)) × (0 < t.coefficient)
unfolding StoredTarget
validate_params-usable params params' rule h e =
    let (t, put_e, pos) = validate_params-StoredTarget params params' h in
    (
      t,
      target_price_of-get rule (text (written t))
            (ap (λ d. get d target_price_key) (e ∙ put_e) ∙ get-put_self params _ _)
          ∙ decimal_of-written t,
      pos,
    )

-- Validating accepted parameters again accepts them unchanged, for every rule type.
pub validate_params_idem :
    (rule_type : RuleType) (params params' : Dict Json)
    → validate_params rule_type params ≡ valid params'
    → validate_params rule_type params' ≡ valid params'
unfolding validate_params validate_target StoredTarget
validate_params_idem price_below_target params params' h =
    let (t, put_e, pos) = validate_params-StoredTarget params params' h in
    validate_params-get params' (written t)
      (ap (λ d. get d target_price_key) put_e ∙ get-put_self params _ _)
    ∙ ap (validate_target params') (decimal_of-written t)
    ∙ ground (
      arith,
      put_e,
      ap (λ d. put d target_price_key (text (written t))) put_e,
      put-put_self params target_price_key (text (written t)),
    )
validate_params_idem _ params params' h = refl
