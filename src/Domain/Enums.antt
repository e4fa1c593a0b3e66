-- ===== src/Domain/Enums.antt =====
-- domain/enums.py. `value` is the text that is stored and written into keys.
use product_updates.Prelude.{Bool, true, false, Text, codes, ◌≡◌, arith}

pub data Availability : Type 0 where
  in_stock out_of_stock unavailable unknown : Availability

pub data TrackingStatus : Type 0 where
  active paused : TrackingStatus

pub data RuleType : Type 0 where
  price_changed price_dropped price_increased price_below_target : RuleType
  became_available became_unavailable : RuleType

pub data CheckStatus : Type 0 where
  success failed partial skipped : CheckStatus

pub data FetchMethod : Type 0 where
  http browser no_method : FetchMethod

pub data NotificationStatus : Type 0 where
  pending sent failed suppressed : NotificationStatus

pub data FetchOutcome : Type 0 where
  ok price_not_found unavailable out_of_stock timeout http_error blocked : FetchOutcome
  page_structure needs_location error : FetchOutcome

pub data CellStatus : Type 0 where
  ok out_of_stock no_price blocked failed never_checked not_tracked : CellStatus

-- `a == b` and `a is b` on the members of `Availability`
unfoldable pub same_availability : Availability → Availability → Bool
same_availability in_stock in_stock = true
same_availability out_of_stock out_of_stock = true
same_availability Availability.unavailable Availability.unavailable = true
same_availability unknown unknown = true
same_availability _ _ = false

-- `_SUCCESS_OUTCOMES`: the product's state was positively determined.
unfoldable pub is_success : FetchOutcome → Bool
is_success FetchOutcome.ok = true
is_success FetchOutcome.out_of_stock = true
is_success FetchOutcome.unavailable = true
is_success _ = false

-- `_TRANSIENT_OUTCOMES`: the same request may succeed shortly.
unfoldable pub is_transient : FetchOutcome → Bool
is_transient timeout = true
is_transient http_error = true
is_transient error = true
is_transient _ = false

unfoldable pub availability_value : Availability → Text
availability_value in_stock = codes "in_stock"
availability_value Availability.out_of_stock = codes "out_of_stock"
availability_value Availability.unavailable = codes "unavailable"
availability_value unknown = codes "unknown"

unfoldable pub rule_type_value : RuleType → Text
rule_type_value price_changed = codes "price_changed"
rule_type_value price_dropped = codes "price_dropped"
rule_type_value price_increased = codes "price_increased"
rule_type_value price_below_target = codes "price_below_target"
rule_type_value became_available = codes "became_available"
rule_type_value became_unavailable = codes "became_unavailable"

unfoldable pub outcome_value : FetchOutcome → Text
outcome_value FetchOutcome.ok = codes "ok"
outcome_value price_not_found = codes "price_not_found"
outcome_value FetchOutcome.unavailable = codes "unavailable"
outcome_value FetchOutcome.out_of_stock = codes "out_of_stock"
outcome_value timeout = codes "timeout"
outcome_value http_error = codes "http_error"
outcome_value FetchOutcome.blocked = codes "blocked"
outcome_value page_structure = codes "page_structure"
outcome_value needs_location = codes "needs_location"
outcome_value error = codes "error"

pub eq_of_same_availability : (a b : Availability) → same_availability a b ≡ true → a ≡ b
unfolding same_availability
eq_of_same_availability a b h = ground arith

pub same_availability_refl : (a : Availability) → same_availability a a ≡ true
unfolding same_availability
same_availability_refl a = ground arith

-- `rule_type == other`
unfoldable pub same_rule_type : RuleType → RuleType → Bool
same_rule_type price_changed price_changed = true
same_rule_type price_dropped price_dropped = true
same_rule_type price_increased price_increased = true
same_rule_type price_below_target price_below_target = true
same_rule_type became_available became_available = true
same_rule_type became_unavailable became_unavailable = true
same_rule_type _ _ = false
