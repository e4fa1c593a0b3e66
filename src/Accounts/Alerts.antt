-- ===== src/Accounts/Alerts.antt =====
-- `AlertService` of services/alert_service.py, acting for one account.
use product_updates.Accounts.{
  Subscription, Listing, AccountTables, Result, ServiceError, not_found, duplicate, quota_exceeded,
  failed, done, get_listing, write_listing, is_subscribed, is_of, exempt_from_quota,
  has_active_subscriber,
}
use product_updates.Dict.{Dict}
use product_updates.Domain.Enums.{RuleType, TrackingStatus, active, paused, same_rule_type}
use product_updates.Domain.Results.{Json}
use product_updates.Prelude.{
  if◌then◌else◌, ◌&&◌, ◌||◌, ◌==◌, ◌++◌, ◌∷◌, [], some, none, suc, Option, List, Text, ℕ, Bool,
  true, false, not, keep, length, leb, any, codes, text_eq,
}
use product_updates.Rules.{TrackingRule}
use product_updates.Rules.Params.{validate_params, Validated, valid}

-- `TrackingRuleRepository.count_filtered(user_id=...)`
unfoldable pub rules_of : ℕ → List TrackingRule → List TrackingRule
rules_of user rules = keep (λ r. r.user_id == user) rules

-- `TrackingRuleRepository.find`
unfoldable pub has_rule : ℕ → ℕ → RuleType → List TrackingRule → Bool
unfolding same_rule_type
has_rule user product type rules =
    any (λ r. (r.user_id == user) && ((r.product_id == product) && same_rule_type r.rule_type type))
      rules

-- the keys of `ALL_PROVIDERS`
unfoldable pub is_provider : Option Text → Bool
is_provider none = true
is_provider (some slug) =
    text_eq slug (codes "console")
    || text_eq slug (codes "email")
    || text_eq slug (codes "telegram")
    || text_eq slug (codes "webhook")

-- What a new rule is made of. The table refuses a cooldown that is negative.
pub record NewRule : Type 0 where
  pub product_id : ℕ
  pub rule_type : RuleType
  pub params : Dict Json
  pub notify_provider : Option Text
  pub cooldown_seconds : Option ℕ

unfoldable pub append_rule : ℕ → NewRule → Validated → AccountTables → Result AccountTables
append_rule user new (Validated.invalid e) t = failed ServiceError.invalid
append_rule user new (valid params) t = done (record t {
  rules =
      t.rules
      ++ record {
        id = t.next_rule_id;
        product_id = new.product_id;
        user_id = user;
        rule_type = new.rule_type;
        params = params;
        notify_provider = new.notify_provider;
        enabled = true;
        cooldown_seconds = new.cooldown_seconds;
        last_fired_at = none;
      }
        ∷ [];
  next_rule_id = suc t.next_rule_id;
})

-- the ceiling on the rules of an account
unfoldable pub rules_over_quota : ℕ → ℕ → AccountTables → Bool
unfolding exempt_from_quota rules_of
rules_over_quota limit user t =
    not (exempt_from_quota user t.users) && leb limit (length (rules_of user t.rules))

-- `AlertService.add`, on a product that is there; every rule type has an evaluator.
unfoldable pub add_to_product : ℕ → ℕ → NewRule → AccountTables → Result AccountTables
unfolding is_subscribed rules_over_quota is_provider has_rule append_rule validate_params
add_to_product limit user new t =
    if not (is_subscribed user new.product_id t.subscriptions)
    then failed not_found
    else if rules_over_quota limit user t
    then failed quota_exceeded
    else if not (is_provider new.notify_provider)
    then failed ServiceError.invalid
    else if has_rule user new.product_id new.rule_type t.rules
    then failed duplicate
    else append_rule user new (validate_params new.rule_type new.params) t

-- `AlertService.add`
unfoldable pub add_rule : ℕ → ℕ → NewRule → AccountTables → Result AccountTables
unfolding add_to_product get_listing
add_rule limit user new t = elim (get_listing new.product_id t.listings) [
  | none ↦ failed not_found
  | some p ↦ add_to_product limit user new t
]

-- `TrackingRuleRepository.get`
unfoldable pub find_rule : ℕ → List TrackingRule → Option TrackingRule
find_rule id [] = none
find_rule id (r ∷ rs) = if r.id == id then some r else find_rule id rs

-- `rule is None or rule.user_id != self.user_id`
unfoldable pub owned_by : ℕ → Option TrackingRule → Result TrackingRule
owned_by user none = failed not_found
owned_by user (some r) = if r.user_id == user then done r else failed not_found

-- `AlertService.get`
unfoldable pub get_rule : ℕ → ℕ → AccountTables → Result TrackingRule
unfolding owned_by find_rule
get_rule user id t = owned_by user (find_rule id t.rules)

-- a changed rule is written back to its row, and a deleted one goes: an id stands in one row
unfoldable pub write_rule : TrackingRule → List TrackingRule → List TrackingRule
write_rule r [] = []
write_rule r (q ∷ qs) = let rest = write_rule r qs in if q.id == r.id then r ∷ qs else q ∷ rest

unfoldable pub delete_rule : ℕ → List TrackingRule → List TrackingRule
delete_rule id [] = []
delete_rule id (q ∷ qs) = let rest = delete_rule id qs in if q.id == id then qs else q ∷ rest

-- the change of a rule that was found, and none where it was not
unfoldable pub change_rule :
    (TrackingRule → TrackingRule) → Result TrackingRule → AccountTables → Result AccountTables
unfolding write_rule
change_rule f (failed e) t = failed e
change_rule f (done r) t = done (record t { rules = write_rule (f r) t.rules })

-- `AlertService.set_enabled`
unfoldable pub set_enabled : ℕ → ℕ → Bool → AccountTables → Result AccountTables
unfolding change_rule get_rule
set_enabled user id enabled t =
    change_rule (λ r. record r { enabled = enabled }) (get_rule user id t) t

-- `AlertService.set_cooldown`: the seconds with their sign
unfoldable pub set_cooldown : ℕ → ℕ → Option (Bool × ℕ) → AccountTables → Result AccountTables
unfolding change_rule get_rule
set_cooldown user id none t =
    change_rule (λ r. record r { cooldown_seconds = none }) (get_rule user id t) t
set_cooldown user id (some (negative, seconds)) t =
    if negative && not (seconds == 0)
    then failed ServiceError.invalid
    else change_rule (λ r. record r { cooldown_seconds = some seconds }) (get_rule user id t) t

unfoldable pub remove_rule_found : Result TrackingRule → AccountTables → Result AccountTables
unfolding delete_rule
remove_rule_found (failed e) t = failed e
remove_rule_found (done r) t = done (record t { rules = delete_rule r.id t.rules })

-- `AlertService.remove`
unfoldable pub remove_rule : ℕ → ℕ → AccountTables → Result AccountTables
unfolding remove_rule_found get_rule
remove_rule user id t = remove_rule_found (get_rule user id t) t

abbrev pub is_paused : TrackingStatus → Bool
is_paused paused = true
is_paused active = false

-- `subscription.paused = ...`
unfoldable pub pause : ℕ → ℕ → Bool → List Subscription → List Subscription
pause user product flag [] = []
pause user product flag (s ∷ ss) =
    (if is_of user product s then record s { paused = flag } else s) ∷ pause user product flag ss

-- `_recompute_tracking_status`
unfoldable pub recompute : Listing → AccountTables → AccountTables
unfolding has_active_subscriber write_listing
recompute p t =
    let status = if has_active_subscriber p.id t.subscriptions then active else paused in
    record t { listings = write_listing (record p { tracking_status = status }) t.listings }

-- `AlertService.set_tracking_status`
unfoldable pub set_tracking_status : ℕ → ℕ → TrackingStatus → AccountTables → Result AccountTables
unfolding get_listing is_subscribed pause recompute
set_tracking_status user id status t = elim (get_listing id t.listings) [
  | none ↦ failed not_found
  | some p ↦
      if is_subscribed user id t.subscriptions
      then done (
          recompute p
            (record t { subscriptions = pause user id (is_paused status) t.subscriptions }))
      else failed not_found
]

-- The requests that an account makes of its alerts, and the answer to each.
pub data AlertRequest : Type 0 where
  add_alert : NewRule → AlertRequest
  remove_alert : ℕ → AlertRequest
  enable_alert : ℕ → Bool → AlertRequest
  change_cooldown : ℕ → Option (Bool × ℕ) → AlertRequest

unfoldable pub answer_alert : ℕ → ℕ → AlertRequest → AccountTables → Result AccountTables
unfolding add_rule remove_rule set_enabled set_cooldown
answer_alert limit user (add_alert new) t = add_rule limit user new t
answer_alert limit user (remove_alert id) t = remove_rule user id t
answer_alert limit user (enable_alert id flag) t = set_enabled user id flag t
answer_alert limit user (change_cooldown id seconds) t = set_cooldown user id seconds t
