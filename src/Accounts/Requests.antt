-- ===== src/Accounts/Requests.antt =====
-- A rule for the requests of alert rules: what holds of the tables after a rule is added, written or
-- deleted holds after every request that is granted.
use mathlib.Core.Path.{subst}
use product_updates.Accounts.{
  AccountTables, Result, ServiceError, not_found, done, failed, get_listing, is_subscribed,
  quota_exceeded, duplicate,
}
use product_updates.Accounts.Alerts.{
  AlertRequest, add_alert, remove_alert, enable_alert, change_cooldown, answer_alert, NewRule,
  append_rule, add_to_product, add_rule, find_rule, owned_by, get_rule, write_rule, delete_rule,
  change_rule, set_enabled, set_cooldown, remove_rule, remove_rule_found, rules_over_quota,
  is_provider, has_rule,
}
use product_updates.Dict.{Dict}
use product_updates.Domain.Results.{Json}
use product_updates.Prelude.{
  ◌≡◌, ◌∷◌, [], ◌++◌, ◌==◌, some, none, List, ℕ, Bool, true, false, not, refl, ap, ◌∙◌, arith,
  Bool-cases, Option-cases, inl, inr, if◌then◌else◌,
}
use product_updates.Rules.{TrackingRule}
use product_updates.Rules.Params.{validate_params, Validated, valid}

find_rule-id :
    (id : ℕ) (rules : List TrackingRule) (r : TrackingRule)
    → find_rule id rules ≡ some r
    → r.id ≡ id
unfolding find_rule
find_rule-id id [] r h = ground arith
find_rule-id id (q ∷ rules) r h = elim (Bool-cases (q.id == id)) [
  | inl e ↦ ground arith
  | inr e ↦ find_rule-id id rules r (ground arith)
]

-- A rule that the account gets is one of its own.
pub record IsOwn (user id : ℕ) (t : AccountTables) (r : TrackingRule) : Type 0 where
  pub found : find_rule id t.rules ≡ some r
  pub own : r.user_id ≡ user
  pub named : r.id ≡ id

get_rule-IsOwn :
    (user id : ℕ) (t : AccountTables) (r : TrackingRule)
    → get_rule user id t ≡ done r
    → IsOwn user id t r
unfolding get_rule owned_by
get_rule-IsOwn user id t r h = elim (Option-cases (find_rule id t.rules)) [
  | inl e ↦ absurd (ground (arith, h, e))
  | inr (q, e) ↦
      let same : q ≡ r = ground (arith, h, e) in
      let owner : q.user_id ≡ user = ground (arith, h, e) in
      record {
        found = e ∙ ap some same;
        own = subst (λ p. p.user_id ≡ user) same owner;
        named = find_rule-id id t.rules r (e ∙ ap some same);
      }
]

-- what holds of the tables after a request, if it is granted
unfoldable pub Granted : (AccountTables → Type 0) → Result AccountTables → Type 0
Granted P (failed e) = Unit
Granted P (done t) = P t

-- the same account, product and type
pub record SameKey (r r' : TrackingRule) : Type 0 where
  pub user : r'.user_id ≡ r.user_id
  pub product : r'.product_id ≡ r.product_id
  pub type : r'.rule_type ≡ r.rule_type

-- a guard in front of a request
Granted-guard :
    (P : AccountTables → Type 0) (b : Bool) (e : ServiceError) (r : Result AccountTables)
    → Granted P r
    → Granted P (if b then failed e else r)
unfolding Granted
Granted-guard P true e r h = tt
Granted-guard P false e r h = h

-- the rule that `AlertService.add` makes
abbrev pub new_rule : ℕ → NewRule → Dict Json → AccountTables → TrackingRule
new_rule user new params t = record {
  id = t.next_rule_id;
  product_id = new.product_id;
  user_id = user;
  rule_type = new.rule_type;
  params = params;
  notify_provider = new.notify_provider;
  enabled = true;
  cooldown_seconds = new.cooldown_seconds;
  last_fired_at = none;
}

module _ (limit user : ℕ) (t : AccountTables) (P : List TrackingRule → Type 0) where
  abbrev Holds : AccountTables → Type 0
  Holds after = P after.rules

  -- What has to be shown of each way in which the rules change.
  pub record Kept : Type 0 where
    pub added :
        (new : NewRule) (params : Dict Json)
        → has_rule user new.product_id new.rule_type t.rules ≡ false
        → P (t.rules ++ new_rule user new params t ∷ [])
    pub written :
        (id : ℕ) (r r' : TrackingRule)
        → find_rule id t.rules ≡ some r
        → r.user_id ≡ user
        → r'.id ≡ id
        → SameKey r r'
        → P (write_rule r' t.rules)
    pub deleted :
        (id : ℕ) (r : TrackingRule)
        → find_rule id t.rules ≡ some r
        → r.user_id ≡ user
        → P (delete_rule id t.rules)

  change_rule-Granted :
      (id : ℕ) (f : TrackingRule → TrackingRule)
      → Kept
      → ((r : TrackingRule) → ((f r).id ≡ r.id) × SameKey r (f r))
      → Granted Holds (change_rule f (get_rule user id t) t)
  unfolding change_rule Granted
  change_rule-Granted id f kept keeps = go (get_rule user id t) refl
    where
      go : (o : Result TrackingRule) → get_rule user id t ≡ o → Granted Holds (change_rule f o t)
      go (failed e) h = tt
      go (done r) h =
          let own = get_rule-IsOwn user id t r h in
          kept.written id r (f r) own.found own.own ((keeps r).0 ∙ own.named) (keeps r).1

  remove_rule-Granted : (id : ℕ) → Kept → Granted Holds (remove_rule user id t)
  unfolding remove_rule remove_rule_found Granted
  remove_rule-Granted id kept = go (get_rule user id t) refl
    where
      go :
          (o : Result TrackingRule) → get_rule user id t ≡ o → Granted Holds (remove_rule_found o t)
      go (failed e) h = tt
      go (done r) h =
          let own = get_rule-IsOwn user id t r h in
          rw (own.named) (kept.deleted id r own.found own.own)

  append_rule-Granted :
      (new : NewRule) (v : Validated)
      → Kept
      → has_rule user new.product_id new.rule_type t.rules ≡ false
      → Granted Holds (append_rule user new v t)
  unfolding append_rule Granted
  append_rule-Granted new (Validated.invalid e) kept fresh = tt
  append_rule-Granted new (valid params) kept fresh = kept.added new params fresh

  add_unless_there-Granted :
      (new : NewRule) (v : Validated)
      → Kept
      → Granted Holds (
          if has_rule user new.product_id new.rule_type t.rules
          then failed duplicate
          else append_rule user new v t)
  unfolding Granted
  add_unless_there-Granted new v kept =
      elim (Bool-cases (has_rule user new.product_id new.rule_type t.rules)) [
        | inl there ↦ rw there tt
        | inr fresh ↦ rw fresh (append_rule-Granted new v kept fresh)
      ]

  add_to_product-Granted : (new : NewRule) → Kept → Granted Holds (add_to_product limit user new t)
  unfolding add_to_product
  add_to_product-Granted new kept =
      let added = add_unless_there-Granted new (validate_params new.rule_type new.params) kept in
      Granted-guard _ (not (is_subscribed user new.product_id t.subscriptions)) not_found _ (
        Granted-guard _ (rules_over_quota limit user t) quota_exceeded _
          (Granted-guard _ (not (is_provider new.notify_provider)) ServiceError.invalid _ added))

  add_rule-Granted : (new : NewRule) → Kept → Granted Holds (add_rule limit user new t)
  unfolding add_rule Granted
  add_rule-Granted new kept = elim (Option-cases (get_listing new.product_id t.listings)) [
    | inl e ↦ rw (e, Granted) tt
    | inr (p, e) ↦ rw (e, Granted) (add_to_product-Granted new kept)
  ]

  answer_alert-Granted :
      (request : AlertRequest) → Kept → Granted Holds (answer_alert limit user request t)
  unfolding answer_alert set_enabled set_cooldown
  answer_alert-Granted (add_alert new) kept = add_rule-Granted new kept
  answer_alert-Granted (remove_alert id) kept = remove_rule-Granted id kept
  answer_alert-Granted (enable_alert id flag) kept =
      change_rule-Granted id _ kept
        (λ r. (refl, record { user = refl; product = refl; type = refl }))
  answer_alert-Granted (change_cooldown id none) kept =
      change_rule-Granted id _ kept
        (λ r. (refl, record { user = refl; product = refl; type = refl }))
  answer_alert-Granted (change_cooldown id (some (negative, seconds))) kept =
      Granted-guard _ _ _ _ (
        change_rule-Granted id _ kept
          (λ r. (refl, record { user = refl; product = refl; type = refl })))

  -- The rule: a request that is granted leaves rules of which `P` holds.
  pub answer_alert-Kept :
      (request : AlertRequest) (after : AccountTables)
      → Kept
      → answer_alert limit user request t ≡ done after
      → P after.rules
  unfolding Granted
  answer_alert-Kept request after kept h =
      subst (Granted Holds) h (answer_alert-Granted request kept)
