-- ===== src/Accounts/Unique.antt =====
-- One rule of each type for a product and an account.
use product_updates.Accounts.{AccountTables, done}
use product_updates.Accounts.Alerts.{
  AlertRequest, answer_alert, find_rule, write_rule, delete_rule, has_rule,
}
use product_updates.Accounts.Requests.{SameKey, answer_alert-Kept}
use product_updates.Domain.Enums.{RuleType, same_rule_type}
use product_updates.Prelude.{
  ◌≡◌, ◌∷◌, [], ◌++◌, ◌==◌, some, List, ℕ, Bool, true, false, refl, sym, ap, ◌∙◌, arith, Bool-cases,
  inl, inr,
}
use product_updates.Rules.{TrackingRule}

-- some rule of the list has this rule's account, product and type
abbrev repeats : TrackingRule → List TrackingRule → Bool
repeats r rules = has_rule r.user_id r.product_id r.rule_type rules

-- no two rules have the same account, product and type
abbrev pub HasUniqueRules : List TrackingRule → Type 0
HasUniqueRules [] = Unit
HasUniqueRules (r ∷ rules) = (repeats r rules ≡ false) × HasUniqueRules rules

same_rule_type_sym : (a b : RuleType) → same_rule_type a b ≡ same_rule_type b a
unfolding same_rule_type
same_rule_type_sym a b = ground arith

has_rule-append :
    (q : TrackingRule) (rules : List TrackingRule) (r : TrackingRule)
    → repeats q rules ≡ false
    → repeats r (q ∷ []) ≡ false
    → repeats q (rules ++ r ∷ []) ≡ false
unfolding has_rule
has_rule-append q [] r h k = ground (arith, h, k, same_rule_type_sym q.rule_type r.rule_type)
has_rule-append q (p ∷ rules) r h k =
    ground (arith, h, has_rule-append q rules r (ground (arith, h)) k)

HasUniqueRules-append :
    (rules : List TrackingRule) (r : TrackingRule)
    → HasUniqueRules rules
    → repeats r rules ≡ false
    → HasUniqueRules (rules ++ r ∷ [])
unfolding has_rule
HasUniqueRules-append [] r h k = (refl, tt)
HasUniqueRules-append (q ∷ rules) r h k = (
  has_rule-append q rules r h.0 (ground (arith, k)),
  HasUniqueRules-append rules r h.1 (ground (arith, k)),
)

has_rule-write_rule :
    (id user product : ℕ) (type : RuleType) (rules : List TrackingRule) (r r' : TrackingRule)
    → find_rule id rules ≡ some r
    → r'.id ≡ id
    → SameKey r r'
    → has_rule user product type (write_rule r' rules) ≡ has_rule user product type rules
unfolding find_rule write_rule has_rule
has_rule-write_rule id user product type [] r r' h i k = ground arith
has_rule-write_rule id user product type (q ∷ rules) r r' h i k = elim (Bool-cases (q.id == id)) [
  | inl here ↦
      let same : q ≡ r = ground (arith, h, here) in
      let hit : (q.id == r'.id) ≡ true = ground (arith, here, i) in
      rw (hit, k.user, k.product, k.type)
        (ap (λ x. has_rule user product type (x ∷ rules)) (sym same))
  | inr other ↦
      let rest =
        has_rule-write_rule id user product type rules r r' (ground (arith, h, other)) i k in
      ground (arith, i, other, rest)
]

HasUniqueRules-write_rule :
    (id : ℕ) (rules : List TrackingRule) (r r' : TrackingRule)
    → find_rule id rules ≡ some r
    → r'.id ≡ id
    → SameKey r r'
    → HasUniqueRules rules
    → HasUniqueRules (write_rule r' rules)
unfolding find_rule write_rule
HasUniqueRules-write_rule id [] r r' h i k u = tt
HasUniqueRules-write_rule id (q ∷ rules) r r' h i k u = elim (Bool-cases (q.id == id)) [
  | inl here ↦
      let same : q ≡ r = ground (arith, h, here) in
      let hit : (q.id == r'.id) ≡ true = ground (arith, here, i) in
      let alone : repeats r rules ≡ false = ap (λ x. repeats x rules) (sym same) ∙ u.0 in
      rw hit (rw (k.user, k.product, k.type) alone, u.1)
  | inr other ↦
      let found : find_rule id rules ≡ some r = ground (arith, h, other) in
      let miss : (q.id == r'.id) ≡ false = ground (arith, other, i) in
      rw miss (
        has_rule-write_rule id q.user_id q.product_id q.rule_type rules r r' found i k ∙ u.0,
        HasUniqueRules-write_rule id rules r r' found i k u.1,
      )
]

has_rule-delete_rule :
    (id : ℕ) (q : TrackingRule) (rules : List TrackingRule)
    → repeats q rules ≡ false
    → repeats q (delete_rule id rules) ≡ false
unfolding has_rule delete_rule
has_rule-delete_rule id q [] h = h
has_rule-delete_rule id q (p ∷ rules) h = elim (Bool-cases (p.id == id)) [
  | inl e ↦ rw e (ground (arith, h))
  | inr e ↦ rw e (ground (arith, h, has_rule-delete_rule id q rules (ground (arith, h))))
]

HasUniqueRules-delete_rule :
    (id : ℕ) (rules : List TrackingRule)
    → HasUniqueRules rules
    → HasUniqueRules (delete_rule id rules)
unfolding delete_rule
HasUniqueRules-delete_rule id [] u = tt
HasUniqueRules-delete_rule id (q ∷ rules) u = elim (Bool-cases (q.id == id)) [
  | inl e ↦ rw e (u.1)
  | inr e ↦ rw e (has_rule-delete_rule id q rules u.0, HasUniqueRules-delete_rule id rules u.1)
]

-- No account gets two rules of one type on one product: if no two rules of the table agree in
-- account, product and type, then none do after any request that is granted.
pub answer_alert-HasUniqueRules :
    (limit user : ℕ) (request : AlertRequest) (before after : AccountTables)
    → HasUniqueRules before.rules
    → answer_alert limit user request before ≡ done after
    → HasUniqueRules after.rules
answer_alert-HasUniqueRules limit user request before after unique h =
    answer_alert-Kept limit user before HasUniqueRules request after
      (record {
        added = λ new params fresh. HasUniqueRules-append before.rules _ unique fresh;
        written = λ id r r' found own named key.
            HasUniqueRules-write_rule id before.rules r r' found named key unique;
        deleted = λ id r found own. HasUniqueRules-delete_rule id before.rules unique;
      })
      h
