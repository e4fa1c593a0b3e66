-- ===== src/Accounts/Isolation.antt =====
-- What an account does to its alerts leaves those of every other account alone.
use product_updates.Accounts.{AccountTables, done}
use product_updates.Accounts.Alerts.{AlertRequest, answer_alert, find_rule, write_rule, delete_rule}
use product_updates.Accounts.Requests.{answer_alert-Kept}
use product_updates.Prelude.{
  ◌≡◌, ◌∷◌, [], ◌++◌, ◌==◌, some, List, ℕ, not, keep, refl, ◌∙◌, arith, Bool-cases, inl, inr,
}
use product_updates.Rules.{TrackingRule}

-- the rules of all accounts but one
abbrev pub others_rules : ℕ → List TrackingRule → List TrackingRule
others_rules user rules = keep (λ r. not (r.user_id == user)) rules

others_rules-append :
    (user : ℕ) (rules : List TrackingRule) (r : TrackingRule)
    → r.user_id ≡ user
    → others_rules user (rules ++ r ∷ []) ≡ others_rules user rules
others_rules-append user [] r h = ground arith
others_rules-append user (q ∷ rules) r h = rw (others_rules-append user rules r h) refl

-- an account's own rule, found by its id, is written or deleted
others_rules-write_rule :
    (user id : ℕ) (rules : List TrackingRule) (r r' : TrackingRule)
    → find_rule id rules ≡ some r
    → r.user_id ≡ user
    → r'.id ≡ id
    → r'.user_id ≡ user
    → others_rules user (write_rule r' rules) ≡ others_rules user rules
unfolding find_rule write_rule
others_rules-write_rule user id [] r r' h own i own' = ground arith
others_rules-write_rule user id (q ∷ rules) r r' h own i own' = elim (Bool-cases (q.id == id)) [
  | inl here ↦ ground (arith, h, own, i, own', here)
  | inr other ↦
      let rest = others_rules-write_rule user id rules r r' (ground (arith, h, other)) own i own' in
      ground (arith, i, other, rest)
]

others_rules-delete_rule :
    (user id : ℕ) (rules : List TrackingRule) (r : TrackingRule)
    → find_rule id rules ≡ some r
    → r.user_id ≡ user
    → others_rules user (delete_rule id rules) ≡ others_rules user rules
unfolding find_rule delete_rule
others_rules-delete_rule user id [] r h own = ground arith
others_rules-delete_rule user id (q ∷ rules) r h own = elim (Bool-cases (q.id == id)) [
  | inl here ↦ ground (arith, h, own, here)
  | inr other ↦
      let rest = others_rules-delete_rule user id rules r (ground (arith, h, other)) own in
      ground (arith, other, rest)
]

-- Whatever an account asks of its alerts, to add, remove, enable or disable one or to change its
-- cooldown, and whatever ids it names: a request that is granted leaves the rules of all other
-- accounts as they are.
pub answer_alert-others :
    (limit user : ℕ) (request : AlertRequest) (before after : AccountTables)
    → answer_alert limit user request before ≡ done after
    → others_rules user after.rules ≡ others_rules user before.rules
answer_alert-others limit user request before after h =
    answer_alert-Kept limit user before
      (λ rules. others_rules user rules ≡ others_rules user before.rules) request after
      (record {
        added = λ new params fresh. others_rules-append user before.rules _ refl;
        written = λ id r r' found own named key.
            others_rules-write_rule user id before.rules r r' found own named (key.user ∙ own);
        deleted = λ id r found own. others_rules-delete_rule user id before.rules r found own;
      })
      h
