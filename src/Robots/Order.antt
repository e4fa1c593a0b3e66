-- ===== src/Robots/Order.antt =====
-- The first rule that applies is the one that RFC 9309 lets win.
use mathlib.Core.Path.{subst}
use product_updates.Comparison.Sorting.{insert, sorted}
use product_updates.Prelude.{
  ◌≡◌, ◌≤◌, ◌∷◌, [], some, none, Option, List, Bool, true, false, All, Any, All-mono, arith, inl,
  inr, refl, length, Bool-cases, if◌then◌else◌,
}
use product_updates.Robots.{Rule, more_specific}

more_specific-asym : (a b : Rule) → more_specific a b ≡ true → more_specific b a ≡ false
unfolding more_specific
more_specific-asym a b h = ground (arith, h)

more_specific_irrefl : (a : Rule) → more_specific a a ≡ false
unfolding more_specific
more_specific_irrefl a = ground arith

not_more_specific_trans :
    (a b c : Rule)
    → more_specific a b ≡ false
    → more_specific b c ≡ false
    → more_specific a c ≡ false
unfolding more_specific
not_more_specific_trans a b c h k = ground (arith, h, k)

-- no rule of the list goes before the first one
Precedes : Rule → List Rule → Type 0
Precedes r rules = All (λ q. more_specific q r ≡ false) rules

-- each rule precedes those behind it
pub InOrder : List Rule → Type 0
InOrder [] = Unit
InOrder (r ∷ rules) = Precedes r rules × InOrder rules

insert-All :
    (P : Rule → Type 0) (r : Rule) (rules : List Rule)
    → P r
    → All P rules
    → All P (insert more_specific r rules)
unfolding insert
insert-All P r [] hr h = (hr, tt)
insert-All P r (q ∷ rules) hr h = elim (Bool-cases (more_specific q r)) [
  | inl e ↦ rw e (h.0, insert-All P r rules hr h.1)
  | inr e ↦ rw e (hr, h)
]

insert-InOrder :
    (r : Rule) (rules : List Rule) → InOrder rules → InOrder (insert more_specific r rules)
unfolding insert InOrder Precedes
insert-InOrder r [] h = (tt, tt)
insert-InOrder r (q ∷ rules) h = elim (Bool-cases (more_specific q r)) [
  | inl e ↦ rw e (
    insert-All (λ p. more_specific p q ≡ false) r rules (more_specific-asym q r e) h.0,
    insert-InOrder r rules h.1,
  )
  | inr e ↦
      rw e ((e, All-mono _ _ rules (λ p before. not_more_specific_trans p q r before e) h.0), h)
]

pub sorted-InOrder : (rules : List Rule) → InOrder (sorted more_specific rules)
unfolding sorted InOrder
sorted-InOrder [] = tt
sorted-InOrder (r ∷ rules) = insert-InOrder r _ (sorted-InOrder rules)

insert-behind :
    (r q : Rule) (rules : List Rule)
    → more_specific q r ≡ true
    → insert more_specific r (q ∷ rules) ≡ q ∷ insert more_specific r rules
unfolding insert
insert-behind r q rules e = rw e refl

insert-before :
    (r q : Rule) (rules : List Rule)
    → more_specific q r ≡ false
    → insert more_specific r (q ∷ rules) ≡ r ∷ q ∷ rules
unfolding insert
insert-before r q rules e = rw e refl

-- What holds of all rules with one inserted holds of it and of the others.
insert-All-from :
    (P : Rule → Type 0) (r : Rule) (rules : List Rule)
    → All P (insert more_specific r rules)
    → P r × All P rules
unfolding insert
insert-All-from P r [] h = h
insert-All-from P r (q ∷ rules) h = elim (Bool-cases (more_specific q r)) [
  | inl e ↦
      let all = subst (All P) (insert-behind r q rules e) h in
      let rest = insert-All-from P r rules all.1 in (rest.0, (all.0, rest.1))
  | inr e ↦ let all = subst (All P) (insert-before r q rules e) h in (all.0, all.1)
]

pub sorted-All-from :
    (P : Rule → Type 0) (rules : List Rule) → All P (sorted more_specific rules) → All P rules
unfolding sorted
sorted-All-from P [] h = h
sorted-All-from P (r ∷ rules) h =
    let all = insert-All-from P r (sorted more_specific rules) h in
    (all.0, sorted-All-from P rules all.1)

pub sorted-All :
    (P : Rule → Type 0) (rules : List Rule) → All P rules → All P (sorted more_specific rules)
unfolding sorted
sorted-All P [] h = h
sorted-All P (r ∷ rules) h = insert-All P r _ h.0 (sorted-All P rules h.1)

-- The rule that a parser takes which goes by the first that applies to a URL.
unfoldable pub first_match : (Rule → Bool) → List Rule → Option Rule
first_match applies [] = none
first_match applies (r ∷ rules) = if applies r then some r else first_match applies rules

-- What RFC 9309 asks of the rule for a URL: it applies, no longer one does, and where one as long
-- does that allows the URL, it allows it too.
pub record IsWinner (applies : Rule → Bool) (rules : List Rule) (r : Rule) : Type 0 where
  pub listed : Any (λ q. q ≡ r) rules
  pub applies_too : applies r ≡ true
  pub longest : All (λ q. applies q ≡ true → length q.path ≤ length r.path) rules
  pub allowed_first :
      All
        (λ q. applies q ≡ true → length q.path ≡ length r.path → q.allows ≡ true → r.allows ≡ true)
        rules

-- a rule that applies and that no rule which applies goes before
abbrev pub IsFirst : (Rule → Bool) → Rule → List Rule → Type 0
IsFirst applies r rules = All (λ q. applies q ≡ true → more_specific q r ≡ false) rules

pub first_match-IsFirst :
    (applies : Rule → Bool) (rules : List Rule) (r : Rule)
    → InOrder rules
    → first_match applies rules ≡ some r
    → (applies r ≡ true) × IsFirst applies r rules
unfolding first_match InOrder Precedes
first_match-IsFirst applies [] r order h = ground arith
first_match-IsFirst applies (q ∷ rules) r order h = elim (Bool-cases (applies q)) [
  | inl e ↦
      let same : q ≡ r = ground (arith, h, e) in
      subst (λ p. (applies p ≡ true) × IsFirst applies p (q ∷ rules)) same
        (e, ((λ a. more_specific_irrefl q), All-mono _ _ rules (λ p before a. before) order.0))
  | inr e ↦
      let rest = first_match-IsFirst applies rules r order.1 (ground (arith, h, e)) in
      (rest.0, ((λ a. absurd (ground (arith, a, e))), rest.1))
]

pub first_match-Any :
    (applies : Rule → Bool) (rules : List Rule) (r : Rule)
    → first_match applies rules ≡ some r
    → Any (λ q. q ≡ r) rules
unfolding first_match
first_match-Any applies [] r h = ground arith
first_match-Any applies (q ∷ rules) r h = elim (Bool-cases (applies q)) [
  | inl e ↦ inl (ground (arith, h, e))
  | inr e ↦ inr (first_match-Any applies rules r (ground (arith, h, e)))
]

pub first_match-none :
    (applies : Rule → Bool) (rules : List Rule)
    → first_match applies rules ≡ none
    → All (λ q. applies q ≡ false) rules
unfolding first_match
first_match-none applies [] h = tt
first_match-none applies (q ∷ rules) h = elim (Bool-cases (applies q)) [
  | inl e ↦ ground (arith, h, e)
  | inr e ↦ (e, first_match-none applies rules (ground (arith, h, e)))
]
