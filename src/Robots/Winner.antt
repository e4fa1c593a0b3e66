-- ===== src/Robots/Winner.antt =====
-- Whichever of the two ways a parser chooses a rule, by the first that applies or by the longest, the
-- rules as `rules_for` gives them have one answer.
use product_updates.Prelude.{
  ◌≡◌, some, none, List, Text, Bool, true, false, All, Any, All-mono, All-at, All-self, arith,
}
use product_updates.Robots.{Rule, Line, more_specific, rules_for_lines, applicable}
use product_updates.Robots.Order.{
  IsFirst, IsWinner, first_match, first_match-Any, first_match-IsFirst, first_match-none,
  sorted-All, sorted-All-from, sorted-InOrder,
}

IsFirst-IsWinner :
    (applies : Rule → Bool) (rules : List Rule) (r : Rule)
    → Any (λ q. q ≡ r) rules
    → applies r ≡ true
    → IsFirst applies r rules
    → IsWinner applies rules r
unfolding more_specific
IsFirst-IsWinner applies rules r listed here first = record {
  listed = listed;
  applies_too = here;
  longest =
      All-mono _ _ rules (λ q before a. let no_better = before a in ground (arith, no_better))
        first;
  allowed_first =
      All-mono _ _ rules
        (λ q before a same allowed.
          let no_better = before a in ground (arith, no_better, same, allowed))
        first;
}

module _ (lower : Text → Text) (user_agent : Text) (ls : List Line) (applies : Rule → Bool) where
  -- Of the rules that the parser is given, the first that applies to a URL is the one that RFC 9309
  -- lets win among all rules that are about the program: no longer one applies, and of those as long
  -- one that allows comes first.
  pub first_match-IsWinner :
      (r : Rule)
      → first_match applies (rules_for_lines lower user_agent ls) ≡ some r
      → IsWinner applies (applicable lower user_agent ls) r
  unfolding rules_for_lines
  first_match-IsWinner r h =
      let rules = applicable lower user_agent ls in
      let first = first_match-IsFirst applies _ r (sorted-InOrder rules) h in
      let in_sorted = first_match-Any applies _ r h in
      IsFirst-IsWinner applies rules r
        (All-at (λ q. Any (λ y. y ≡ q) rules) _ r
          (sorted-All (λ q. Any (λ y. y ≡ q) rules) rules (All-self rules)) in_sorted)
        first.0 (sorted-All-from _ rules first.1)

  -- So a parser that goes by the first rule which applies and one that goes by the longest, where one
  -- that allows wins a tie, give the same answer; and where no rule applies for the one, none does
  -- for the other.
  first_match-agrees :
      ((r winner : Rule)
        → first_match applies (rules_for_lines lower user_agent ls) ≡ some r
        → IsWinner applies (applicable lower user_agent ls) winner
        → r.allows ≡ winner.allows)
      × (first_match applies (rules_for_lines lower user_agent ls) ≡ none
          → All (λ q. applies q ≡ false) (applicable lower user_agent ls))
  unfolding rules_for_lines
  first_match-agrees = (
    λ r winner h w. same_answer r winner (first_match-IsWinner r h) w,
    λ h. sorted-All-from _ _ (first_match-none applies _ h),
  )
    where
      same_answer :
          (r winner : Rule)
          → IsWinner applies (applicable lower user_agent ls) r
          → IsWinner applies (applicable lower user_agent ls) winner
          → r.allows ≡ winner.allows
      same_answer r winner hr hw =
          let a = All-at _ _ winner hr.longest hw.listed hw.applies_too in
          let b = All-at _ _ r hw.longest hr.listed hr.applies_too in
          let c =
            All-at _ _ winner hr.allowed_first hw.listed hw.applies_too (omega (arith, a, b)) in
          let d = All-at _ _ r hw.allowed_first hr.listed hr.applies_too (omega (arith, a, b)) in
          ground (arith, c, d)
