-- ===== src/Robots.antt =====
-- stores/robots.py: which rules of a robots.txt apply to the program, and in which order the parser
-- gets them. `str.lower` is a parameter.
pub mod Lines
pub mod Order
pub mod Winner
pub mod Groups
use product_updates.Comparison.Sorting.{sorted}
use product_updates.Prelude.{
  if◌then◌else◌, ◌&&◌, ◌||◌, ◌==◌, ◌++◌, ◌∷◌, [], some, none, Option, List, Text, ℕ, Bool, true,
  false, not, any, codes, is_empty, length, ltb, text_eq, occurs_in,
}
use product_updates.Prelude.Spaces.{strip}

-- `"Allow: path"` or `"Disallow: path"`
pub record Rule : Type 0 where
  pub allows : Bool
  pub path : Text

-- What a line says: the agent of a group, a rule, or nothing that counts.
pub data Line : Type 0 where
  agent : Text → Line
  rule : Rule → Line
  other : Line

-- the variables of the loop of `rules_for`
pub record Reading : Type 0 where
  pub named : List Rule
  pub wildcard : List Rule
  pub agents : List Text
  pub starting_group : Bool

abbrev pub no_reading : Reading
no_reading = record { named = []; wildcard = []; agents = []; starting_group = true }

unfoldable pub is_wildcard : Text → Bool
unfolding strip
is_wildcard a = text_eq (strip a) (codes "*")

-- the sort key `_specificity`: longer paths first, and of equal ones the allowed first
unfoldable pub more_specific : Rule → Rule → Bool
more_specific a b =
    ltb (length b.path) (length a.path)
    || ((length a.path == length b.path) && (a.allows && not b.allows))

-- `named or wildcard`
abbrev pub either : List Rule → List Rule → List Rule
either [] wildcard = wildcard
either (r ∷ named) wildcard = r ∷ named

module _ (lower : Text → Text) where
  -- `_agent_matches`
  unfoldable pub agent_matches : Text → Text → Bool
  unfolding strip
  agent_matches user_agent a =
      let token = lower (strip a) in
      text_eq token (codes "*") || (not (is_empty token) && occurs_in token (lower user_agent))

  -- `a.strip() != "*" and _agent_matches(a, user_agent)`
  unfoldable pub names_us : Text → Text → Bool
  unfolding is_wildcard agent_matches
  names_us user_agent a = not (is_wildcard a) && agent_matches user_agent a

  -- where a rule goes, by the agents of its group
  unfoldable pub put_rule : Text → Rule → Reading → Reading
  unfolding names_us is_wildcard
  put_rule user_agent r s =
      if any (names_us user_agent) s.agents
      then record s { named = s.named ++ r ∷ []; starting_group = false }
      else if any is_wildcard s.agents
      then record s { wildcard = s.wildcard ++ r ∷ []; starting_group = false }
      else record s { starting_group = false }

  -- an agent after a rule begins a new group
  unfoldable pub put_agent : Text → Reading → Reading
  put_agent a s = record s {
    agents = (if s.starting_group then s.agents else []) ++ a ∷ [];
    starting_group = true;
  }

  unfoldable pub read_line : Text → Line → Reading → Reading
  unfolding put_rule put_agent
  read_line user_agent (agent a) s = put_agent a s
  read_line user_agent (rule r) s = put_rule user_agent r s
  read_line user_agent other s = s

  unfoldable pub read_lines : Text → List Line → Reading → Reading
  unfolding read_line
  read_lines user_agent [] s = s
  read_lines user_agent (l ∷ ls) s = read_lines user_agent ls (read_line user_agent l s)

  -- the rules of a file that are about the program
  unfoldable pub applicable : Text → List Line → List Rule
  unfolding read_lines
  applicable user_agent ls =
      let s = read_lines user_agent ls no_reading in either s.named s.wildcard

  -- `rules_for`, of the lines of a file: the rules of the one group that the parser gets
  unfoldable pub rules_for_lines : Text → List Line → List Rule
  unfolding applicable sorted more_specific
  rules_for_lines user_agent ls = sorted more_specific (applicable user_agent ls)
