-- ===== src/Examples/Crawling.antt =====
-- A robots.txt that allows everything in one group and takes a path out in another.
use product_updates.Prelude.{◌∷◌, [], Bool, List, codes, false, refl, text_eq, true}
use product_updates.Robots.{Line, Rule, agent, rule, applicable, rules_for_lines}
use product_updates.Robots.Groups.{Group}
use product_updates.Robots.Order.{IsWinner, first_match}
use product_updates.Robots.Winner.{first_match-IsWinner}

abbrev allow_all : Rule
allow_all = record { allows = true; path = codes "/" }

abbrev no_search : Rule
no_search = record { allows = false; path = codes "/search?" }

abbrev file : List Line
file = agent (codes "*") ∷ rule allow_all ∷ agent (codes "*") ∷ rule no_search ∷ []

-- a URL to which both rules apply
abbrev both : Rule → Bool
both r = true

first_match-IsWinner_example : IsWinner both (applicable (λ t. t) (codes "tracker") file) no_search
unfolding first_match rules_for_lines text_eq
first_match-IsWinner_example =
    first_match-IsWinner (λ t. t) (codes "tracker") file both no_search refl

abbrev group_of : Rule → Group
group_of r = record { first_agent = codes "*"; more_agents = []; first_rule = r; more_rules = [] }
