-- ===== src/Robots/Groups.antt =====
-- Repeated groups are merged: of a file made of groups, the rules of all groups that name the program
-- are read, in their order, and those of all groups for everyone.
use mathlib.Core.List.{append_assoc, append-nil}
use mathlib.Core.Path.{ap₂}
use product_updates.Prelude.{
  ◌≡◌, ◌∷◌, [], ◌++◌, List, Text, Bool, true, false, not, any, map, ◌&&◌, refl, sym, ap, ◌∙◌,
  Bool-cases, inl, inr, if◌then◌else◌,
}
use product_updates.Robots.{
  Rule, Line, agent, rule, Reading, is_wildcard, names_us, put_agent, put_rule, read_line,
  read_lines, applicable, either,
}

-- one group of a file: at least one agent and one rule
pub record Group : Type 0 where
  pub first_agent : Text
  pub more_agents : List Text
  pub first_rule : Rule
  pub more_rules : List Rule

abbrev pub agents_of : Group → List Text
agents_of g = g.first_agent ∷ g.more_agents

abbrev pub rules_of_group : Group → List Rule
rules_of_group g = g.first_rule ∷ g.more_rules

-- its lines
abbrev pub lines_of : Group → List Line
lines_of g = map agent (agents_of g) ++ map rule (rules_of_group g)

abbrev pub lines_of_all : List Group → List Line
lines_of_all [] = []
lines_of_all (g ∷ gs) = lines_of g ++ lines_of_all gs

-- the rules of the groups of one kind, in their order
unfoldable pub rules_where : (List Text → Bool) → List Group → List Rule
rules_where wanted [] = []
rules_where wanted (g ∷ gs) =
    (if wanted (agents_of g) then rules_of_group g else []) ++ rules_where wanted gs

module _ (lower : Text → Text) (user_agent : Text) where
  abbrev names_program : List Text → Bool
  names_program agents = any (names_us lower user_agent) agents

  abbrev for_everyone : List Text → Bool
  for_everyone agents = not (names_program agents) && any is_wildcard agents

  read_lines-append :
      (ls ms : List Line) (s : Reading)
      → read_lines lower user_agent (ls ++ ms) s
        ≡ read_lines lower user_agent ms (read_lines lower user_agent ls s)
  unfolding read_lines
  read_lines-append [] ms s = refl
  read_lines-append (l ∷ ls) ms s = read_lines-append ls ms (read_line lower user_agent l s)

  -- agents that follow agents belong to one group
  read_agents :
      (more agents : List Text) (named wildcard : List Rule)
      → read_lines lower user_agent
          (map agent more)
          (record { named = named; wildcard = wildcard; agents = agents; starting_group = true })
        ≡ record {
          named = named;
          wildcard = wildcard;
          agents = agents ++ more;
          starting_group = true;
        }
  unfolding read_lines read_line put_agent
  read_agents [] agents named wildcard =
      ap
        (λ (us : List Text). record {
          named = named;
          wildcard = wildcard;
          agents = us;
          starting_group = true;
        })
        (sym (append-nil agents))
  read_agents (a ∷ more) agents named wildcard =
      read_agents more (agents ++ a ∷ []) named wildcard
      ∙ ap
          (λ (us : List Text). record {
            named = named;
            wildcard = wildcard;
            agents = us;
            starting_group = true;
          })
          (append_assoc agents (a ∷ []) more)

  -- what a list of rules adds, by the agents of their group
  after_rules : List Rule → List Text → List Rule → List Rule → Reading
  after_rules rules agents named wildcard = record {
    named = named ++ (if names_program agents then rules else []);
    wildcard = wildcard ++ (if for_everyone agents then rules else []);
    agents = agents;
    starting_group = false;
  }

  put_rule-after :
      (r : Rule) (agents : List Text) (named wildcard : List Rule) (starting : Bool)
      → put_rule lower user_agent r (record {
        named = named;
        wildcard = wildcard;
        agents = agents;
        starting_group = starting;
      })
        ≡ after_rules (r ∷ []) agents named wildcard
  unfolding put_rule after_rules
  put_rule-after r agents named wildcard starting = elim (Bool-cases (names_program agents)) [
    | inl e ↦ rw (e, append-nil wildcard) refl
    | inr e ↦ elim (Bool-cases (any is_wildcard agents)) [
      | inl w ↦ rw (e, w, append-nil named) refl
      | inr w ↦ rw (e, w, append-nil named, append-nil wildcard) refl
    ]
  ]

  after_rules-append :
      (rs ss : List Rule) (agents : List Text) (named wildcard : List Rule)
      → let s = after_rules rs agents named wildcard in
        after_rules ss agents s.named s.wildcard ≡ after_rules (rs ++ ss) agents named wildcard
  unfolding after_rules
  after_rules-append rs ss agents named wildcard = elim (Bool-cases (names_program agents)) [
    | inl e ↦ rw (e, append_assoc named rs ss, append-nil wildcard, append-nil wildcard) refl
    | inr e ↦ elim (Bool-cases (any is_wildcard agents)) [
      | inl w ↦ rw (e, w, append_assoc wildcard rs ss, append-nil named, append-nil named) refl
      | inr w ↦
          rw (e, w, append-nil named, append-nil named, append-nil wildcard, append-nil wildcard)
            refl
    ]
  ]

  read_rules :
      (r : Rule) (rs : List Rule) (agents : List Text) (named wildcard : List Rule)
      (starting : Bool)
      → read_lines lower user_agent (map rule (r ∷ rs)) (record {
        named = named;
        wildcard = wildcard;
        agents = agents;
        starting_group = starting;
      })
        ≡ after_rules (r ∷ rs) agents named wildcard
  unfolding read_lines read_line after_rules
  read_rules r [] agents named wildcard starting = put_rule-after r agents named wildcard starting
  read_rules r (q ∷ rs) agents named wildcard starting =
      let s = after_rules (r ∷ []) agents named wildcard in
      ap (read_lines lower user_agent (map rule (q ∷ rs)))
        (put_rule-after r agents named wildcard starting)
      ∙ read_rules q rs agents s.named s.wildcard false
      ∙ after_rules-append (r ∷ []) (q ∷ rs) agents named wildcard

  -- A group that follows another, or begins the file, is read whole.
  read_group :
      (g : Group) (agents : List Text) (named wildcard : List Rule)
      → read_lines lower user_agent
          (lines_of g)
          (record { named = named; wildcard = wildcard; agents = agents; starting_group = false })
        ≡ after_rules (rules_of_group g) (agents_of g) named wildcard
  unfolding read_lines read_line put_agent
  read_group g agents named wildcard =
      read_lines-append (map agent g.more_agents) (map rule (rules_of_group g)) _
      ∙ ap (read_lines lower user_agent (map rule (rules_of_group g)))
          (read_agents g.more_agents (g.first_agent ∷ []) named wildcard)
      ∙ read_rules g.first_rule g.more_rules (agents_of g) named wildcard true

  read_groups :
      (gs : List Group) (agents : List Text) (named wildcard : List Rule)
      → let s = read_lines lower user_agent (lines_of_all gs) (record {
        named = named;
        wildcard = wildcard;
        agents = agents;
        starting_group = false;
      }) in
        (s.named ≡ named ++ rules_where names_program gs)
        × (s.wildcard ≡ wildcard ++ rules_where for_everyone gs)
  unfolding read_lines rules_where after_rules
  read_groups [] agents named wildcard = (sym (append-nil named), sym (append-nil wildcard))
  read_groups (g ∷ gs) agents named wildcard =
      let mine = if names_program (agents_of g) then rules_of_group g else [] in
      let everyone = if for_everyone (agents_of g) then rules_of_group g else [] in
      let rest = read_groups gs (agents_of g) (named ++ mine) (wildcard ++ everyone) in
      rw (read_lines-append (lines_of g) (lines_of_all gs), read_group g agents named wildcard)
        (
          rest.0 ∙ append_assoc named mine (rules_where names_program gs),
          rest.1 ∙ append_assoc wildcard everyone (rules_where for_everyone gs),
        )

  -- A file that is made of groups, each of some agents and some rules, gives the program the rules of
  -- all groups that name it, in their order, and if there are none the rules of all groups for
  -- everyone, however many groups there are for one agent.
  applicable-groups :
      (gs : List Group)
      → applicable lower user_agent (lines_of_all gs)
        ≡ either (rules_where (λ agents. any (names_us lower user_agent) agents) gs) (
            rules_where
              (λ agents. not (any (names_us lower user_agent) agents) && any is_wildcard agents)
              gs)
  unfolding applicable read_lines read_line put_agent rules_where
  applicable-groups [] = refl
  applicable-groups (g ∷ gs) = let s = read_groups (g ∷ gs) [] [] [] in ap₂ either s.0 s.1
