-- ===== src/Robots/Lines.antt =====
-- stores/robots.py: the lines of a robots.txt, as `rules_for` takes them apart.
use product_updates.Prelude.{
  if◌then◌else◌, ◌&&◌, ◌||◌, ◌==◌, ◌∷◌, [], some, none, Option, List, Text, ℕ, Bool, true, false,
  map, codes, leb, text_eq,
}
use product_updates.Prelude.Spaces.{strip}
use product_updates.Robots.{Line, Rule, agent, rule, other, rules_for_lines}

-- the line boundaries of `str.splitlines`
abbrev is_line_end : ℕ → Bool
is_line_end c =
    (leb 10 c && leb c 13) || (leb 28 c && leb c 30) || (c == 133) || (c == 8232) || (c == 8233)

abbrev put_first : ℕ → List Text → List Text
put_first c [] = (c ∷ []) ∷ []
put_first c (l ∷ ls) = (c ∷ l) ∷ ls

-- `body.splitlines()`; the empty lines that it leaves out or makes more of count for nothing
unfoldable pub splitlines : Text → List Text
splitlines [] = []
splitlines (c ∷ t) =
    let rest = splitlines t in if is_line_end c then [] ∷ rest else put_first c rest

-- `raw.split("#", 1)[0]`, and what stands before a colon
unfoldable pub text_before : ℕ → Text → Text
text_before mark [] = []
text_before mark (c ∷ t) = let rest = text_before mark t in if c == mark then [] else c ∷ rest

-- what stands behind the first colon, if there is one
unfoldable pub text_behind : ℕ → Text → Option Text
text_behind mark [] = none
text_behind mark (c ∷ t) = let rest = text_behind mark t in if c == mark then some t else rest

module _ (lower : Text → Text) where
  unfoldable pub line_of : Text → Text → Line
  line_of field value =
      if text_eq field (codes "user-agent") || text_eq field (codes "useragent")
      then agent value
      else if text_eq field (codes "allow")
      then rule (record { allows = true; path = value })
      else if text_eq field (codes "disallow")
      then rule (record { allows = false; path = value })
      else other

  abbrev field_and_value : Text → Option Text → Line
  unfolding line_of strip
  field_and_value line none = other
  field_and_value line (some value) = line_of (lower (strip (text_before b':' line))) (strip value)

  -- one line of the file
  unfoldable pub parse_line : Text → Line
  unfolding field_and_value text_before text_behind strip
  parse_line raw =
      let line = strip (text_before b'#' raw) in field_and_value line (text_behind b':' line)

  -- `rules_for`
  unfoldable pub rules_for : Text → Text → List Rule
  unfolding rules_for_lines parse_line splitlines
  rules_for body user_agent = rules_for_lines lower user_agent (map parse_line (splitlines body))
