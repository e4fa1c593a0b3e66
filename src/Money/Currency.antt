-- ===== src/Money/Currency.antt =====
-- utils/money.py: `parse_currency`. `str.upper` and `str.lower` are parameters.
use product_updates.Prelude.{
  if◌then◌else◌, ◌∷◌, [], some, none, Option, List, Text, Bool, codes, text_eq, any, is_empty,
  occurs_in,
}
use product_updates.Prelude.Spaces.{strip}

-- `CURRENCY_SYMBOLS`
abbrev pub currency_symbols : List (Text × Text)
currency_symbols =
    (codes "₹", codes "INR")
    ∷ (codes "rs.", codes "INR")
    ∷ (codes "rs", codes "INR")
    ∷ (codes "inr", codes "INR")
    ∷ (codes "$", codes "USD")
    ∷ (codes "usd", codes "USD")
    ∷ (codes "£", codes "GBP")
    ∷ (codes "gbp", codes "GBP")
    ∷ (codes "€", codes "EUR")
    ∷ (codes "eur", codes "EUR")
    ∷ (codes "¥", codes "JPY")
    ∷ (codes "jpy", codes "JPY")
    ∷ (codes "a$", codes "AUD")
    ∷ (codes "aud", codes "AUD")
    ∷ (codes "c$", codes "CAD")
    ∷ (codes "cad", codes "CAD")
    ∷ []

-- the code of the first symbol that occurs
unfoldable pub code_of : List (Text × Text) → Text → Option Text
unfolding occurs_in
code_of [] lowered = none
code_of ((symbol, code) ∷ symbols) lowered =
    if occurs_in symbol lowered then some code else code_of symbols lowered

-- `_KNOWN_CODES`; each has the form of `_ISO_CODE`.
unfoldable pub is_known_code : Text → Bool
is_known_code code = any (λ entry. text_eq entry.1 code) currency_symbols

module _ (upper lower : Text → Text) where
  -- what one candidate gives
  unfoldable pub currency_in : Text → Option Text
  unfolding code_of is_known_code
  currency_in stripped =
      if is_empty stripped
      then none
      else if is_known_code (upper stripped)
      then some (upper stripped)
      else code_of currency_symbols (lower stripped)

  abbrev or_later : Option Text → Option Text → Option Text
  or_later (some code) later = some code
  or_later none later = later

  -- `parse_currency`
  unfoldable pub parse_currency : List (Option Text) → Option Text → Option Text
  unfolding currency_in strip
  parse_currency [] default = default
  parse_currency (none ∷ candidates) default = parse_currency candidates default
  parse_currency (some text ∷ candidates) default =
      or_later (currency_in (strip text)) (parse_currency candidates default)
