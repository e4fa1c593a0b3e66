-- ===== src/Money.antt =====
-- utils/money.py: `parse_price` and `_normalise_separators`. Currencies and the display of a price
-- are modules below.
pub mod Currency
pub mod Display
pub mod Grouping
pub mod Splitting
pub mod Normal
pub mod Dollar
pub mod Reading
pub mod RoundTrip
use mathlib.Core.Option
use product_updates.Decimal.{Decimal}
use product_updates.Decimal.Signed.{Signed}
use product_updates.Decimal.Written.{is_digit, point, read_decimal}
use product_updates.Prelude.{
  if◌then◌else◌, ◌&&◌, ◌||◌, ◌==◌, ◌++◌, ◌∷◌, [], some, none, suc, zero, Option, List, Text, ℕ,
  Bool, true, false, not, ltb, leb, length, keep, any, map, is_empty,
}
use product_updates.Prelude.Spaces.{is_space, strip}

abbrev pub comma : ℕ
comma = b','

-- `c in number`
unfoldable pub contains : ℕ → Text → Bool
contains c t = any (λ d. d == c) t

-- `number.replace(c, "")`
unfoldable pub remove : ℕ → Text → Text
remove c t = keep (λ d. not (d == c)) t

-- `number.replace(c, d)`
unfoldable pub replace : ℕ → ℕ → Text → Text
replace c d t = map (λ e. if e == c then d else e) t

-- `number.rindex(c)`, with `none` where it raises
unfoldable pub rindex : ℕ → Text → Option ℕ
rindex c [] = none
rindex c (d ∷ t) = elim (rindex c t) [
  | none ↦ if d == c then some zero else none
  | some i ↦ some (suc i)
]

-- `i > j`
abbrev pub comes_later : Option ℕ → Option ℕ → Bool
comes_later (some i) (some j) = ltb j i
comes_later _ _ = false

abbrev pub before_first : ℕ → List Text → List Text
before_first c [] = (c ∷ []) ∷ []
before_first c (p ∷ ps) = (c ∷ p) ∷ ps

-- `number.split(sep)`
unfoldable pub split : ℕ → Text → List Text
split sep [] = [] ∷ []
split sep (c ∷ t) = let rest = split sep t in if c == sep then [] ∷ rest else before_first c rest

-- `"".join(parts)`
unfoldable pub concat : List Text → Text
concat [] = []
concat (p ∷ ps) = p ++ concat ps

-- `parts[0]` and `parts[-1]`
abbrev pub first_part : List Text → Text
first_part [] = []
first_part (p ∷ ps) = p

abbrev pub last_part : List Text → Text
last_part [] = []
last_part (p ∷ []) = p
last_part (p ∷ q ∷ ps) = last_part (q ∷ ps)

-- one kind of separator that occurs several times, or once
unfoldable pub resolve_repeated : List Text → Option Text
unfolding concat
resolve_repeated parts = if length (last_part parts) == 3 then some (concat parts) else none

unfoldable pub resolve_comma : List Text → Option Text
unfolding concat
resolve_comma parts =
    let tail = last_part parts in
    if length tail == 3
    then some (concat parts)
    else if (length tail == 1) || (length tail == 2)
    then some (first_part parts ++ point ∷ tail)
    else none

unfoldable pub resolve_dot : List Text → Option Text
resolve_dot parts =
    let head = first_part parts in
    let tail = last_part parts in
    if (length tail == 3) && leb (length head) 3 then none else some (head ++ point ∷ tail)

unfoldable pub resolve_parts : Bool → List Text → Option Text
unfolding resolve_repeated resolve_comma resolve_dot
resolve_parts is_comma parts =
    if ltb 2 (length parts)
    then resolve_repeated parts
    else if is_comma
    then resolve_comma parts
    else resolve_dot parts

-- `_normalise_separators`
unfoldable pub normalise_separators : Text → Option Text
unfolding resolve_parts contains rindex remove replace split
normalise_separators number =
    let has_comma = contains comma number in
    let has_dot = contains point number in
    if not has_comma && not has_dot
    then some number
    else if has_comma && has_dot
    then (if comes_later (rindex comma number) (rindex point number)
        then some (replace comma point (remove point number))
        else some (remove comma number))
    else resolve_parts has_comma (split (if has_comma then comma else point) number)

-- the characters of `_SEPARATORS`
abbrev pub is_separator : ℕ → Bool
is_separator c = is_space c || (c == 160) || (c == 8239) || (c == b'\'')

abbrev pub in_number : ℕ → Bool
in_number c = is_digit c || (c == comma) || (c == point) || is_separator c

-- the longest start of a text whose characters all belong to a number
unfoldable pub number_run : Text → Text
number_run [] = []
number_run (c ∷ t) = let rest = number_run t in if in_number c then c ∷ rest else []

-- `_DIGITS_AND_SEPARATORS.search(text)`
unfoldable pub search_number : Text → Option Text
unfolding number_run
search_number [] = none
search_number (c ∷ t) =
    let later = search_number t in if is_digit c then some (number_run (c ∷ t)) else later

abbrev pub is_mark : ℕ → Bool
is_mark c = (c == comma) || (c == point)

-- `rstrip(".,")`
unfoldable pub drop_last_marks : Text → Text
drop_last_marks [] = []
drop_last_marks (c ∷ t) =
    let rest = drop_last_marks t in if is_empty rest && is_mark c then [] else c ∷ rest

-- `parsed if parsed >= 0 else None`
unfoldable pub not_negative : Option (Bool × Decimal) → Option Decimal
not_negative none = none
not_negative (some (negative, d)) = if negative && not (d.coefficient == 0) then none else some d

-- `Decimal(normalised)`, where the separators were resolved
abbrev pub read_normalised : Option Text → Option Decimal
unfolding not_negative read_decimal
read_normalised none = none
read_normalised (some normalised) = not_negative (read_decimal normalised)

-- the end of `parse_price`, from the text that the search found
unfoldable pub read_found : Option Text → Option Decimal
unfolding drop_last_marks read_normalised normalise_separators
read_found none = none
read_found (some found) =
    let number = drop_last_marks (keep (λ c. not (is_separator c)) found) in
    if is_empty number then none else read_normalised (normalise_separators number)

-- `parse_price` of a text
unfoldable pub parse_text : Text → Option Decimal
unfolding read_found search_number strip
parse_text t = read_found (search_number (strip t))

-- What `parse_price` is given. A `float` comes with its `repr`, anything else with its `str`.
pub data PriceValue : Type 0 where
  absent : PriceValue
  decimal : Signed → PriceValue
  integer : Bool → ℕ → PriceValue
  float : Text → PriceValue
  other : Text → PriceValue

-- `parse_price`
unfoldable pub parse_price : PriceValue → Option Decimal
unfolding not_negative parse_text
parse_price absent = none
parse_price (decimal d) = not_negative (some (d.is_negative, d.size))
parse_price (integer negative n) =
    not_negative (some (negative, record { coefficient = n; scale = 0 }))
parse_price (float repr) = parse_text repr
parse_price (other t) = parse_text t
