-- ===== src/Money/Display.antt =====
-- utils/money.py: `format_money`, `_indian_grouping` and `format_money_short`. `str.upper` is a
-- parameter. `normalize`, which drops zeros at the end of the fraction, changes nothing of what is
-- shown for amounts of at most 28 digits.
use product_updates.Decimal.{Decimal}
use product_updates.Decimal.Signed.{Signed}
use product_updates.Decimal.Written.{digits, written}
use product_updates.Money.{comma}
use product_updates.Prelude.{
  if◌then◌else◌, ◌&&◌, ◌||◌, ◌==◌, ◌++◌, ◌-◌, ◌*◌, ◌/◌, ◌%◌, ◌^◌, ◌∷◌, [], some, none, suc, zero,
  Option, List, Text, ℕ, Bool, not, ltb, leb, length, take, codes, text_eq, is_empty,
}
use product_updates.Prelude.Joins.{join}
use product_updates.Prelude.Spaces.{strip}

-- `text[k:]`
unfoldable pub drop : ℕ → Text → Text
drop zero t = t
drop (suc k) [] = []
drop (suc k) (c ∷ t) = drop k t

-- `text[:-k]` and `text[-k:]`, of a text of at least `k` characters
unfoldable pub but_last : ℕ → Text → Text
but_last k t = take (length t - k) t

unfoldable pub last_of : ℕ → Text → Text
unfolding drop
last_of k t = drop (length t - k) t

abbrev pub with_head : Text → List Text → List Text
with_head head parts = if is_empty head then parts else head ∷ parts

-- the loop that takes `size` digits off the head; its length is fuel enough
unfoldable pub split_groups : ℕ → ℕ → Text → List Text → List Text
unfolding but_last last_of
split_groups zero size head parts = with_head head parts
split_groups (suc f) size head parts =
    let rest = split_groups f size (but_last size head) (last_of size head ∷ parts) in
    if ltb size (length head) then rest else with_head head parts

-- the last three digits, and groups of `size` digits before them
unfoldable pub grouped : ℕ → Text → Text
unfolding split_groups
grouped size whole =
    if leb (length whole) 3
    then whole
    else join (comma ∷ [])
        (split_groups (length whole) size (but_last 3 whole) (last_of 3 whole ∷ []))

-- `_indian_grouping`
unfoldable pub indian_grouping : Text → Text
unfolding grouped
indian_grouping whole = grouped 2 whole

-- `f"{whole:,}"`
unfoldable pub thousands : Text → Text
unfolding grouped
thousands whole = grouped 3 whole

-- the number of hundredths, a half rounded to the even one: the format `.2f`
unfoldable pub hundredths : Decimal → ℕ
hundredths d =
    let unit = 10 ^ (d.scale - 2) in
    let low = d.coefficient / unit in
    let rest = 2 * (d.coefficient % unit) in
    if leb d.scale 2
    then d.coefficient * 10 ^ (2 - d.scale)
    else if ltb unit rest || ((rest == unit) && (low % 2 == 1))
    then suc low
    else low

-- `_SYMBOL_FOR_CODE`
unfoldable pub symbol_for : Text → Option Text
symbol_for code =
    if text_eq code (codes "INR")
    then some (codes "₹")
    else if text_eq code (codes "USD")
    then some (codes "$")
    else if text_eq code (codes "GBP")
    then some (codes "£")
    else if text_eq code (codes "EUR")
    then some (codes "€")
    else if text_eq code (codes "JPY")
    then some (codes "¥")
    else none

abbrev pub sign_of : Bool → Text
sign_of negative = if negative then b'-' ∷ [] else []

-- `f"{amount:,.2f}"`
unfoldable pub with_places : Signed → Text
unfolding thousands hundredths written
with_places amount =
    let n = hundredths amount.size in
    sign_of amount.is_negative
    ++ thousands (digits (n / 100))
    ++ drop (length (digits (n / 100))) (written (record { coefficient = n; scale = 2 }))

-- the whole part, and what `f"{fraction:.2f}"[1:]` adds where there is a fraction
unfoldable pub whole_of : Decimal → ℕ
whole_of d = d.coefficient / 10 ^ d.scale

unfoldable pub fraction_of : Decimal → Decimal
fraction_of d = record { coefficient = d.coefficient % 10 ^ d.scale; scale = d.scale }

unfoldable pub shown_fraction : Decimal → Text
unfolding hundredths written drop
shown_fraction fraction =
    if fraction.coefficient == 0
    then []
    else drop 1 (written (record { coefficient = hundredths fraction; scale = 2 }))

-- `rendered`
unfoldable pub rendered : Text → Decimal → Text
unfolding indian_grouping thousands whole_of fraction_of shown_fraction
rendered code size =
    let whole = digits (whole_of size) in
    (if text_eq code (codes "INR") then indian_grouping whole else thousands whole)
    ++ shown_fraction (fraction_of size)

abbrev pub or_empty : Option Text → Text
or_empty none = []
or_empty (some t) = t

module _ (upper : Text → Text) where
  unfoldable pub format_amount : Signed → Option Text → Text
  unfolding symbol_for with_places
  format_amount amount currency = elim (symbol_for (upper (or_empty currency))) [
    | some symbol ↦ symbol ++ with_places amount
    | none ↦
        if is_empty (or_empty currency)
        then with_places amount
        else with_places amount ++ b' ' ∷ upper (or_empty currency)
  ]

  -- `format_money`
  unfoldable pub format_money : Option Signed → Option Text → Text
  unfolding format_amount
  format_money none currency = codes "not listed"
  format_money (some amount) currency = format_amount amount currency

  unfoldable pub format_short : Bool → Decimal → Text → Text
  unfolding symbol_for rendered strip
  format_short negative size code =
      let sign = sign_of (negative && not (size.coefficient == 0)) in
      elim (symbol_for code) [
        | some symbol ↦ sign ++ (symbol ++ rendered code size)
        | none ↦ strip (sign ++ (rendered code size ++ b' ' ∷ code))
      ]

  -- `format_money_short`
  unfoldable pub format_money_short : Option Signed → Option Text → Text
  unfolding format_short
  format_money_short none currency = b'-' ∷ []
  format_money_short (some amount) currency =
      format_short amount.is_negative amount.size (upper (or_empty currency))
