-- ===== src/Decimal/Written.antt =====
-- `str(Decimal)` and the constructor `Decimal(text)`: the decimal digits of a number.
-- Read are an optional sign, digits and one point; the constructor's other forms (exponents,
-- `_` between digits, `NaN`, `Infinity`, white space) are refused here. Python writes a number
-- below 0.000001 with an exponent; here it is written out.
pub mod Reading
pub mod Digits
use mathlib.Core.Option
use product_updates.Decimal.{Decimal}
use product_updates.Prelude.{
  ℕ, zero, suc, ◌+◌, ◌-◌, ◌*◌, ◌/◌, ◌%◌, ◌^◌, Bool, true, false, List, [], ◌∷◌, ◌++◌, Text, Option,
  none, some, ltb, leb, ◌==◌, ◌&&◌, if◌then◌else◌,
}

abbrev pub point : ℕ
point = b'.'

-- the last `k` digits of a number, leading zeros included
unfoldable pub padded : ℕ → ℕ → Text
padded zero n = []
padded (suc k) n = padded k (n / 10) ++ (b'0' + n % 10) ∷ []

-- the digits of a number; there are at most as many as the fuel
digits_fuel : ℕ → ℕ → Text
digits_fuel zero n = []
digits_fuel (suc f) n =
    let rest = digits_fuel f (n / 10) in
    if ltb n 10 then (b'0' + n) ∷ [] else rest ++ (b'0' + n % 10) ∷ []

-- `str(n)`
unfoldable pub digits : ℕ → Text
unfolding digits_fuel
digits n = digits_fuel (suc n) n

-- `str(d)`
unfoldable pub written : Decimal → Text
written d =
    if d.scale == 0
    then digits d.coefficient
    else digits (d.coefficient / 10 ^ d.scale)
      ++ point ∷ padded d.scale (d.coefficient % 10 ^ d.scale)

abbrev pub is_digit : ℕ → Bool
is_digit c = leb b'0' c && leb c b'9'

-- the digits behind the point
unfoldable pub read_fraction : ℕ → ℕ → Text → Option Decimal
read_fraction n k [] = some (record { coefficient = n; scale = k })
read_fraction n k (c ∷ t) =
    if is_digit c then read_fraction (n * 10 + (c - b'0')) (suc k) t else none

-- the digits before the point, of which `n` is read
unfoldable pub read_digits : ℕ → Text → Option Decimal
read_digits n [] = some (record { coefficient = n; scale = 0 })
read_digits n (c ∷ t) =
    let more = read_digits (n * 10 + (c - b'0')) t in
    if is_digit c then more else if c == point then read_fraction n 0 t else none

-- at least one digit is wanted
unsigned : Bool → Text → Option (Bool × Decimal)
unsigned negative [] = none
unsigned negative (c ∷ []) =
    if is_digit c then Option.map (λ d. (negative, d)) (read_digits 0 (c ∷ [])) else none
unsigned negative (c ∷ e ∷ t) = Option.map (λ d. (negative, d)) (read_digits 0 (c ∷ e ∷ t))

-- the value and whether it has a minus sign
unfoldable pub read_decimal : Text → Option (Bool × Decimal)
unfolding unsigned
read_decimal [] = none
read_decimal (c ∷ t) =
    if c == b'-'
    then unsigned true t
    else if c == b'+'
    then unsigned false t
    else unsigned false (c ∷ t)
