-- ===== src/Examples/Prices.antt =====
-- Prices as they are written and read.
use product_updates.Decimal.{Decimal, same}
use product_updates.Decimal.Written.{digits, padded, read_digits, read_fraction}
use product_updates.Examples.Data.{dollars}
use product_updates.Money.{float, other, parse_price}
use product_updates.Money.Currency.{is_known_code, parse_currency}
use product_updates.Money.Display.{format_money_short}
use product_updates.Money.Dollar.{dollar-never_other}
use product_updates.Money.RoundTrip.{format_money_short-reads_back}
use product_updates.Prelude.{
  text_eq, occurs_in, ◌≡◌, ◌⊎◌, ◌∷◌, [], codes, false, none, refl, some, true,
}
use product_updates.Prelude.Spaces.{strip}

format_money_short-reads_back_example :
    let shown =
      format_money_short
        (λ t. t)
        (some (record { is_negative = false; size = dollars 1299000 }))
        (some (codes "INR")) in
    (r : Decimal) × ((parse_price (other shown) ≡ some r) × (same r (dollars 1299000) ≡ true))
format_money_short-reads_back_example =
    format_money_short-reads_back (λ t. t) (dollars 1299000) (codes "INR") refl refl

dollar-never_other_example :
    let found = parse_currency (λ t. t) (λ t. t) (some (codes "a$20") ∷ []) none in
    (found ≡ some (codes "INR")) ⊎ (found ≡ some (codes "USD"))
unfolding strip is_known_code text_eq occurs_in
dollar-never_other_example =
    dollar-never_other (λ t. t) (λ t. t) (codes "a$20") [] none refl refl refl

-- A negative `float` is read without its sign.
negative_float : parse_price (float (codes "-5.0")) ≡ some (record { coefficient = 50; scale = 1 })
unfolding parse_price read_digits read_fraction
negative_float = refl

-- A large one is read as the digits in front of its exponent.
large_float : parse_price (float (codes "1e+16")) ≡ some (record { coefficient = 1; scale = 0 })
unfolding parse_price read_digits
large_float = refl

-- A fraction that rounds up loses the carry.
lost_carry :
    format_money_short
      (λ t. t)
      (some (record { is_negative = false; size = record { coefficient = 5999; scale = 3 } }))
      (some (codes "USD"))
    ≡ codes "$5.00"
unfolding format_money_short text_eq digits padded
lost_carry = refl
