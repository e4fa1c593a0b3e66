-- ===== src/Decimal.antt =====
-- Python's `Decimal` for numbers that are not negative, and the column type `Numeric(12, 2)` of
-- db/models.py in which prices are stored.
-- A price of ten or more digits before the point is refused by the column: that error of the
-- database is not modelled.
pub mod Order
pub mod Money
pub mod Places
pub mod Written
pub mod Signed
use product_updates.Prelude.{ℕ, ◌+◌, ◌-◌, ◌*◌, ◌/◌, ◌^◌, Bool, ltb, leb, ◌==◌, if◌then◌else◌}

-- `coefficient / 10 ^ scale`
pub record Decimal : Type 0 where
  pub coefficient : ℕ
  pub scale : ℕ

-- `==` compares numbers: `Decimal("5")` equals `Decimal("5.00")`.
unfoldable pub same : Decimal → Decimal → Bool
same a b = a.coefficient * 10 ^ b.scale == b.coefficient * 10 ^ a.scale

-- `<`
unfoldable pub below : Decimal → Decimal → Bool
below a b = ltb (a.coefficient * 10 ^ b.scale) (b.coefficient * 10 ^ a.scale)

-- What a `Numeric(12, 2)` column holds of a value: two places, a half rounded up.
unfoldable pub to_money : Decimal → Decimal
to_money d =
    let unit = 10 ^ (d.scale - 2) in
    if leb d.scale 2
    then record { coefficient = d.coefficient * 10 ^ (2 - d.scale); scale = 2 }
    else record { coefficient = (2 * d.coefficient + unit) / (2 * unit); scale = 2 }
