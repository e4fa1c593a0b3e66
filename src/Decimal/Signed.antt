-- ===== src/Decimal/Signed.antt =====
-- Python's `Decimal` subtraction: the one operation here whose result may be negative.
use product_updates.Decimal.{Decimal, below}
use product_updates.Prelude.{◌-◌, ◌*◌, ◌^◌, max, Bool, true, false, if◌then◌else◌}

-- a sign and a size
pub record Signed : Type 0 where
  pub is_negative : Bool
  pub size : Decimal

-- `a - b` where it is not negative: the scale of the result is the larger of the two.
unfoldable pub excess : Decimal → Decimal → Decimal
excess a b =
    let scale = max a.scale b.scale in
    record {
      coefficient = a.coefficient * 10 ^ (scale - a.scale) - b.coefficient * 10 ^ (scale - b.scale);
      scale = scale;
    }

-- `a - b`
unfoldable pub minus : Decimal → Decimal → Signed
unfolding excess
minus a b =
    if below a b
    then record { is_negative = true; size = excess b a }
    else record { is_negative = false; size = excess a b }
