-- ===== src/Money/RoundTrip.antt =====
-- What the grid shows of a price in rupees is the price: it reads back as the same amount.
use mathlib.Core.List.{append-nil}
use mathlib.Core.Path.{subst}
use product_updates.Decimal.{Decimal, same}
use product_updates.Decimal.Order.{same_refl}
use product_updates.Decimal.Written.{digits, padded, point, written}
use product_updates.Decimal.Written.Digits.{digits-All_digits, padded-All_digits, length-padded}
use product_updates.Decimal.Written.Reading.{read_decimal-written, written-DigitFirst}
use product_updates.Money.{
  parse_price, parse_text, read_normalised, other, not_negative, normalise_separators,
}
use product_updates.Money.Display.{
  format_money_short, format_short, fraction_of, indian_grouping, rendered, shown_fraction,
  symbol_for, whole_of, hundredths, drop,
}
use product_updates.Money.Normal.{Cents, normalise-fraction, normalise-whole}
use product_updates.Money.Reading.{IsShown, IsShown-fraction, grouped-IsShown, parse-symbol}
use product_updates.Prelude.{
  ◌≡◌, ◌<◌, ◌++◌, ◌∷◌, ◌/◌, ◌%◌, ◌*◌, ◌==◌, [], refl, sym, ap, ◌∙◌, Text, ℕ, true, false, arith,
  length, Bool-cases, inl, inr, some, codes, ==_iff, text_eq,
}

-- the price of `n` hundredths
abbrev priced : ℕ → Decimal
priced n = record { coefficient = n; scale = 2 }

abbrev whole_number : ℕ → Decimal
whole_number n = record { coefficient = n; scale = 0 }

padded-Cents : (n : ℕ) → Cents (padded 2 n)
padded-Cents n = record { digits = padded-All_digits 2 n; two = length-padded 2 n }

length-digits : (n : ℕ) → 0 < length (digits n)
unfolding written
length-digits n =
    let (c, rest, e, h) = written-DigitFirst (whole_number n) in
    let same_text : digits n ≡ c ∷ rest = e in omega (arith, ap length same_text)

shown_fraction-whole : (n : ℕ) → n % 100 ≡ 0 → shown_fraction (fraction_of (priced n)) ≡ []
unfolding shown_fraction fraction_of
shown_fraction-whole n h = ground (arith, h)

shown_fraction-cents :
    (n : ℕ)
    → (n % 100 == 0) ≡ false
    → shown_fraction (fraction_of (priced n)) ≡ point ∷ padded 2 (n % 100)
unfolding shown_fraction fraction_of hundredths written drop digits
shown_fraction-cents n h =
    let none_whole : n % 100 * 1 / 100 ≡ 0 = omega arith in
    let all_cents : n % 100 * 1 % 100 ≡ n % 100 = omega arith in rw (h, none_whole, all_cents) refl

-- the digits of the whole part, in groups
abbrev shown_whole : ℕ → Text
shown_whole n = indian_grouping (digits (whole_of (priced n)))

shown_whole-IsShown : (n : ℕ) → IsShown (shown_whole n)
unfolding indian_grouping
shown_whole-IsShown n =
    grouped-IsShown 2 (digits (whole_of (priced n))) (omega arith) (digits-All_digits _)
      (length-digits _)

-- A whole amount reads back as its whole number.
read-whole :
    (n : ℕ) → read_normalised (normalise_separators (shown_whole n)) ≡ some (whole_number (n / 100))
unfolding read_normalised indian_grouping whole_of not_negative written
read-whole n =
    rw
      (
        normalise-whole 2 (digits (n / 100)) (omega arith) (digits-All_digits (n / 100)),
        read_decimal-written (whole_number (n / 100)),
      )
      refl

read-cents :
    (n : ℕ)
    → read_normalised (normalise_separators (shown_whole n ++ point ∷ padded 2 (n % 100)))
      ≡ some (priced n)
unfolding read_normalised indian_grouping whole_of not_negative written
read-cents n =
    rw
      (
        normalise-fraction 2 (digits (n / 100)) (padded 2 (n % 100)) (omega arith)
            (digits-All_digits (n / 100)) (padded-Cents (n % 100)),
        read_decimal-written (priced n),
      )
      refl

whole_number-same : (n : ℕ) → n % 100 ≡ 0 → same (whole_number (n / 100)) (priced n) ≡ true
unfolding same
whole_number-same n h = ground (arith, h)

-- What is shown, and what is read of it.
abbrev ReadsBack : Decimal → Text → Type 0
ReadsBack d t = (r : Decimal) × ((parse_text t ≡ some r) × (same r d ≡ true))

parse-rendered : (n : ℕ) → ReadsBack (priced n) (8377 ∷ rendered (codes "INR") (priced n))
unfolding rendered text_eq
parse-rendered n = elim (Bool-cases (n % 100 == 0)) [
  | inl whole ↦
      let no_cents = (==_iff (n % 100) 0).0 whole in
      let shown = shown_whole-IsShown n in
      (
        whole_number (n / 100),
        (
          rw (shown_fraction-whole n no_cents, append-nil (shown_whole n))
              (parse-symbol 8377 (shown_whole n) refl refl shown.first shown.plain shown.ends
                ∙ read-whole n),
          whole_number-same n no_cents,
        ),
      )
  | inr cents ↦
      let shown =
        IsShown-fraction (shown_whole n) (padded 2 (n % 100)) (shown_whole-IsShown n)
          (padded-Cents (n % 100)) in
      (
        priced n,
        (
          rw (shown_fraction-cents n cents)
              (parse-symbol 8377 _ refl refl shown.first shown.plain shown.ends ∙ read-cents n),
          same_refl (priced n),
        ),
      )
]

-- A stored price of any size, shown in rupees for a table (`₹12,99,000`, `₹82,900.50`), reads back
-- through `parse_price` as a price equal to it.
pub format_money_short-reads_back :
    (upper : Text → Text) (price : Decimal) (currency : Text)
    → price.scale ≡ 2
    → upper currency ≡ codes "INR"
    → let shown =
        format_money_short upper
          (some (record { is_negative = false; size = price }))
          (some currency) in
      (r : Decimal) × ((parse_price (other shown) ≡ some r) × (same r price ≡ true))
unfolding format_money_short parse_price format_short symbol_for text_eq
format_money_short-reads_back upper price currency two rupees =
    let e : priced price.coefficient ≡ price =
      ap (λ s. record { coefficient = price.coefficient; scale = s }) (sym two) in
    rw rupees (
      subst (λ d. ReadsBack d (8377 ∷ rendered (codes "INR") d)) e
        (parse-rendered price.coefficient))
