-- ===== src/Decimal/Written/Reading.antt =====
-- What is written is read back.
use mathlib.Core.Option
use mathlib.Core.List.{append_assoc, append-nil}
use mathlib.Core.Path.{ap₂}
use native.Mathlib.Nat.{pow-suc, div-add-mod', mod-lt}
use product_updates.Decimal.{Decimal}
use product_updates.Decimal.Order.{ten_pow_pos}
use product_updates.Decimal.Written.{
  is_digit, point, padded, digits_fuel, digits, written, read_fraction, read_digits, read_decimal,
}
use product_updates.Prelude.{
  ℕ, zero, suc, ◌+◌, ◌-◌, ◌*◌, ◌/◌, ◌%◌, ◌^◌, ◌<◌, ◌≡◌, refl, ap, ◌∙◌, sym, [], ◌∷◌, ◌++◌, Text,
  some, arith, ltb, ◌==◌, Bool-cases, true, false, inl, inr, ltb→lt,
}

-- one more digit
read_fraction-digit :
    (n k d : ℕ) (t : Text)
    → d < 10
    → read_fraction n k ((b'0' + d) ∷ t) ≡ read_fraction (n * 10 + d) (suc k) t
unfolding read_fraction
read_fraction-digit n k d t h = ground arith

read_digits-digit :
    (n d : ℕ) (t : Text) → d < 10 → read_digits n ((b'0' + d) ∷ t) ≡ read_digits (n * 10 + d) t
unfolding read_digits
read_digits-digit n d t h = let e : b'0' + d - b'0' ≡ d = omega arith in ground arith

read_fraction-padded :
    (w n k m : ℕ) (t : Text)
    → m < 10 ^ w
    → read_fraction n k (padded w m ++ t) ≡ read_fraction (n * 10 ^ w + m) (k + w) t
unfolding padded
read_fraction-padded zero n k m t h = ap₂ (λ a b. read_fraction a b t) (omega arith) (omega arith)
read_fraction-padded (suc w) n k m t h = rw append_assoc (
    read_fraction-padded w n k (m / 10) ((b'0' + m % 10) ∷ t) (omega (arith, pow-suc 10 w))
    ∙ read_fraction-digit (n * 10 ^ w + m / 10) (k + w) (m % 10) t (omega arith)
    ∙ ap₂ (λ a b. read_fraction a b t) (omega (arith, ap (λ (u : ℕ). n * u) (pow-suc 10 w)))
        (omega arith))

-- `digits` at the front of a text adds its number to a multiple of what was read before.
read_digits-digits_fuel :
    (f n m : ℕ) (t : Text)
    → m < f
    → (p : ℕ) × (read_digits n (digits_fuel f m ++ t) ≡ read_digits (n * p + m) t)
unfolding digits_fuel
read_digits-digits_fuel zero n m t h = absurd (omega arith)
read_digits-digits_fuel (suc f) n m t h = elim (Bool-cases (ltb m 10)) [
  | inl small ↦ (10, rw small (read_digits-digit n m t (ltb→lt m 10 small)))
  | inr large ↦
      let more = read_digits-digits_fuel f n (m / 10) ((b'0' + m % 10) ∷ t) (ground arith) in
      (
        more.0 * 10,
        rw (large, append_assoc)
            (more.1
              ∙ read_digits-digit (n * more.0 + m / 10) (m % 10) t (omega arith)
              ∙ ap (λ a. read_digits a t) (omega arith)),
      )
]

read_digits-digits : (m : ℕ) (t : Text) → read_digits 0 (digits m ++ t) ≡ read_digits m t
unfolding digits
read_digits-digits m t =
    let r = read_digits-digits_fuel (suc m) 0 m t (omega arith) in
    r.1 ∙ ap (λ a. read_digits a t) (omega arith)

read_fraction-padded_whole :
    (d : Decimal)
    → read_fraction (d.coefficient / 10 ^ d.scale) 0 (padded d.scale (d.coefficient % 10 ^ d.scale))
      ≡ some d
unfolding read_fraction
read_fraction-padded_whole d =
    let unit = 10 ^ d.scale in
    ap (read_fraction (d.coefficient / unit) 0)
      (sym (append-nil (padded d.scale (d.coefficient % unit))))
    ∙ read_fraction-padded d.scale (d.coefficient / unit) 0 (d.coefficient % unit) []
        (mod-lt d.coefficient (ten_pow_pos d.scale))
    ∙ ap₂ (λ a b. some (record { coefficient = a; scale = b }))
        (div-add-mod' d.coefficient unit ∙ refl) (omega arith)

read_digits-written : (d : Decimal) → read_digits 0 (written d) ≡ some d
unfolding written read_digits
read_digits-written d = elim (Bool-cases (d.scale == 0)) [
  | inl whole ↦ rw whole (
      ap (read_digits 0) (sym (append-nil (digits d.coefficient)))
      ∙ read_digits-digits d.coefficient []
      ∙ ground arith)
  | inr part ↦ rw part (
      read_digits-digits (d.coefficient / 10 ^ d.scale)
        (point ∷ padded d.scale (d.coefficient % 10 ^ d.scale))
      ∙ read_fraction-padded_whole d)
]

-- A text that begins with a digit.
abbrev pub DigitFirst : Text → Type 0
DigitFirst t = (c : ℕ) × (rest : Text) × (t ≡ c ∷ rest) × (is_digit c ≡ true)

DigitFirst-append : (s t : Text) → DigitFirst s → DigitFirst (s ++ t)
DigitFirst-append s t (c, rest, e, h) = (c, rest ++ t, ap (λ u. u ++ t) e, h)

digits_fuel-DigitFirst : (f m : ℕ) → m < f → DigitFirst (digits_fuel f m)
unfolding digits_fuel
digits_fuel-DigitFirst zero m h = absurd (omega arith)
digits_fuel-DigitFirst (suc f) m h = elim (Bool-cases (ltb m 10)) [
  | inl small ↦ rw small (b'0' + m, [], refl, ground arith)
  | inr large ↦ rw large (
      DigitFirst-append (digits_fuel f (m / 10)) ((b'0' + m % 10) ∷ [])
        (digits_fuel-DigitFirst f (m / 10) (ground arith)))
]

digits-DigitFirst : (m : ℕ) → DigitFirst (digits m)
unfolding digits
digits-DigitFirst m = digits_fuel-DigitFirst (suc m) m (omega arith)

pub written-DigitFirst : (d : Decimal) → DigitFirst (written d)
unfolding written
written-DigitFirst d = elim (Bool-cases (d.scale == 0)) [
  | inl whole ↦ rw whole (digits-DigitFirst d.coefficient)
  | inr part ↦ rw part (DigitFirst-append _ _ (digits-DigitFirst (d.coefficient / 10 ^ d.scale)))
]

read_decimal-digit :
    (c : ℕ) (t : Text)
    → is_digit c ≡ true
    → read_decimal (c ∷ t) ≡ Option.map (λ d. (false, d)) (read_digits 0 (c ∷ t))
unfolding read_decimal
read_decimal-digit c [] h = ground arith
read_decimal-digit c (e ∷ t) h = ground arith

-- Python's `Decimal(str(d))` is `d`, digit for digit, with no sign.
pub read_decimal-written : (d : Decimal) → read_decimal (written d) ≡ some (false, d)
read_decimal-written d =
    let (c, rest, e, h) = written-DigitFirst d in
    ap read_decimal e
    ∙ read_decimal-digit c rest h
    ∙ ap (λ t. Option.map (λ v. (false, v)) (read_digits 0 t)) (sym e)
    ∙ ap (Option.map (λ v. (false, v))) (read_digits-written d)
