-- ===== src/Decimal/Written/Digits.antt =====
-- What a written number is made of: digits, and a point.
use product_updates.Decimal.{Decimal}
use product_updates.Decimal.Written.{
  digits, digits_fuel, padded, written, point, is_digit, read_decimal,
}
use product_updates.Decimal.Written.Reading.{read_decimal-written}
use product_updates.Prelude.{
  ℕ, zero, suc, ◌+◌, ◌/◌, ◌%◌, ◌^◌, ◌<◌, ◌≡◌, ◌≢◌, sym, ap, ◌∙◌, arith, Bool-cases, false, inl, inr,
  ltb, ◌==◌, some, Option, Bool, length, All, true, length-append, All-append, refl,
}
use product_updates.Prelude.Joins.{Lacks, Lacks-append}

-- a character that no number is written with
abbrev pub Foreign : ℕ → Type 0
Foreign sep = (is_digit sep ≡ false) × (sep ≢ point)

digit-ne : (sep d : ℕ) → is_digit sep ≡ false → d < 10 → b'0' + d ≢ sep
digit-ne sep d h lt = ground arith

digits_fuel-Lacks : (sep f n : ℕ) → is_digit sep ≡ false → Lacks sep (digits_fuel f n)
unfolding digits_fuel
digits_fuel-Lacks sep zero n h = tt
digits_fuel-Lacks sep (suc f) n h = elim (Bool-cases (ltb n 10)) [
  | inl small ↦ rw small (digit-ne sep n h (ground arith), tt)
  | inr large ↦ rw large (
      Lacks-append sep (digits_fuel f (n / 10)) _ (digits_fuel-Lacks sep f (n / 10) h)
        (digit-ne sep (n % 10) h (omega arith), tt))
]

pub digits-Lacks : (sep n : ℕ) → is_digit sep ≡ false → Lacks sep (digits n)
unfolding digits
digits-Lacks sep n h = digits_fuel-Lacks sep (suc n) n h

padded-Lacks : (sep k n : ℕ) → is_digit sep ≡ false → Lacks sep (padded k n)
unfolding padded
padded-Lacks sep zero n h = tt
padded-Lacks sep (suc k) n h =
    Lacks-append sep (padded k (n / 10)) _ (padded-Lacks sep k (n / 10) h)
      (digit-ne sep (n % 10) h (omega arith), tt)

pub written-Lacks : (sep : ℕ) (d : Decimal) → Foreign sep → Lacks sep (written d)
unfolding written
written-Lacks sep d (h, ne) = elim (Bool-cases (d.scale == 0)) [
  | inl whole ↦ rw whole (digits-Lacks sep d.coefficient h)
  | inr part ↦ rw part (
      Lacks-append sep (digits (d.coefficient / 10 ^ d.scale)) _
        (digits-Lacks sep (d.coefficient / 10 ^ d.scale) h)
        ((λ e. ne (sym e)), padded-Lacks sep d.scale (d.coefficient % 10 ^ d.scale) h))
]

-- Two decimals that are written alike are the same, digit for digit.
pub written_injective : (d e : Decimal) → written d ≡ written e → d ≡ e
written_injective d e h =
    let p : ◌≡◌ {A = Option (Bool × Decimal)} (some (false, d)) (some (false, e)) =
      sym (read_decimal-written d) ∙ ap read_decimal h ∙ read_decimal-written e in
    cc

-- So are two numbers.
pub digits_injective : (m n : ℕ) → digits m ≡ digits n → m ≡ n
unfolding written
digits_injective m n h =
    ap (λ d. d.coefficient)
      (written_injective (record { coefficient = m; scale = 0 })
        (record { coefficient = n; scale = 0 }) h)

-- Every character written for a number is a digit.
digits_fuel-All_digits : (f n : ℕ) → All (λ c. is_digit c ≡ true) (digits_fuel f n)
unfolding digits_fuel
digits_fuel-All_digits zero n = tt
digits_fuel-All_digits (suc f) n = elim (Bool-cases (ltb n 10)) [
  | inl small ↦ rw small (ground (arith, small), tt)
  | inr large ↦
      let last : is_digit (b'0' + n % 10) ≡ true =
        let lt : n % 10 < 10 = omega arith in ground arith in
      rw large
        (All-append (λ c. is_digit c ≡ true) _ _ (digits_fuel-All_digits f (n / 10)) (last, tt))
]

pub digits-All_digits : (n : ℕ) → All (λ c. is_digit c ≡ true) (digits n)
unfolding digits
digits-All_digits n = digits_fuel-All_digits (suc n) n

pub padded-All_digits : (k n : ℕ) → All (λ c. is_digit c ≡ true) (padded k n)
unfolding padded
padded-All_digits zero n = tt
padded-All_digits (suc k) n =
    let last : is_digit (b'0' + n % 10) ≡ true =
      let lt : n % 10 < 10 = omega arith in ground arith in
    All-append (λ c. is_digit c ≡ true) _ _ (padded-All_digits k (n / 10)) (last, tt)

pub length-padded : (k n : ℕ) → length (padded k n) ≡ k
unfolding padded
length-padded zero n = refl
length-padded (suc k) n =
    omega (arith, length-append (padded k (n / 10)) _, length-padded k (n / 10))
