-- ===== src/Decimal/Places.antt =====
-- Which prices a column of two places keeps as they are.
use native.Mathlib.Nat.{mul-mod_left, div-add-mod'}
use product_updates.Decimal.{Decimal, same, to_money}
use product_updates.Decimal.Money.{coefficient_exact, scale-to_money}
use product_updates.Prelude.{
  ℕ, ◌*◌, ◌/◌, ◌%◌, ◌^◌, ◌==◌, ◌≡◌, ap, sym, ◌∙◌, Bool, true, false, arith, ==_iff, inl, inr,
  Bool-cases, ◌⊎◌,
}

-- The price is a whole number of hundredths.
abbrev pub is_hundredths : Decimal → Bool
is_hundredths p = p.coefficient * 100 % 10 ^ p.scale == 0

same_money :
    (p : Decimal)
    → same p (to_money p) ≡ (p.coefficient * 100 == (to_money p).coefficient * 10 ^ p.scale)
unfolding same
same_money p =
    ap (λ (k : ℕ). p.coefficient * 10 ^ k == (to_money p).coefficient * 10 ^ p.scale)
      (scale-to_money p)

hundredths_kept :
    (p : Decimal)
    → is_hundredths p ≡ true
    → (p.coefficient * 100 == (to_money p).coefficient * 10 ^ p.scale) ≡ true
hundredths_kept p h =
    let unit = 10 ^ p.scale in
    let whole = p.coefficient * 100 / unit in
    let none_left : p.coefficient * 100 % unit ≡ 0 = (==_iff _ _).0 h in
    let parted = div-add-mod' (p.coefficient * 100) unit in
    let exact : p.coefficient * 100 ≡ whole * unit = omega (arith, parted, none_left) in
    let rounded : (to_money p).coefficient ≡ whole =
      coefficient_exact p.coefficient whole p.scale exact in
    (==_iff _ _).1 (exact ∙ ap (λ (k : ℕ). k * unit) (sym rounded))

kept_hundredths :
    (p : Decimal)
    → (p.coefficient * 100 == (to_money p).coefficient * 10 ^ p.scale) ≡ true
    → is_hundredths p ≡ true
kept_hundredths p h =
    let unit = 10 ^ p.scale in
    (==_iff _ _).1
      (ap (λ (n : ℕ). n % unit) ((==_iff _ _).0 h) ∙ mul-mod_left (to_money p).coefficient unit)

-- the column keeps a price exactly if it is a whole number of hundredths
pub same-to_money : (p : Decimal) → same p (to_money p) ≡ is_hundredths p
same-to_money p = same_money p ∙ elim (Bool-cases (is_hundredths p)) [
  | inl h ↦ hundredths_kept p h ∙ sym h
  | inr h ↦ go (Bool-cases (p.coefficient * 100 == (to_money p).coefficient * 10 ^ p.scale)) h
]
  where
    go :
        ((p.coefficient * 100 == (to_money p).coefficient * 10 ^ p.scale) ≡ true)
          ⊎ ((p.coefficient * 100 == (to_money p).coefficient * 10 ^ p.scale) ≡ false)
        → is_hundredths p ≡ false
        → (p.coefficient * 100 == (to_money p).coefficient * 10 ^ p.scale) ≡ is_hundredths p
    go (inl k) h = k ∙ sym (kept_hundredths p k)
    go (inr k) h = k ∙ sym h
