-- ===== src/Decimal/Money.antt =====
-- What storing a price does to it.
use native.Mathlib.Nat.{div-eq_of_lt-le, eq_of_mul-eq-mul_right, pow-suc}
use product_updates.Decimal.{Decimal, same, to_money}
use product_updates.Decimal.Order.{ten_pow_pos}
use product_updates.Prelude.{
  ℕ, zero, suc, ◌+◌, ◌*◌, ◌/◌, ◌-◌, ◌^◌, ◌<◌, ◌≡◌, refl, ap, sym, ◌∙◌, true, arith, ==_iff,
}

pub scale-to_money : (d : Decimal) → (to_money d).scale ≡ 2
unfolding to_money
scale-to_money d = ground arith

round_exact : (q u : ℕ) → 0 < u → (2 * (q * u) + u) / (2 * u) ≡ q
round_exact q u pos = div-eq_of_lt-le (2 * u) (grind arith) (grind arith)

exact_large : (c q s : ℕ) → c * 10 ^ 2 ≡ q * 10 ^ suc (suc s) → c ≡ q * 10 ^ s
exact_large c q s h = eq_of_mul-eq-mul_right 100 (omega arith) c (q * 10 ^ s) (
    omega (
      arith,
      ap (λ (t : ℕ). q * t) (pow-suc 10 (suc s)),
      ap (λ (t : ℕ). q * (t * 10)) (pow-suc 10 s),
    ))

-- the rounding of three places and more, with the unit of rounding named
round_large :
    (c s u : ℕ)
    → 10 ^ suc s ≡ u
    → (to_money (record { coefficient = c; scale = suc (suc (suc s)) })).coefficient
      ≡ (2 * c + u) / (2 * u)
unfolding to_money
round_large c s u h =
    let e : suc (suc (suc s)) - 2 ≡ suc s = omega arith in rw (e, h) (ground arith)

pub coefficient_exact :
    (c q s : ℕ)
    → c * 10 ^ 2 ≡ q * 10 ^ s
    → (to_money (record { coefficient = c; scale = s })).coefficient ≡ q
unfolding to_money
coefficient_exact c q zero h = omega arith
coefficient_exact c q (suc zero) h = omega arith
coefficient_exact c q (suc (suc zero)) h = omega arith
coefficient_exact c q (suc (suc (suc s))) h =
    round_large c s (10 ^ suc s) refl
    ∙ rw (exact_large c q (suc s) h) (round_exact q (10 ^ suc s) (ten_pow_pos (suc s)))

money_cross :
    (p q : Decimal)
    → q.scale ≡ 2
    → p.coefficient * 10 ^ q.scale ≡ q.coefficient * 10 ^ p.scale
    → p.coefficient * 10 ^ 2 ≡ q.coefficient * 10 ^ p.scale
money_cross p q e h = ap (λ (k : ℕ). p.coefficient * 10 ^ k) (sym e) ∙ h

-- A price equal to a stored one is stored as that very value.
pub to_money-same : (p q : Decimal) → q.scale ≡ 2 → same p q ≡ true → to_money p ≡ q
unfolding same
to_money-same p q e h = ground (
  arith,
  scale-to_money p,
  coefficient_exact p.coefficient q.coefficient p.scale (money_cross p q e ((==_iff _ _).0 h)),
)
