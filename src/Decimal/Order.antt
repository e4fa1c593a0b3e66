-- ===== src/Decimal/Order.antt =====
-- `same` and `below` are an equality and a strict order.
use native.Mathlib.Nat.{
  lt_of_mul-lt-mul_right, mul-lt-mul_of_pos_right, one-le-pow, eq_of_mul-eq-mul_right,
}
use product_updates.Decimal.{Decimal, same, below}
use product_updates.Prelude.{
  ◌⊎◌, false, ℕ, ◌*◌, ◌^◌, ◌<◌, ◌≡◌, ap, true, arith, ==_iff, lt→ltb, ltb→lt,
}

pub ten_pow_pos : (k : ℕ) → 0 < 10 ^ k
ten_pow_pos k = one-le-pow k 10 (omega arith)

pub same_refl : (a : Decimal) → same a a ≡ true
unfolding same
same_refl a = ground arith

pub same_sym : (a b : Decimal) → same a b ≡ true → same b a ≡ true
unfolding same
same_sym a b h = ground arith

-- cross products compose over a common positive factor
cross : (a b c p q r : ℕ) → 0 < q → a * q ≡ b * p → b * r ≡ c * q → a * r ≡ c * p
cross a b c p q r pos h k =
    eq_of_mul-eq-mul_right q pos (a * r) (c * p)
      (grind (arith, ap (λ (t : ℕ). t * r) h, ap (λ (t : ℕ). t * p) k))

pub same_trans : (a b c : Decimal) → same a b ≡ true → same b c ≡ true → same a c ≡ true
unfolding same
same_trans a b c h k = (==_iff _ _).1 (
    cross a.coefficient b.coefficient c.coefficient (10 ^ a.scale) (10 ^ b.scale) (10 ^ c.scale)
      (ten_pow_pos b.scale) ((==_iff _ _).0 h) ((==_iff _ _).0 k))

pub below_irrefl : (a b : Decimal) → same a b ≡ true → below a b ≡ false
unfolding same below
below_irrefl a b h = ground arith

pub below_asym : (a b : Decimal) → below a b ≡ true → below b a ≡ false
unfolding below
below_asym a b h = ground arith

pub trichotomy : (a b : Decimal) → same a b ≡ false → below a b ≡ false → below b a ≡ true
unfolding same below
trichotomy a b h k = ground arith

-- cross products of a strict order compose
cross_lt : (a b c p q r : ℕ) → 0 < p → 0 < r → a * q < b * p → b * r < c * q → a * r < c * p
cross_lt a b c p q r posp posr h k = lt_of_mul-lt-mul_right q (
    let h' : a * q * r < b * p * r = mul-lt-mul_of_pos_right h posr in
    let k' : b * r * p < c * q * p = mul-lt-mul_of_pos_right k posp in omega arith)

pub below_trans : (a b c : Decimal) → below a b ≡ true → below b c ≡ true → below a c ≡ true
unfolding below
below_trans a b c h k = lt→ltb _ _ (
    cross_lt a.coefficient b.coefficient c.coefficient (10 ^ a.scale) (10 ^ b.scale) (10 ^ c.scale)
      (ten_pow_pos a.scale) (ten_pow_pos c.scale) (ltb→lt _ _ h) (ltb→lt _ _ k))

pub below-same : (a b c : Decimal) → same a b ≡ true → below b c ≡ true → below a c ≡ true
below-same a b c h k = ground (
  arith,
  trichotomy a c,
  same_sym a b,
  same_trans b a c,
  below_irrefl b c,
  below_trans b c a,
  below_irrefl b a,
)

-- What is below `c` is below everything, or everything is below `c`.
pub below_split : (a b c : Decimal) → below a c ≡ true → (below a b ≡ true) ⊎ (below b c ≡ true)
below_split a b c h =
    ground (arith, trichotomy a b, below_trans b a c, below-same b a c, same_sym a b)

pub not_below_trans : (a b c : Decimal) → below a b ≡ false → below b c ≡ false → below a c ≡ false
not_below_trans a b c h k = ground (arith, below_split a b c)
