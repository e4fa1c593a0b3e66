-- ===== src/Money/Dollar.antt =====
-- Which dollar a price text names: the symbols are tried in order, and `$` comes before `a$` and
-- `c$`, whose texts contain it.
use product_updates.Money.Currency.{
  code_of, currency_in, currency_symbols, is_known_code, parse_currency,
}
use product_updates.Prelude.{
  ◌≡◌, ◌⊎◌, ◌∷◌, some, Option, List, Text, true, false, codes, inl, inr, refl, Bool-cases, is_empty,
  occurs_in,
}
use product_updates.Prelude.Spaces.{strip}

code_of-dollar :
    (t : Text)
    → occurs_in (codes "$") t ≡ true
    → (code_of currency_symbols t ≡ some (codes "INR"))
      ⊎ (code_of currency_symbols t ≡ some (codes "USD"))
unfolding code_of
code_of-dollar t h = elim (Bool-cases (occurs_in (codes "₹") t)) [
  | inl a ↦ inl (rw a refl)
  | inr a ↦ elim (Bool-cases (occurs_in (codes "rs.") t)) [
    | inl b ↦ inl (rw (a, b) refl)
    | inr b ↦ elim (Bool-cases (occurs_in (codes "rs") t)) [
      | inl c ↦ inl (rw (a, b, c) refl)
      | inr c ↦ elim (Bool-cases (occurs_in (codes "inr") t)) [
        | inl d ↦ inl (rw (a, b, c, d) refl)
        | inr d ↦ inr (rw (a, b, c, d, h) refl)
      ]
    ]
  ]
]

-- A price text that is no currency code and has a `$` in it is read as rupees or US dollars,
-- whatever stands before the `$` and whatever the default is: never as Australian or Canadian.
pub dollar-never_other :
    (upper lower : Text → Text) (t : Text) (candidates : List (Option Text)) (default : Option Text)
    → is_empty (strip t) ≡ false
    → is_known_code (upper (strip t)) ≡ false
    → occurs_in (codes "$") (lower (strip t)) ≡ true
    → let found = parse_currency upper lower (some t ∷ candidates) default in
      (found ≡ some (codes "INR")) ⊎ (found ≡ some (codes "USD"))
unfolding parse_currency currency_in
dollar-never_other upper lower t candidates default filled unknown dollar =
    elim (code_of-dollar (lower (strip t)) dollar) [
      | inl e ↦ inl (rw (filled, unknown, e) refl)
      | inr e ↦ inr (rw (filled, unknown, e) refl)
    ]
