-- ===== src/Changes/Price.antt =====
-- Properties of `detect_price_change`.
use product_updates.Changes.{detect_price_change, currency_switched}
use product_updates.Decimal.{Decimal, same}
use product_updates.Domain.Results.{FetchResult, succeeded}
use product_updates.Prelude.{
  Text, text_eq_refl, Option, none, some, true, false, ◌≡◌, ◌⊎◌, inl, inr, arith, refl,
  Option-cases,
}

pub currency_switched_refl : (c : Option Text) → currency_switched c c ≡ false
unfolding currency_switched
currency_switched_refl none = refl
currency_switched_refl (some c) = ground (arith, text_eq_refl c)

-- What lies behind a reported change: two prices, of which the number or the currency differs.
pub record IsChange (r : FetchResult) (previous : Option Decimal) (currency : Option Text)
    : Type 0 where
  pub before : Decimal
  pub after : Decimal
  pub had : previous ≡ some before
  pub read : r.price ≡ some after
  pub learned : succeeded r ≡ true
  pub differs : (same after before ≡ false) ⊎ (currency_switched currency r.currency ≡ true)

-- A change is reported only by a successful check that read a price, where an earlier price is on
-- record and the number or the currency differs; and such a check is recorded too.
pub changed-IsChange :
    (r : FetchResult) (previous : Option Decimal) (currency : Option Text)
    → (detect_price_change r previous currency).changed ≡ true
    → ((detect_price_change r previous currency).should_record ≡ true)
      × IsChange r previous currency
unfolding detect_price_change
changed-IsChange r none currency h = ground arith
changed-IsChange r (some q) currency h = elim (Option-cases r.price) [
  | inl e ↦ ground arith
  | inr (p, e) ↦ (
    ground arith,
    record {
      before = q;
      after = p;
      had = refl;
      read = e;
      learned = ground arith;
      differs = ground arith;
    },
  )
]
