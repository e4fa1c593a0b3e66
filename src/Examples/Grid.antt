-- ===== src/Examples/Grid.antt =====
-- The comparison grid of one product that two listings of one shop offer.
use product_updates.Comparison.{Listing, cell_for_product, one_per_store}
use product_updates.Comparison.AfterCheck.{failed_check-not_fresh}
use product_updates.Comparison.Choice.{IsCheapestAt, one_per_store-IsCheapestAt}
use product_updates.Comparison.Fresh.{is_fresh}
use product_updates.Comparison.Grid.{Catalogue, Group, cell_of, load_grid}
use product_updates.Comparison.Overall.{IsBestOffer, best_overall-IsBestOffer}
use product_updates.Comparison.Rows.{Matrix, Row, best_overall, mixed_currency}
use product_updates.Decimal.{same, below}
use product_updates.Dict.{get}
use product_updates.Examples.Data.{phone, tables, dollars, circumstances}
use product_updates.Prelude.{
  ◌≡◌, ◌∷◌, [], Any, Option, Text, arith, codes, false, inl, inr, none, refl, some, sym, text_eq, ℕ,
  ◌∙◌, ap,
}
use product_updates.Tracking.{CheckExecution, Database, find_product}
use product_updates.Tracking.Cases.{check_product_found}
use product_updates.Tracking.Checking.{skipped_execution, CheckGuard, check_found, check_product}

-- the phone of the shop at 120, and a second listing of it at 110
abbrev dear : Listing
dear = record { product = phone; store_name = codes "Generic" }

abbrev cheap : Listing
cheap = record {
  product = record phone { id = 8; current_price = some (dollars 110) };
  store_name = codes "Generic";
}

abbrev shop : Text
shop = codes "generic"

one_per_store-IsCheapestAt_example : IsCheapestAt shop cheap (dear ∷ cheap ∷ [])
unfolding get one_per_store text_eq same below
one_per_store-IsCheapestAt_example = one_per_store-IsCheapestAt (dear ∷ cheap ∷ []) shop cheap refl

-- The two listings have different ids.
distinct_ids :
    (a b : Listing)
    → Any (λ y. y ≡ a) (dear ∷ cheap ∷ [])
    → Any (λ y. y ≡ b) (dear ∷ cheap ∷ [])
    → a.product.id ≡ b.product.id
    → a ≡ b
distinct_ids a b (inl ea) (inl eb) e = sym ea ∙ eb
distinct_ids a b (inl ea) (inr (inl eb)) e =
    absurd (
      omega
        (arith, e, ap (λ (l : Listing). l.product.id) ea, ap (λ (l : Listing). l.product.id) eb))
distinct_ids a b (inl ea) (inr (inr none_left)) e = absurd none_left
distinct_ids a b (inr (inl ea)) (inl eb) e =
    absurd (
      omega
        (arith, e, ap (λ (l : Listing). l.product.id) ea, ap (λ (l : Listing). l.product.id) eb))
distinct_ids a b (inr (inl ea)) (inr (inl eb)) e = sym ea ∙ eb
distinct_ids a b (inr (inl ea)) (inr (inr none_left)) e = absurd none_left
distinct_ids a b (inr (inr none_left)) j e = absurd none_left

-- a guard that lets no check through
abbrev closed : Option (CheckGuard ℕ)
closed = some (record {
  before = λ host s. (record { proceed = false; reason = none }, s);
  after = λ host ok s. s;
})

abbrev blocked_check : CheckExecution × (ℕ × Database)
blocked_check = check_found (λ t. t) 86400 3 closed circumstances phone (0, tables)

blocked_found :
    check_product (λ t. t) 86400 3 closed circumstances 7 (0, tables) ≡ some blocked_check
unfolding find_product
blocked_found = check_product_found (λ t. t) 86400 3 closed circumstances 7 0 tables phone refl

abbrev phones : Group
phones = record {
  id = 1;
  user_id = 1;
  slug = codes "phone";
  name = codes "Phone";
  brand = none;
  category = none;
}

abbrev catalogue : Catalogue
catalogue = record { groups = phones ∷ []; variants = []; links = []; names = λ i. codes "Generic" }

failed_check-not_fresh_example :
    let grid = load_grid (λ a b. false) catalogue blocked_check.1.1 phones in
    is_fresh (cell_of grid 100 10 (some dear)) ≡ false
unfolding check_found skipped_execution
failed_check-not_fresh_example =
    failed_check-not_fresh (λ t. t) 86400 3 closed circumstances 7 0 tables blocked_check
      (λ a b. false) catalogue phones 100 10 dear ((omega arith, omega arith), tt) blocked_found
      refl refl

abbrev row_of : Row
row_of = record {
  variant_id = 1;
  label = codes "128GB";
  attributes = [];
  cells =
      (shop, cell_for_product (record phone { last_checked_at = some 9 }) none none 100 10) ∷ [];
}

abbrev matrix : Matrix
matrix = record {
  group_slug = codes "phone";
  group_name = codes "Phone";
  brand = none;
  store_slugs = shop ∷ [];
  store_names = (shop, codes "Generic") ∷ [];
  rows = row_of ∷ [];
  generated_at = 10;
  category = none;
  currencies = codes "USD" ∷ [];
}

best_overall-IsBestOffer_example : IsBestOffer matrix.rows (best_overall matrix)
unfolding mixed_currency
best_overall-IsBestOffer_example = best_overall-IsBestOffer matrix refl
