-- ===== src/Comparison/Overall.antt =====
-- `ComparisonMatrix.best_overall` against the rows of the grid.
use mathlib.Core.Path.{subst}
use product_updates.Comparison.Offers.{
  IsValid, cheaper, improves-cheaper, price_of, cheaper_split, best_store_slugs-some,
  first_slug-Any, cheaper_asym,
}
use product_updates.Comparison.Rows.{
  Row, Matrix, best_price, best_store_slugs, with_slug, improves, better_of, best_among,
  best_overall, mixed_currency,
}
use product_updates.Decimal.{Decimal, same, below}
use product_updates.Decimal.Order.{same_refl, below_irrefl}
use product_updates.Prelude.{
  ◌≡◌, ◌⊎◌, ◌∷◌, [], some, none, Option, List, Text, true, false, All, Any, arith, inl, inr, refl,
  Bool-cases, Option-cases, All-mono, ap, sym, ◌∙◌, is_some,
}

-- What one pass of the loop makes of the best so far.
record Improves (row : Row) (best next : Option (Row × Text)) : Type 0 where
  valid : IsValid next
  not_row : cheaper (best_price row) (price_of next) ≡ false
  not_best : cheaper (price_of best) (price_of next) ≡ false
  origin : (next ≡ best) ⊎ ((s : Text) × (next ≡ some (row, s)))

cheaper_irrefl : (p : Option Decimal) → cheaper p p ≡ false
unfolding cheaper
cheaper_irrefl none = refl
cheaper_irrefl (some p) = below_irrefl p p (same_refl p)

kept-Improves :
    (row : Row) (best : Option (Row × Text))
    → IsValid best
    → cheaper (best_price row) (price_of best) ≡ false
    → Improves row best best
kept-Improves row best valid h = record {
  valid = valid;
  not_row = h;
  not_best = cheaper_irrefl _;
  origin = inl refl;
}

taken-Improves :
    (row : Row) (best : Option (Row × Text)) (b : Decimal)
    → best_price row ≡ some b
    → cheaper (best_price row) (price_of best) ≡ true
    → Improves row best (with_slug row (best_store_slugs row))
taken-Improves row best b e h =
    let (s, first) = best_store_slugs-some row b e in
    rw first (record {
      valid = (first_slug-Any _ s first, ap is_some e);
      not_row = cheaper_irrefl _;
      not_best = cheaper_asym _ _ h;
      origin = inr (s, refl);
    })

better_of-Improves :
    (row : Row) (best : Option (Row × Text))
    → IsValid best
    → Improves row best (better_of row (best_price row) best)
unfolding better_of cheaper
better_of-Improves row best valid = elim (Option-cases (best_price row)) [
  | inl e ↦ rw (e, better_of) (kept-Improves row best valid (rw (e, cheaper) refl))
  | inr (b, e) ↦ elim (Bool-cases (improves b best)) [
    | inl better ↦
        rw (e, better)
          (taken-Improves row best b e (rw e (sym (improves-cheaper b best valid) ∙ better)))
    | inr not_better ↦
        rw (e, not_better)
          (kept-Improves row best valid (rw e (sym (improves-cheaper b best valid) ∙ not_better)))
  ]
]

cheaper_negtrans :
    (p q r : Option Decimal) → cheaper p q ≡ false → cheaper q r ≡ false → cheaper p r ≡ false
cheaper_negtrans p q r h k = ground (arith, cheaper_split p q r)

-- What the whole loop makes of it.
record IsBestOf (rows : List Row) (best final : Option (Row × Text)) : Type 0 where
  valid : IsValid final
  not_rows : All (λ r. cheaper (best_price r) (price_of final) ≡ false) rows
  not_best : cheaper (price_of best) (price_of final) ≡ false
  origin : (final ≡ best) ⊎ Any (λ r. (s : Text) × (final ≡ some (r, s))) rows

best_among-IsBestOf :
    (rows : List Row) (best : Option (Row × Text))
    → IsValid best
    → IsBestOf rows best (best_among rows best)
unfolding best_among
best_among-IsBestOf [] best valid = record {
  valid = valid;
  not_rows = tt;
  not_best = cheaper_irrefl _;
  origin = inl refl;
}
best_among-IsBestOf (row ∷ rows) best valid =
    let step = better_of-Improves row best valid in
    let rest = best_among-IsBestOf rows (better_of row (best_price row) best) step.valid in
    record {
      valid = rest.valid;
      not_rows = (cheaper_negtrans _ _ _ step.not_row rest.not_best, rest.not_rows);
      not_best = cheaper_negtrans _ _ _ step.not_best rest.not_best;
      origin = elim rest.origin [
        | inr later ↦ inr (inr later)
        | inl same ↦ elim step.origin [
          | inl kept ↦ inl (same ∙ kept)
          | inr (s, taken) ↦ inr (inl (s, same ∙ taken))
        ]
      ];
    }

-- What a grid's best offer promises: it names a row of the grid and one of the row's best shops, no
-- row has a lower price, and where there is no offer no row has a price.
pub record IsBestOffer (rows : List Row) (offer : Option (Row × Text)) : Type 0 where
  pub is_listed :
      (row : Row) (shop : Text)
      → offer ≡ some (row, shop)
      → Any (λ r. r ≡ row) rows × Any (λ s. s ≡ shop) (best_store_slugs row)
  pub is_lowest :
      (row : Row) (shop : Text) (b : Decimal)
      → offer ≡ some (row, shop)
      → best_price row ≡ some b
      → All (λ r. (p : Decimal) → best_price r ≡ some p → below p b ≡ false) rows
  pub is_complete : offer ≡ none → All (λ r. best_price r ≡ none) rows

cheaper-none : (p : Option Decimal) → cheaper p none ≡ false → p ≡ none
unfolding cheaper
cheaper-none none h = refl
cheaper-none (some p) h = ground arith

cheaper-below :
    (o q : Option Decimal) (p b : Decimal)
    → cheaper o q ≡ false
    → q ≡ some b
    → o ≡ some p
    → below p b ≡ false
unfolding cheaper
cheaper-below none q p b h eq eo = ground arith
cheaper-below (some p') none p b h eq eo = ground arith
cheaper-below (some p') (some b') p b h eq eo = ground (arith, h, eq, eo)

named_row :
    (rows : List Row) (final : Option (Row × Text)) (row : Row) (shop : Text)
    → Any (λ r. (s : Text) × (final ≡ some (r, s))) rows
    → final ≡ some (row, shop)
    → Any (λ r. r ≡ row) rows
named_row [] final row shop h e = h
named_row (r ∷ rows) final row shop (inl (s, f)) e =
    inl (ap (λ (o : Option (Row × Text)). elim o [ none ↦ r | some best ↦ best.0 ]) (sym f ∙ e))
named_row (r ∷ rows) final row shop (inr h) e = inr (named_row rows final row shop h e)

IsBestOf-IsBestOffer :
    (rows : List Row) (final : Option (Row × Text))
    → IsBestOf rows none final
    → IsBestOffer rows final
IsBestOf-IsBestOffer rows final h = record {
  is_listed = λ row shop e. (
    elim h.origin [
      | inl nothing ↦ absurd (ground (arith, e, nothing))
      | inr listed ↦ named_row rows final row shop listed e
    ],
    (subst IsValid e h.valid).0,
  );
  is_lowest = λ row shop b e eb.
      All-mono _ _ rows
        (λ r lower p ep.
          cheaper-below (best_price r) (price_of final) p b lower (ap price_of e ∙ eb) ep)
        h.not_rows;
  is_complete = λ e.
      All-mono _ _ rows
        (λ r lower.
          cheaper-none (best_price r)
            (subst (λ o. cheaper (best_price r) (price_of o) ≡ false) e lower))
        h.not_rows;
}

-- In a grid of one currency, the best offer names a row of the grid and one of that row's best
-- shops, and no row has a lower price, a price of zero included; where it names nothing, no row has
-- a usable price.
pub best_overall-IsBestOffer :
    (matrix : Matrix)
    → mixed_currency matrix ≡ false
    → IsBestOffer matrix.rows (best_overall matrix)
unfolding best_overall
best_overall-IsBestOffer matrix one =
    rw one (IsBestOf-IsBestOffer matrix.rows _ (best_among-IsBestOf matrix.rows none tt))
