-- ===== src/Comparison/Rows.antt =====
-- domain/models.py: `ComparisonRow` and `ComparisonMatrix`, with what is computed from them.
use mathlib.Core.Option
use product_updates.Comparison.{Cell, is_ok_cell}
use product_updates.Decimal.{Decimal, same, below}
use product_updates.Decimal.Signed.{Signed, minus}
use product_updates.Dict.{Dict}
use product_updates.Domain.Contexts.{Time}
use product_updates.Domain.Results.{Json}
use product_updates.Prelude.{
  if◌then◌else◌, ◌&&◌, ◌∷◌, [], some, none, Option, List, Text, ℕ, Bool, true, false, length, ltb,
  ◌==◌, is_some,
}

pub record Row : Type 0 where
  pub variant_id : ℕ
  pub label : Text
  pub attributes : Dict Json
  pub cells : Dict Cell

pub record Matrix : Type 0 where
  pub group_slug : Text
  pub group_name : Text
  pub brand : Option Text
  pub store_slugs : List Text
  pub store_names : Dict Text
  pub rows : List Row
  pub generated_at : Time
  pub category : Option Text
  pub currencies : List Text

-- `ComparisonCell.has_price`
unfoldable pub has_price : Cell → Bool
has_price cell = is_ok_cell cell.status && is_some cell.price

-- `ComparisonCell.price_delta`
unfoldable pub price_delta : Cell → Option Signed
unfolding minus
price_delta cell = elim cell.price [
  | none ↦ none
  | some price ↦ elim cell.previous_price [ none ↦ none | some old ↦ some (minus price old) ]
]

-- the price of a cell that has one
unfoldable pub usable_price : Cell → Option Decimal
unfolding has_price
usable_price cell = if has_price cell then cell.price else none

abbrev pub with_price : Option Decimal → List Decimal → List Decimal
with_price none prices = prices
with_price (some price) prices = price ∷ prices

-- `ComparisonRow._prices`
unfoldable pub prices_of : Dict Cell → List Decimal
unfolding usable_price
prices_of [] = []
prices_of ((slug, cell) ∷ cells) = with_price (usable_price cell) (prices_of cells)

-- `min` and `max` of a list that starts with `best`: the first of equal ones is kept.
unfoldable pub lower : Decimal → Decimal → Decimal
lower p best = if below p best then p else best

unfoldable pub higher : Decimal → Decimal → Decimal
higher p best = if below best p then p else best

unfoldable pub least : Decimal → List Decimal → Decimal
unfolding lower
least best [] = best
least best (p ∷ ps) = least (lower p best) ps

unfoldable pub greatest : Decimal → List Decimal → Decimal
unfolding higher
greatest best [] = best
greatest best (p ∷ ps) = greatest (higher p best) ps

-- `min(prices) if prices else None`
unfoldable pub least_of : List Decimal → Option Decimal
unfolding least
least_of [] = none
least_of (p ∷ ps) = some (least p ps)

-- `ComparisonRow.best_price`
unfoldable pub best_price : Row → Option Decimal
unfolding least_of prices_of
best_price row = least_of (prices_of row.cells)

abbrev pub costs : Decimal → Option Decimal → Bool
costs best none = false
costs best (some price) = same price best

-- the slugs of the cells that have the price
unfoldable pub slugs_at : Decimal → Dict Cell → List Text
unfolding usable_price
slugs_at best [] = []
slugs_at best ((slug, cell) ∷ cells) =
    let rest = slugs_at best cells in if costs best (usable_price cell) then slug ∷ rest else rest

unfoldable pub slugs_if : Option Decimal → Dict Cell → List Text
unfolding slugs_at
slugs_if none cells = []
slugs_if (some best) cells = slugs_at best cells

-- `ComparisonRow.best_store_slugs`
unfoldable pub best_store_slugs : Row → List Text
unfolding best_price slugs_if
best_store_slugs row = slugs_if (best_price row) row.cells

-- `max(prices) - min(prices)`, of two prices at least
unfoldable pub spread_of : List Decimal → Option Signed
unfolding greatest least minus
spread_of (p ∷ q ∷ ps) = some (minus (greatest p (q ∷ ps)) (least p (q ∷ ps)))
spread_of _ = none

-- `ComparisonRow.spread`
unfoldable pub spread : Row → Option Signed
unfolding spread_of prices_of
spread row = spread_of (prices_of row.cells)

-- `ComparisonMatrix.mixed_currency`
unfoldable pub mixed_currency : Matrix → Bool
mixed_currency matrix = ltb 1 (length matrix.currencies)

-- `best_store_slugs[0]`
abbrev pub first_slug : List Text → Option Text
first_slug [] = none
first_slug (slug ∷ slugs) = some slug

-- `best[0].best_price or price`: a price of zero counts as no price.
unfoldable pub price_or : Option Decimal → Decimal → Decimal
price_or none price = price
price_or (some best) price = if best.coefficient == 0 then price else best

-- `best is None or price < (best[0].best_price or price)`
unfoldable pub improves : Decimal → Option (Row × Text) → Bool
unfolding price_or best_price below
improves price none = true
improves price (some best) = below price (price_or (best_price best.0) price)

abbrev pub with_slug : Row → List Text → Option (Row × Text)
with_slug row slugs = Option.map (λ slug. (row, slug)) (first_slug slugs)

-- one pass of the loop of `best_overall`
unfoldable pub better_of : Row → Option Decimal → Option (Row × Text) → Option (Row × Text)
unfolding improves best_store_slugs
better_of row none best = best
better_of row (some price) best =
    if improves price best then with_slug row (best_store_slugs row) else best

unfoldable pub best_among : List Row → Option (Row × Text) → Option (Row × Text)
unfolding better_of best_price
best_among [] best = best
best_among (row ∷ rows) best = best_among rows (better_of row (best_price row) best)

-- `ComparisonMatrix.best_overall`
unfoldable pub best_overall : Matrix → Option (Row × Text)
unfolding mixed_currency best_among
best_overall matrix = if mixed_currency matrix then none else best_among matrix.rows none
