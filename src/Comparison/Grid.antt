-- ===== src/Comparison/Grid.antt =====
-- repositories/groups.py `load_grid`, and `build_matrix` of services/comparison.py with its rows.
-- The database's order of labels, its collation, and Python's `str.casefold` are parameters.
use product_updates.Comparison.{
  Cell, LastCheck, Listing, cell_for_product, one_per_store, untracked_cell,
}
use product_updates.Comparison.Rows.{Row}
use product_updates.Comparison.Sorting.{sorted}
use product_updates.Decimal.{Decimal}
use product_updates.Dict.{Dict, get}
use product_updates.Domain.Contexts.{Time}
use product_updates.Domain.Enums.{CellStatus}
use product_updates.Domain.Results.{Json}
use product_updates.Prelude.{
  if◌then◌else◌, ◌&&◌, ◌||◌, ◌==◌, ◌∷◌, [], some, none, Option, List, Text, text_eq, ℕ, Bool, map,
  true, false, not, ltb, keep, any,
}
use product_updates.Tracking.{Database, Product, PriceRow, CheckExecution}
use product_updates.Tracking.History.{latest_row}
use product_updates.Tracking.Recording.{latest_price}

-- db/models.py `ProductGroup`, the columns that the grid shows
pub record Group : Type 0 where
  pub id : ℕ
  pub user_id : ℕ
  pub slug : Text
  pub name : Text
  pub brand : Option Text
  pub category : Option Text

-- db/models.py `ProductVariant`
pub record Variant : Type 0 where
  pub id : ℕ
  pub group_id : ℕ
  pub label : Text
  pub attributes : Dict Json
  pub position : ℕ

-- db/models.py `VariantListing`
pub record VariantListing : Type 0 where
  pub variant_id : ℕ
  pub product_id : ℕ

-- The tables of the groups, and the display names of the stores.
pub record Catalogue : Type 0 where
  pub groups : List Group
  pub variants : List Variant
  pub links : List VariantListing
  pub names : ℕ → Text

-- `GridData`, its dictionaries as functions of their keys
pub record GridData : Type 0 where
  pub group : Group
  pub variants : List Variant
  pub products_by_variant : ℕ → List Listing
  pub previous_price : ℕ → Option Decimal
  pub last_check : ℕ → Option LastCheck

-- `_last_checks`, for one product: of checks that started together, the one with the larger id.
unfoldable pub last_execution : List CheckExecution → ℕ → Option CheckExecution
unfolding latest_row
last_execution executions product =
    latest_row (λ e. e.product_id) (λ e. e.started_at) (λ e. e.id) product executions

unfoldable pub last_check_of : Option CheckExecution → Option LastCheck
last_check_of none = none
last_check_of (some e) = some (e.status, e.error_type)

-- `_previous_prices`, for one product: the second of its rows from the latest.
unfoldable pub previous_price_of : List PriceRow → ℕ → Option Decimal
unfolding latest_price
previous_price_of prices product = elim (latest_price product prices) [
  | none ↦ none
  | some newest ↦ elim (latest_price product (keep (λ r. not (r.id == newest.id)) prices)) [
    | none ↦ none
    | some previous ↦ some previous.price
  ]
]

unfoldable pub is_linked : List VariantListing → ℕ → Product → Bool
is_linked links variant product =
    any (λ l. (l.variant_id == variant) && (l.product_id == product.id)) links

unfoldable pub listings_of : Catalogue → List Product → ℕ → List Listing
unfolding is_linked
listings_of catalogue products variant =
    map (λ p. record { product = p; store_name = catalogue.names p.store_id })
      (keep (is_linked catalogue.links variant) products)

-- `ORDER BY position, label`
unfoldable pub variant_below : (Text → Text → Bool) → Variant → Variant → Bool
variant_below collation v w =
    ltb v.position w.position || ((v.position == w.position) && collation v.label w.label)

-- `load_grid`: the products of the database stand in order of their ids.
unfoldable pub load_grid : (Text → Text → Bool) → Catalogue → Database → Group → GridData
unfolding sorted variant_below listings_of previous_price_of last_check_of last_execution
load_grid collation catalogue db group = record {
  group = group;
  variants =
      sorted (variant_below collation) (keep (λ v. v.group_id == group.id) catalogue.variants);
  products_by_variant = listings_of catalogue db.products;
  previous_price = previous_price_of db.prices;
  last_check = λ product. last_check_of (last_execution db.executions product);
}

-- `GroupRepository.get_by_slug`
unfoldable pub get_by_slug : ℕ → Text → List Group → Option Group
get_by_slug user slug [] = none
get_by_slug user slug (g ∷ gs) =
    if (g.user_id == user) && text_eq g.slug slug then some g else get_by_slug user slug gs

-- the cell of one store in the row of a variant
unfoldable pub cell_of : GridData → Time → Time → Option Listing → Cell
unfolding cell_for_product
cell_of grid stale_after now none = untracked_cell
cell_of grid stale_after now (some listing) =
    cell_for_product listing.product (grid.previous_price listing.product.id)
      (grid.last_check listing.product.id) stale_after now

unfoldable pub cells_of : GridData → Time → Time → Dict Listing → List Text → Dict Cell
unfolding cell_of get
cells_of grid stale_after now by_store slugs =
    map (λ slug. (slug, cell_of grid stale_after now (get by_store slug))) slugs

-- `_build_row`
unfoldable pub build_row : GridData → List Text → Time → Time → Variant → Row
unfolding cells_of one_per_store
build_row grid slugs stale_after now variant = record {
  variant_id = variant.id;
  label = variant.label;
  attributes = variant.attributes;
  cells = cells_of grid stale_after now (one_per_store (grid.products_by_variant variant.id)) slugs;
}

abbrev is_tracked : CellStatus → Bool
is_tracked CellStatus.not_tracked = false
is_tracked _ = true

-- `_has_any_listing`
unfoldable pub has_any_listing : Row → Bool
has_any_listing row = any (λ entry. is_tracked entry.1.status) row.cells
