-- ===== src/Comparison/Matrix.antt =====
-- `build_matrix` of services/comparison.py.
use product_updates.Comparison.{Cell, Listing}
use product_updates.Comparison.Grid.{
  Variant, Catalogue, GridData, load_grid, get_by_slug, build_row, has_any_listing,
}
use product_updates.Comparison.Rows.{Matrix, Row, has_price}
use product_updates.Comparison.Sorting.{sorted, sorted_set, text_below}
use product_updates.Dict.{Dict, put}
use product_updates.Domain.Contexts.{Time}
use product_updates.Domain.Results.{is_empty}
use product_updates.Prelude.{
  if◌then◌else◌, ◌&&◌, ◌∷◌, [], ◌++◌, some, none, Option, List, Text, ℕ, Bool, map, not, keep,
}
use product_updates.Tracking.{Database}

-- `_store_names`, one product after the other
unfoldable pub add_names : List Listing → Dict Text → Dict Text
unfolding put
add_names [] names = names
add_names (listing ∷ listings) names =
    add_names listings (put names listing.product.store_slug listing.store_name)

-- `_store_names`
unfoldable pub store_names_from : GridData → List Variant → Dict Text → Dict Text
unfolding add_names
store_names_from grid [] names = names
store_names_from grid (v ∷ vs) names =
    store_names_from grid vs (add_names (grid.products_by_variant v.id) names)

-- `sorted(store_names, key=lambda s: store_names[s].casefold())`
unfoldable pub store_slugs_of : (Text → Text) → Dict Text → List Text
unfolding sorted text_below
store_slugs_of casefold names =
    map (λ entry. entry.0) (sorted (λ a b. text_below (casefold a.1) (casefold b.1)) names)

-- `cell.has_price and cell.currency`
abbrev currency_of : Cell → Option Text → List Text
currency_of cell none = []
currency_of cell (some currency) =
    if has_price cell && not (is_empty currency) then currency ∷ [] else []

unfoldable pub currencies_in : Dict Cell → List Text
unfolding has_price
currencies_in [] = []
currencies_in ((slug, cell) ∷ cells) = currency_of cell cell.currency ++ currencies_in cells

unfoldable pub currencies_of : List Row → List Text
unfolding currencies_in
currencies_of [] = []
currencies_of (row ∷ rows) = currencies_in row.cells ++ currencies_of rows

-- the grid of a group that was found
unfoldable pub matrix_of : (Text → Text) → GridData → Time → Time → Matrix
unfolding store_names_from store_slugs_of build_row has_any_listing currencies_of sorted_set
matrix_of casefold grid stale_after now =
    let names = store_names_from grid grid.variants [] in
    let slugs = store_slugs_of casefold names in
    let rows = keep has_any_listing (map (build_row grid slugs stale_after now) grid.variants) in
    record {
      group_slug = grid.group.slug;
      group_name = grid.group.name;
      brand = grid.group.brand;
      store_slugs = slugs;
      store_names = names;
      rows = rows;
      generated_at = now;
      category = grid.group.category;
      currencies = sorted_set (currencies_of rows);
    }

-- `build_matrix`: `none` where it raises `GroupNotFoundError`.
unfoldable pub build_matrix :
    (Text → Text)
    → (Text → Text → Bool)
    → Catalogue
    → Database
    → Text
    → ℕ
    → Time
    → Time
    → Option Matrix
unfolding matrix_of load_grid get_by_slug
build_matrix casefold collation catalogue db slug user stale_after now =
    elim (get_by_slug user slug catalogue.groups) [
      | none ↦ none
      | some group ↦
          some (matrix_of casefold (load_grid collation catalogue db group) stale_after now)
    ]
