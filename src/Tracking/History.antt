-- ===== src/Tracking/History.antt =====
-- `latest` of repositories/price_history.py and repositories/availability_history.py.
use mathlib.Core.Path.{subst}
use product_updates.Prelude.{
  ℕ, ◌≤◌, ◌<◌, ◌≡◌, refl, arith, Bool, false, Option, none, some, List, [], ◌∷◌, ◌++◌, All, ltb,
  ◌==◌, ◌&&◌, ◌||◌, if◌then◌else◌, ◌⊎◌, inl, inr,
}

module _ {A : Type 0} (product_of observed_at id_of : A → ℕ) where
  -- `b` comes before `a` in `ORDER BY observed_at DESC, id DESC`
  is_newer : A → A → Bool
  is_newer b a =
      ltb (observed_at a) (observed_at b)
      || ((observed_at a == observed_at b) && ltb (id_of a) (id_of b))

  newest : Option A → A → A
  unfolding is_newer
  newest none row = row
  newest (some best) row = if is_newer best row then best else row

  -- The newest row of the product, where `rows` stand in order of their ids: `LIMIT 1`.
  unfoldable pub latest_row : ℕ → List A → Option A
  unfolding newest
  latest_row product [] = none
  latest_row product (row ∷ rows) =
      let rest = latest_row product rows in
      if product_of row == product then some (newest rest row) else rest

  -- A row of another product does not count.
  pub latest_row-other :
      (product : ℕ) (rows : List A) (row : A)
      → (product_of row == product) ≡ false
      → latest_row product (rows ++ row ∷ []) ≡ latest_row product rows
  unfolding latest_row
  latest_row-other product [] row h = ground arith
  latest_row-other product (r ∷ rows) row h = rw (latest_row-other product rows row h) refl

  -- A row that is not before any other in time, and that has the largest id, is the latest.
  pub latest_row-append :
      (rows : List A) (row : A)
      → All (λ r. observed_at r ≤ observed_at row × id_of r < id_of row) rows
      → latest_row (product_of row) (rows ++ row ∷ []) ≡ some row
  unfolding latest_row
  latest_row-append [] row h = ground arith
  latest_row-append (r ∷ rows) row ((t, i), h) = rw (latest_row-append rows row h) (ground arith)

  first_or_later :
      (product : ℕ) (r : A) (rows : List A) (row : A)
      → latest_row product (r ∷ rows) ≡ some row
      → (r ≡ row) ⊎ (latest_row product rows ≡ some row)
  unfolding latest_row
  first_or_later product r rows row e = go (latest_row product rows) refl
    where
      go :
          (o : Option A)
          → latest_row product rows ≡ o
          → (r ≡ row) ⊎ (latest_row product rows ≡ some row)
      go none eo = ground (arith, e)
      go (some b) eo = ground (arith, e)

  -- The latest row is one of the rows.
  pub latest_row-All {κ} :
      (P : A → Type κ) (product : ℕ) (rows : List A) (row : A)
      → All P rows
      → latest_row product rows ≡ some row
      → P row
  unfolding latest_row
  latest_row-All P product [] row h e = ground arith
  latest_row-All P product (r ∷ rows) row (hr, h) e = elim (first_or_later product r rows row e) [
    | inl same ↦ subst P same hr
    | inr later ↦ latest_row-All P product rows row h later
  ]
