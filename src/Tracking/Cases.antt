-- ===== src/Tracking/Cases.antt =====
-- A rule for `check_product`: what holds of a recorded and of a skipped check holds of its result.
use mathlib.Core.Path.{subst}
use product_updates.Prelude.{Option, some, none, arith, inl, inr, Text, ℕ, ◌≡◌, refl, Bool-cases}
use product_updates.Tracking.{find_product, Product, CheckExecution, Database}
use product_updates.Tracking.Checking.{
  check_product, check_found, record_check, record_skipped, CheckGuard, Circumstances, or_else,
}
use product_updates.Tracking.Retry.{fetch_with_retry}

module _ {S : Type 0} (digest : Text → Text) (window max_retries : ℕ) (now : Circumstances)
    (db : Database) (Good : CheckExecution × Database → Type 0) where
  check_found-Good :
      (guard : Option (CheckGuard S)) (product : Product) (s : S)
      → let fetched = fetch_with_retry max_retries now.fetches in
        Good (
          record_check digest window product fetched.0 now.started now.finished now.duration_ms
            fetched.1 db)
        → ((reason : Text) → Good (record_skipped product now.started now.finished reason db))
        → let done = check_found digest window max_retries guard now product (s, db) in
          Good (done.0, done.1.1)
  unfolding check_found
  check_found-Good none product s recorded skipped = recorded
  check_found-Good (some guard) product s recorded skipped =
      let decision = guard.before (or_else now.host product.store_slug) s in
      elim (Bool-cases decision.0.proceed) [
        | inl go ↦ rw go recorded
        | inr skip ↦ rw skip (skipped _)
      ]

  pub check_product-Good :
      (guard : Option (CheckGuard S)) (product_id : ℕ) (s : S)
      (done : CheckExecution × (S × Database))
      → ((product : Product)
          → find_product product_id db.products ≡ some product
          → let fetched = fetch_with_retry max_retries now.fetches in
            Good (
              record_check digest window product fetched.0 now.started now.finished now.duration_ms
                fetched.1 db))
      → ((product : Product) (reason : Text)
          → find_product product_id db.products ≡ some product
          → Good (record_skipped product now.started now.finished reason db))
      → check_product digest window max_retries guard now product_id (s, db) ≡ some done
      → Good (done.0, done.1.1)
  unfolding check_product
  check_product-Good guard product_id s done recorded skipped e =
      go (find_product product_id db.products) refl
    where
      go :
          (found : Option Product)
          → find_product product_id db.products ≡ found
          → Good (done.0, done.1.1)
      go none f = absurd (ground (arith, e))
      go (some product) f =
          let same : check_found digest window max_retries guard now product (s, db) ≡ done =
            ground (arith, e) in
          subst (λ (d : CheckExecution × (S × Database)). Good (d.0, d.1.1)) same
            (check_found-Good guard product s (recorded product f)
              (λ reason. skipped product reason f))

-- The check of a product that is there runs.
pub check_product_found :
    {S : Type 0} (digest : Text → Text) (window max_retries : ℕ) (guard : Option (CheckGuard S))
    (now : Circumstances) (product_id : ℕ) (s : S) (db : Database) (product : Product)
    → find_product product_id db.products ≡ some product
    → check_product digest window max_retries guard now product_id (s, db)
      ≡ some (check_found digest window max_retries guard now product (s, db))
unfolding check_product
check_product_found digest window max_retries guard now product_id s db product f =
    rw (f, check_product) refl
