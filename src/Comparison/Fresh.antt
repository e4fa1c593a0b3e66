-- ===== src/Comparison/Fresh.antt =====
-- When the grid shows a price as current.
use product_updates.Comparison.{
  Cell, LastCheck, cell_for_product, classify, classify_price, is_aged, is_confirming, is_ok_cell,
  status_of, error_of, has_error,
}
use product_updates.Decimal.{Decimal}
use product_updates.Domain.Contexts.{Time}
use product_updates.Domain.Enums.{
  Availability, CellStatus, CheckStatus, same_availability, eq_of_same_availability,
}
use product_updates.Prelude.{
  ◌≡◌, ◌≢◌, ◌↔◌, ◌≤◌, ◌+◌, ◌&&◌, true, false, not, none, some, Option, arith, Bool, Bool-cases,
  refl, is_some, Text, inl, inr, Option-cases,
}
use product_updates.Tracking.{Product}

-- a price that the grid shows without a warning
abbrev pub is_fresh : Cell → Bool
is_fresh cell = is_ok_cell cell.status && not cell.is_stale

-- What stands behind a fresh price: the listing has it, it was not sold out, it was checked within
-- the limit, and its last check succeeded.
pub record IsConfirmed (product : Product) (last_check : Option LastCheck) (limit now : Time)
    : Type 0 where
  pub priced : is_some product.current_price ≡ true
  pub in_stock : product.availability ≢ Availability.out_of_stock
  pub checked : (t : Time) × ((product.last_checked_at ≡ some t) × (now ≤ t + limit))
  pub succeeded : last_check ≡ some (CheckStatus.success, none)

confirming-success :
    (last_check : Option LastCheck)
    → is_confirming (status_of last_check) (error_of last_check) ≡ true
    → last_check ≡ some (CheckStatus.success, none)
confirming-success none h = ground arith
confirming-success (some (CheckStatus.success, none)) h = refl
confirming-success (some (CheckStatus.success, some e)) h = ground arith
confirming-success (some (CheckStatus.failed, e)) h = ground arith
confirming-success (some (CheckStatus.partial, e)) h = ground arith
confirming-success (some (CheckStatus.skipped, e)) h = ground arith

-- a listing with a price, checked and not sold out
record IsPriced (product : Product) : Type 0 where
  priced : is_some product.current_price ≡ true
  in_stock : product.availability ≢ Availability.out_of_stock
  checked : (t : Time) × (product.last_checked_at ≡ some t)

classify-IsPriced :
    (product : Product) (status : Option CheckStatus) (error : Option Text)
    → is_ok_cell (classify product status error) ≡ true
    → IsPriced product
unfolding classify classify_price same_availability
classify-IsPriced product status error h = record {
  priced = elim (Option-cases product.current_price) [
    | inl e ↦ ground arith
    | inr (p, e) ↦ ground arith
  ];
  in_stock = λ e. ground arith;
  checked = elim (Option-cases product.last_checked_at) [ inl e ↦ ground arith | inr e ↦ e ];
}

-- With the last check a success, that is enough.
IsPriced-classify :
    (product : Product)
    → IsPriced product
    → classify product (some CheckStatus.success) none ≡ CellStatus.ok
unfolding classify classify_price same_availability has_error
IsPriced-classify product h = elim (Option-cases product.current_price) [
  | inl e ↦ ground (arith, h.priced)
  | inr (p, e) ↦
      let in_stock : same_availability product.availability Availability.out_of_stock ≡ false =
        elim (Bool-cases (same_availability product.availability Availability.out_of_stock)) [
          | inl sold ↦ absurd (h.in_stock (eq_of_same_availability _ _ sold))
          | inr not_sold ↦ not_sold
        ] in
      rw (h.checked.1, in_stock, e) refl
]

not_aged :
    (checked : Option Time) (t limit now : Time)
    → checked ≡ some t
    → (is_aged checked limit now ≡ false) ↔ (now ≤ t + limit)
unfolding is_aged
not_aged checked t limit now e = rw e (ground arith)

-- The grid shows a price as current exactly if the listing has a price, is not sold out, was checked
-- no longer ago than the limit, and its last check was a success.
pub fresh_iff :
    (product : Product) (previous : Option Decimal) (last_check : Option LastCheck)
    (limit now : Time)
    → (is_fresh (cell_for_product product previous last_check limit now) ≡ true)
      ↔ IsConfirmed product last_check limit now
unfolding cell_for_product
fresh_iff product previous last_check limit now = (forward, backward)
  where
    forward :
        is_fresh (cell_for_product product previous last_check limit now) ≡ true
        → IsConfirmed product last_check limit now
    forward h =
        let priced =
          classify-IsPriced product (status_of last_check) (error_of last_check) (ground arith) in
        let confirmed = confirming-success last_check (ground arith) in
        let young : is_aged product.last_checked_at limit now ≡ false = ground arith in
        record {
          priced = priced.priced;
          in_stock = priced.in_stock;
          checked = (
            priced.checked.0,
            (priced.checked.1, (not_aged _ priced.checked.0 limit now priced.checked.1).0 young),
          );
          succeeded = confirmed;
        }

    backward :
        IsConfirmed product last_check limit now
        → is_fresh (cell_for_product product previous last_check limit now) ≡ true
    backward h =
        let young = (not_aged _ h.checked.0 limit now h.checked.1.0).1 h.checked.1.1 in
        let ok = IsPriced-classify product (record {
          priced = h.priced;
          in_stock = h.in_stock;
          checked = (h.checked.0, h.checked.1.0);
        }) in
        rw (h.succeeded, young, ok) refl
