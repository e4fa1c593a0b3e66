-- ===== src/Tracking/Synced/Availabilities.antt =====
-- The availability that a check leaves on a product.
use product_updates.Changes.{AvailabilityOutcome, detect_availability_change}
use product_updates.Domain.Contexts.{Time}
use product_updates.Domain.Enums.{Availability, eq_of_same_availability, unknown}
use product_updates.Domain.Results.{FetchResult, succeeded, retracts}
use product_updates.Prelude.{
  if◌then◌else◌, some, none, arith, refl, ◌≡◌, ◌∙◌, inl, inr, ℕ, Option, ap, Bool-cases, sym, true,
}
use product_updates.Tracking.{Database, AvailabilityRow, Product}
use product_updates.Tracking.Checking.{availability_outcome}
use product_updates.Tracking.History.{latest_row-append}
use product_updates.Tracking.Recording.{
  latest_availability, settle_product, apply_result, append_availability, record_availability,
}
use product_updates.Tracking.Synced.{AvailabilityRows, last_availability}

latest_availability-append :
    (product : Product) (result : FetchResult) (now : Time) (id : ℕ) (db : Database)
    → AvailabilityRows now db
    → last_availability product.id (record_availability product result now id db).availabilities
      ≡ result.availability
unfolding record_availability latest_availability
latest_availability-append product result now id db rows =
    ap
      (λ (o : Option AvailabilityRow). elim o [
        | none ↦ Availability.unknown
        | some r ↦ r.availability
      ])
      (latest_row-append (λ r. r.product_id) (λ r. r.observed_at) (λ r. r.id) db.availabilities _
        rows)

availability_after :
    (product : Product) (result : FetchResult) (now : Time) (id : ℕ) (db : Database)
    (o : AvailabilityOutcome)
    → AvailabilityRows now db
    → last_availability product.id (append_availability o product result now id db).availabilities
      ≡ (if o.should_record
          then result.availability
          else last_availability product.id db.availabilities)
unfolding append_availability
availability_after product result now id db o rows = elim (Bool-cases o.should_record) [
  | inl kept ↦ rw kept (latest_availability-append product result now id db rows)
  | inr left ↦ rw left refl
]

settled_availability :
    (product : Product) (result : FetchResult) (now : Time)
    → (settle_product product result now).availability ≡ (
        if succeeded result
        then result.availability
        else if retracts result
        then Availability.unknown
        else product.availability)
unfolding settle_product apply_result
settled_availability product result now = ground arith

-- The availability that a product shows after a check is the last one of its history.
pub availability-Shown :
    (product : Product) (result : FetchResult) (now : Time) (id : ℕ) (db : Database)
    → AvailabilityRows now db
    → (retracts result ≡ true → result.availability ≡ Availability.unknown)
    → product.availability ≡ last_availability product.id db.availabilities
    → (settle_product product result now).availability
      ≡ last_availability product.id
          (append_availability
            (availability_outcome result product.id db)
            product
            result
            now
            id
            db).availabilities
unfolding availability_outcome detect_availability_change
availability-Shown product result now id db rows honest shown =
    settled_availability product result now
    ∙ go (latest_availability product.id db.availabilities) refl
    ∙ sym (
        availability_after product result now id db (availability_outcome result product.id db)
          rows)
  where
    go :
        (last : Option AvailabilityRow)
        → latest_availability product.id db.availabilities ≡ last
        → (if succeeded result
            then result.availability
            else if retracts result
            then Availability.unknown
            else product.availability)
          ≡ (if (availability_outcome result product.id db).should_record
              then result.availability
              else last_availability product.id db.availabilities)
    go none el = ground (arith, honest, shown)
    go (some r) el = ground (
      arith,
      honest,
      shown,
      eq_of_same_availability result.availability r.availability,
      eq_of_same_availability r.availability unknown,
    )
