-- ===== src/Changes/Stock.antt =====
-- Properties of `detect_availability_change`.
use product_updates.Changes.{AvailabilityOutcome, detect_availability_change}
use product_updates.Domain.Enums.{Availability, same_availability, same_availability_refl}
use product_updates.Domain.Results.{FetchResult}
use product_updates.Prelude.{
  refl, Option, none, some, true, false, ◌≡◌, ◌≢◌, ◌⊎◌, arith, if◌then◌else◌, inr,
}

-- What stands on record once the outcome has been acted on.
abbrev pub recorded : AvailabilityOutcome → Option Availability
recorded o = if o.should_record then some o.current else o.previous

-- An availability is recorded only as a transition: it is the first one, or it differs from the one
-- on record.
pub recorded_is_transition :
    (r : FetchResult) (previous : Option Availability)
    → (detect_availability_change r previous).should_record ≡ true
    → (previous ≡ none)
      ⊎ ((a : Availability) × (previous ≡ some a)
          × (a ≢ (detect_availability_change r previous).current))
unfolding detect_availability_change
recorded_is_transition r none h = ground arith
recorded_is_transition r (some a) h = inr (a, refl, λ e. ground (arith, same_availability_refl a))

-- The same reading twice in a row is recorded at most once, whatever stood on record before.
pub second_reading_unrecorded :
    (r : FetchResult) (previous : Option Availability)
    → (detect_availability_change r
        (recorded (detect_availability_change r previous))).should_record
      ≡ false
unfolding detect_availability_change same_availability
second_reading_unrecorded r none = ground (arith, same_availability_refl r.availability)
second_reading_unrecorded r (some a) = ground (arith, same_availability_refl r.availability)
