-- ===== src/Pacing/Shared.antt =====
-- scheduler/throttle.py: `SharedStoreGuard`, which keeps the pacing of all processes in one table. A
-- claim is one transaction under a lock of the host's row, so it is one event here; the clock is the
-- database's.
pub mod Queue
use mathlib.Core.Option
use product_updates.Decimal.Written.{digits}
use product_updates.Dict.{Dict, get, put, get-put}
use product_updates.Domain.Contexts.{Time, second}
use product_updates.Pacing.{Limits}
use product_updates.Pacing.Spacing.{slots_of, SpacedFrom}
use product_updates.Prelude.{
  ℕ, suc, ◌+◌, ◌-◌, ◌≤◌, ◌/◌, max, if◌then◌else◌, ltb, leb, some, none, List, [], ◌∷◌, ◌++◌, Text,
  codes, text_eq, text_eq_refl, eq_of_text_eq, Bool, true, false, Option, ◌≡◌, arith, refl, ap, ◌∙◌,
  sym, inl, inr, Bool-cases,
}
use product_updates.Tracking.Checking.{GuardDecision}

-- a row of `store_pacing`
pub record PacingRow : Type 0 where
  pub next_allowed_at : Time
  pub consecutive_failures : ℕ
  pub open_until : Option Time

abbrev pub PacingRows : Type 0
PacingRows = Dict PacingRow

-- `_INSERT_HOST`, with the column's default for the next slot, and `_LOCK_HOST`
unfoldable pub pacing_of : PacingRows → Text → Time → PacingRow
pacing_of rows host now = elim (get rows host) [
  | none ↦ record { next_allowed_at = now; consecutive_failures = 0; open_until = none }
  | some row ↦ row
]

unfoldable pub is_shut : PacingRow → Time → Bool
is_shut row now = elim row.open_until [ none ↦ false | some until ↦ ltb now until ]

abbrev shut_reason : Text → PacingRow → Time → Text
shut_reason host row now =
    host
    ++ (codes " has failed "
        ++ (digits row.consecutive_failures
            ++ (codes " times in a row; backing off for another "
                ++ (digits
                      (((elim row.open_until [ none ↦ now | some until ↦ until ]) - now) / second)
                    ++ codes "s before trying again"))))

abbrev busy_reason : Text → ℕ → ℕ → Text
busy_reason host wait max_wait =
    host
    ++ (codes " is busy: the next free slot is "
        ++ (digits (wait / second)
            ++ (codes "s away, beyond the "
                ++ (digits (max_wait / second) ++ codes "s a single request will wait"))))

-- `_claim` and the end of `before`: the decision, and the time of the request if there is one.
unfoldable pub claim_slot :
    Limits → ℕ → ℕ → Time → Text → PacingRows → (GuardDecision × Option Time) × PacingRows
unfolding pacing_of is_shut
claim_slot limits max_wait jitter now host rows =
    let row = pacing_of rows host now in
    let slot = max now row.next_allowed_at in
    if is_shut row now
    then (
      (record { proceed = false; reason = some (shut_reason host row now) }, none),
      put rows host row,
    )
    else if ltb max_wait (row.next_allowed_at - now)
    then (
      (
        record {
          proceed = false;
          reason = some (busy_reason host (row.next_allowed_at - now) max_wait);
        },
        none,
      ),
      put rows host (record row { open_until = none }),
    )
    else (
      (record { proceed = true; reason = none }, some slot),
      put rows host (record row {
        next_allowed_at = slot + (limits.min_interval + jitter);
        open_until = none;
      }),
    )

-- `after`
unfoldable pub report_outcome : Limits → Time → Text → Bool → PacingRows → PacingRows
unfolding pacing_of
report_outcome limits now host succeeded rows =
    let row = pacing_of rows host now in
    let failures = suc row.consecutive_failures in
    put rows host (
      if succeeded then record row { consecutive_failures = 0; open_until = none } else record row {
        consecutive_failures = failures;
        open_until =
            if leb limits.failure_threshold failures
            then some (now + limits.reset_seconds)
            else row.open_until;
      })

-- A transaction of some process, at a time of the database's clock.
pub data Transaction : Type 0 where
  claiming : Text → Time → ℕ → Transaction
  reporting : Text → Time → Bool → Transaction

unfoldable pub transact : Limits → ℕ → Transaction → PacingRows → Option (Text × Time) × PacingRows
unfolding claim_slot report_outcome
transact limits max_wait (claiming host now jitter) rows =
    let done = claim_slot limits max_wait jitter now host rows in
    (Option.map (λ slot. (host, slot)) done.0.1, done.1)
transact limits max_wait (reporting host now succeeded) rows =
    (none, report_outcome limits now host succeeded rows)

unfoldable pub transact_all :
    Limits → ℕ → List Transaction → PacingRows → List (Text × Time) × PacingRows
unfolding transact
transact_all limits max_wait [] rows = ([], rows)
transact_all limits max_wait (t ∷ ts) rows =
    let done = transact limits max_wait t rows in
    let rest = transact_all limits max_wait ts done.1 in
    (elim done.0 [ none ↦ rest.0 | some slot ↦ slot ∷ rest.0 ], rest.1)
