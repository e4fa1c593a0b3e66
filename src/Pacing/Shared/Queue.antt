-- ===== src/Pacing/Shared/Queue.antt =====
-- The processes that share a table queue for a host: their slots keep the interval.
use mathlib.Core.Path.{subst}
use product_updates.Dict.{get, put, get-put, get-put_self}
use product_updates.Domain.Contexts.{Time}
use product_updates.Pacing.{Limits}
use product_updates.Pacing.Shared.{
  PacingRow, PacingRows, Transaction, claiming, reporting, pacing_of, is_shut, claim_slot,
  report_outcome, transact, transact_all,
}
use product_updates.Pacing.Spacing.{slots_of, SpacedFrom, SpacedFrom-cons}
use product_updates.Prelude.{
  ℕ, ◌+◌, ◌-◌, ◌≤◌, max, ltb, some, none, List, [], ◌∷◌, Text, text_eq, eq_of_text_eq, true, false,
  Option, ◌≡◌, arith, ◌∙◌, sym, inl, inr, Bool-cases,
}

-- The host has a row, and its next slot is not before this time.
abbrev NotBefore : Text → Time → PacingRows → Type 0
NotBefore host free rows =
    (row : PacingRow) × (get rows host ≡ some row) × (free ≤ row.next_allowed_at)

-- What a transaction does to the next slot of a host.
abbrev Paced : Limits → Text → Time → PacingRows → Option (Text × Time) → PacingRows → Type 0
Paced limits host free rows none rows' = NotBefore host free rows → NotBefore host free rows'
Paced limits host free rows (some (h, slot)) rows' =
    (h ≡ host → NotBefore host (slot + limits.min_interval) rows')
    × (h ≡ host → NotBefore host free rows → free ≤ slot)
    × (text_eq h host ≡ false → NotBefore host free rows → NotBefore host free rows')

NotBefore-pacing_of :
    (host : Text) (free now : Time) (rows : PacingRows)
    → NotBefore host free rows
    → free ≤ (pacing_of rows host now).next_allowed_at
unfolding pacing_of
NotBefore-pacing_of host free now rows (row, e, le) = rw (e, pacing_of) le

NotBefore-put_self :
    (host : Text) (free : Time) (rows : PacingRows) (row : PacingRow)
    → free ≤ row.next_allowed_at
    → NotBefore host free (put rows host row)
NotBefore-put_self host free rows row le = (row, get-put_self rows host row, le)

NotBefore-put_other :
    (h host : Text) (free : Time) (rows : PacingRows) (row : PacingRow)
    → text_eq h host ≡ false
    → NotBefore host free rows
    → NotBefore host free (put rows h row)
NotBefore-put_other h host free rows row other (r, e, le) =
    (r, get-put rows h host row ∙ rw other e, le)

-- A row that keeps its next slot is not before what it was not before.
NotBefore-put :
    (h host : Text) (free now : Time) (rows : PacingRows) (row : PacingRow)
    → (pacing_of rows h now).next_allowed_at ≤ row.next_allowed_at
    → NotBefore host free rows
    → NotBefore host free (put rows h row)
NotBefore-put h host free now rows row kept nb = elim (Bool-cases (text_eq h host)) [
  | inl same ↦
      let e = eq_of_text_eq h host same in
      let here =
        NotBefore-pacing_of h free now rows (subst (λ k. NotBefore k free rows) (sym e) nb) in
      subst (λ k. NotBefore k free (put rows h row)) e
        (NotBefore-put_self h free rows row (omega (arith, here, kept)))
  | inr other ↦ NotBefore-put_other h host free rows row other nb
]

transact-Paced :
    (limits : Limits) (max_wait : ℕ) (t : Transaction) (rows : PacingRows) (host : Text)
    (free : Time)
    → Paced limits host free rows
        (transact limits max_wait t rows).0
        (transact limits max_wait t rows).1
unfolding transact claim_slot report_outcome
transact-Paced limits max_wait (claiming h now jitter) rows host free =
    let row = pacing_of rows h now in
    let slot = max now row.next_allowed_at in
    let next : PacingRow = record row {
      next_allowed_at = slot + (limits.min_interval + jitter);
      open_until = none;
    } in
    elim (Bool-cases (is_shut row now)) [
      | inl shut ↦ rw shut (NotBefore-put h host free now rows row (omega arith))
      | inr through ↦ elim (Bool-cases (ltb max_wait (row.next_allowed_at - now))) [
        | inl busy ↦ rw (through, busy) (NotBefore-put h host free now rows _ (omega arith))
        | inr granted ↦
            rw (through, granted)
              (
                (λ e.
                    subst (λ k. NotBefore k (slot + limits.min_interval) (put rows h next)) e
                      (NotBefore-put_self h (slot + limits.min_interval) rows next (omega arith))),
                (λ e nb.
                    let here =
                      NotBefore-pacing_of h free now rows
                        (subst (λ k. NotBefore k free rows) (sym e) nb) in
                    omega (arith, here)),
                (λ other nb. NotBefore-put_other h host free rows next other nb),
              )
      ]
    ]
transact-Paced limits max_wait (reporting h now true) rows host free =
    NotBefore-put h host free now rows _ (omega arith)
transact-Paced limits max_wait (reporting h now false) rows host free =
    NotBefore-put h host free now rows _ (omega arith)

transact_all-SpacedFrom :
    (limits : Limits) (max_wait : ℕ) (ts : List Transaction) (rows : PacingRows) (host : Text)
    (o : Option Time)
    → ((last : Time) → o ≡ some last → NotBefore host (last + limits.min_interval) rows)
    → SpacedFrom limits.min_interval o (slots_of host (transact_all limits max_wait ts rows).0)
unfolding transact_all
transact_all-SpacedFrom limits max_wait [] rows host o h = tt
transact_all-SpacedFrom limits max_wait (t ∷ ts) rows host o h =
    go (transact limits max_wait t rows).0 (transact limits max_wait t rows).1
      (transact-Paced limits max_wait t rows host)
      (λ o'. transact_all-SpacedFrom limits max_wait ts (transact limits max_wait t rows).1 host o')
  where
    go :
        (given : Option (Text × Time)) (rows' : PacingRows)
        → ((free : Time) → Paced limits host free rows given rows')
        → ((o' : Option Time)
            → ((last : Time) → o' ≡ some last → NotBefore host (last + limits.min_interval) rows')
            → SpacedFrom limits.min_interval o'
                (slots_of host (transact_all limits max_wait ts rows').0))
        → SpacedFrom limits.min_interval o (
            slots_of host (elim given [
              | none ↦ (transact_all limits max_wait ts rows').0
              | some slot ↦ slot ∷ (transact_all limits max_wait ts rows').0
            ]))
    go none rows' paced rest = rest o (λ last e. paced _ (h last e))
    go (some (k, slot)) rows' paced rest = elim (Bool-cases (text_eq k host)) [
      | inl same ↦
          let e = eq_of_text_eq k host same in
          rw same (
            SpacedFrom-cons limits.min_interval o slot _
              (λ last eo. (paced (last + limits.min_interval)).1 e (h last eo))
              (rest (some slot) (λ last eo.
                subst (λ (t : Time). NotBefore host (t + limits.min_interval) rows')
                  (ground (arith, eo)) ((paced 0).0 e))))
      | inr other ↦ rw other (rest o (λ last eo. (paced _).2 other (h last eo)))
    ]

-- Whatever the processes claim and report, on whatever hosts and with whatever jitter, two slots that
-- the table gives for one host are at least the interval apart, even where the clock stands still or
-- goes back.
pub shared_slots-SpacedFrom :
    (limits : Limits) (max_wait : ℕ) (ts : List Transaction) (rows : PacingRows) (host : Text)
    → SpacedFrom limits.min_interval none (slots_of host (transact_all limits max_wait ts rows).0)
shared_slots-SpacedFrom limits max_wait ts rows host =
    transact_all-SpacedFrom limits max_wait ts rows host none (λ last e. absurd (cc (e)))
