-- ===== src/Pacing/Spacing.antt =====
-- The slots of one host keep the interval, whatever the other callers do.
use mathlib.Core.Path.{subst}
use product_updates.Dict.{put, get-put}
use product_updates.Domain.Contexts.{Time}
use product_updates.Pacing.{
  Limits, StoreState, States, Call, state_of, before, after, step, run, slot_of, free_at,
  before_call, after_call, is_open,
}
use product_updates.Prelude.{
  ◌+◌, ◌≤◌, if◌then◌else◌, List, [], ◌∷◌, text_eq, some, none, Text, ℕ, ◌≡◌, arith, true, false,
  inl, inr, eq_of_text_eq, Bool-cases, Option, refl, ap, ◌∙◌,
}

-- the slots of the host
abbrev pub slots_of : Text → List (Text × Time) → List Time
slots_of host [] = []
slots_of host ((h, slot) ∷ slots) =
    let rest = slots_of host slots in if text_eq h host then slot ∷ rest else rest

-- Each slot is at least `gap` after the one before it, and the first after `last`.
abbrev pub SpacedFrom : ℕ → Option Time → List Time → Type 0
SpacedFrom gap last [] = Unit
SpacedFrom gap none (slot ∷ slots) = SpacedFrom gap (some slot) slots
SpacedFrom gap (some last) (slot ∷ slots) = (last + gap ≤ slot) × SpacedFrom gap (some slot) slots

pub state_of-put :
    (states : States) (host h : Text) (state : StoreState)
    → state_of (put states host state) h ≡ (if text_eq host h then state else state_of states h)
unfolding state_of
state_of-put states host h state = ground (arith, get-put states host h state)

slot_later :
    (limits : Limits) (jitter : ℕ) (now : Time) (state : StoreState) (last : Time)
    → state.last_request_at ≡ some last
    → last + limits.min_interval ≤ slot_of limits jitter now state
unfolding slot_of free_at
slot_later limits jitter now state last e = ground arith

abbrev last_of : States → Text → Option Time
last_of states host = (state_of states host).last_request_at

-- A step gives no slot and moves no host's last request, or it gives a slot to one host.
Slotted : Limits → States → Option (Text × Time) → States → Type 0
Slotted limits states none states' = (host : Text) → last_of states' host ≡ last_of states host
Slotted limits states (some (h, slot)) states' =
    ((last : Time) → last_of states h ≡ some last → last + limits.min_interval ≤ slot)
    × ((host : Text)
        → last_of states' host ≡ (if text_eq h host then some slot else last_of states host))

last_of-put_any :
    (states : States) (h host : Text) (state : StoreState)
    → last_of (put states h state) host
      ≡ (if text_eq h host then state.last_request_at else last_of states host)
last_of-put_any states h host state =
    ap (λ (s : StoreState). s.last_request_at) (state_of-put states h host state)
    ∙ (elim (Bool-cases (text_eq h host)) [ inl e ↦ rw e refl | inr e ↦ rw e refl ])

last_of-put :
    (states : States) (h host : Text) (state : StoreState)
    → state.last_request_at ≡ last_of states h
    → last_of (put states h state) host ≡ last_of states host
last_of-put states h host state e =
    ground (arith, state_of-put states h host state, eq_of_text_eq h host)

step-Slotted :
    (limits : Limits) (call : Call) (states : States)
    → Slotted limits states (step limits call states).0 (step limits call states).1
unfolding step before after Slotted
step-Slotted limits (before_call h now jitter) states =
    elim (Bool-cases (is_open (state_of states h) now)) [
      | inl shut ↦ rw shut (λ host. last_of-put states h host (state_of states h) refl)
      | inr free ↦ rw free (
        slot_later limits jitter now (state_of states h),
        λ host. last_of-put_any states h host _,
      )
    ]
step-Slotted limits (after_call h now true) states = λ host. last_of-put states h host _ refl
step-Slotted limits (after_call h now false) states = λ host. last_of-put states h host _ refl

pub SpacedFrom-cons :
    (gap : ℕ) (o : Option Time) (slot : Time) (slots : List Time)
    → ((last : Time) → o ≡ some last → last + gap ≤ slot)
    → SpacedFrom gap (some slot) slots
    → SpacedFrom gap o (slot ∷ slots)
SpacedFrom-cons gap none slot slots later rest = rest
SpacedFrom-cons gap (some last) slot slots later rest = (later last refl, rest)

-- Whatever the threads call, on whatever hosts, at whatever times of their clocks and with whatever
-- jitter, two slots that are given for one host are at least the interval apart.
pub run-SpacedFrom :
    (limits : Limits) (calls : List Call) (states : States) (host : Text)
    → SpacedFrom limits.min_interval
        (state_of states host).last_request_at
        (slots_of host (run limits calls states).0)
unfolding run Slotted
run-SpacedFrom limits [] states host = tt
run-SpacedFrom limits (call ∷ calls) states host =
    go (step limits call states).0 (step limits call states).1 (step-Slotted limits call states)
      (run-SpacedFrom limits calls (step limits call states).1 host)
  where
    go :
        (o : Option (Text × Time)) (states' : States)
        → Slotted limits states o states'
        → SpacedFrom limits.min_interval
            (last_of states' host)
            (slots_of host (run limits calls states').0)
        → SpacedFrom limits.min_interval (last_of states host) (
            slots_of host (elim o [
              | none ↦ (run limits calls states').0
              | some slot ↦ slot ∷ (run limits calls states').0
            ]))
    go none states' slotted rest = rw⁻¹ (slotted host) rest
    go (some (h, slot)) states' (later, moved) rest = elim (Bool-cases (text_eq h host)) [
      | inl same ↦ rw same (
          SpacedFrom-cons limits.min_interval (last_of states host) slot _
            (λ last e. later last (ap (last_of states) (eq_of_text_eq h host same) ∙ e))
            (subst
              (λ o. SpacedFrom limits.min_interval o (slots_of host (run limits calls states').0))
              (moved host ∙ rw same refl) rest))
      | inr other ↦ rw other (
          subst (λ o. SpacedFrom limits.min_interval o (slots_of host (run limits calls states').0))
            (moved host ∙ rw other refl) rest)
    ]
