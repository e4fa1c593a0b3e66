-- ===== src/Scheduler/Heartbeat/Living.antt =====
-- What the heartbeats say of the workers.
use native.Mathlib.Nat.{div-lt_iff_lt-mul}
use product_updates.Domain.Contexts.{second}
use product_updates.Prelude.{
  ◌≡◌, ◌<◌, ◌∷◌, [], ◌||◌, ◌+◌, ◌*◌, ◌-◌, ◌/◌, some, none, List, ℕ, Bool, true, false, any, refl,
  sym, ap, ◌∙◌, arith, inl, inr, Bool-cases, if◌then◌else◌, max, ltb, leb,
}
use product_updates.Scheduler.Heartbeat.{Heartbeat, read, running, latest_beat, stale_after}

-- a beat that is not older than the limit, in whole seconds
abbrev pub is_live : ℕ → ℕ → Heartbeat → Bool
is_live interval now h = ltb now (h.last_seen_at + (stale_after interval + 1) * second)

abbrev pub is_none_of : List Heartbeat → Bool
is_none_of [] = true
is_none_of (h ∷ rows) = false

leb-div : (now t limit : ℕ) → leb ((now - t) / second) limit ≡ ltb now (t + (limit + 1) * second)
leb-div now t limit =
    let within = div-lt_iff_lt-mul {k = second} {x = now - t} {y = limit + 1} (omega arith) in
    elim (Bool-cases (ltb now (t + (limit + 1) * second))) [
      | inl e ↦
          let short : (now - t) / second < limit + 1 = within.1 (ground (arith, e)) in
          ground (arith, e, short)
      | inr e ↦ elim (Bool-cases (leb ((now - t) / second) limit)) [
        | inl d ↦
            let short : now - t < (limit + 1) * second = within.0 (ground (arith, d)) in
            absurd (ground (arith, e, short))
        | inr d ↦ d ∙ sym e
      ]
    ]

latest_beat-any :
    (now extra t : ℕ) (rows : List Heartbeat)
    → ltb now (latest_beat t rows + extra)
      ≡ (ltb now (t + extra) || any (λ h. ltb now (h.last_seen_at + extra)) rows)
unfolding latest_beat
latest_beat-any now extra t [] = ground arith
latest_beat-any now extra t (h ∷ rows) =
    let rest = latest_beat-any now extra (max t h.last_seen_at) rows in ground (arith, rest)

-- With no row in the table nothing is known; otherwise a worker is seen to run exactly if one of the
-- beats is not older than the limit, in whole seconds.
pub running-read :
    (rows : List Heartbeat) (interval now : ℕ)
    → running (read (some rows) interval now)
      ≡ (if is_none_of rows then none else some (any (is_live interval now) rows))
unfolding running read
running-read [] interval now = refl
running-read (h ∷ rows) interval now =
    let latest = latest_beat h.last_seen_at rows in
    let shown = leb-div now latest (stale_after interval) in
    let split = latest_beat-any now ((stale_after interval + 1) * second) h.last_seen_at rows in
    ap some (shown ∙ split)
