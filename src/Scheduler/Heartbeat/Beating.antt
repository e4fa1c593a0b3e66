-- ===== src/Scheduler/Heartbeat/Beating.antt =====
-- A worker that has reported in, among the others.
use mathlib.Core.Path.{subst}
use native.Mathlib.Nat.{mul-le-mul_right}
use product_updates.Domain.Contexts.{second}
use product_updates.Prelude.{
  ◌≡◌, ◌≤◌, ◌<◌, ◌∷◌, [], ◌&&◌, ◌||◌, ◌+◌, ◌*◌, some, List, Text, ℕ, Bool, true, false, any, All,
  refl, sym, ap, ◌∙◌, arith, inl, inr, Bool-cases, text_eq, text_eq_refl, eq_of_text_eq, ltb, ◌⊎◌,
}
use product_updates.Scheduler.Heartbeat.{Heartbeat, touch, clear, prune, read, running, stale_after}
use product_updates.Scheduler.Heartbeat.Living.{is_live, is_none_of, running-read}

-- What happens to the table: a worker reports in, a worker stops, old rows are dropped.
pub data Beat : Type 0 where
  touches : ℕ → Text → Beat
  clears : Text → Beat
  prunes : ℕ → ℕ → Beat

unfoldable pub run_beats : List Beat → List Heartbeat → List Heartbeat
unfolding touch clear prune
run_beats [] rows = rows
run_beats (touches now worker ∷ beats) rows = run_beats beats (touch now worker rows)
run_beats (clears worker ∷ beats) rows = run_beats beats (clear worker rows)
run_beats (prunes now older_than ∷ beats) rows = run_beats beats (prune now older_than rows).1

-- The worker does not stop, its own beats come at `now` or later, and rows are dropped at `asked` at
-- the latest and only if they are older than the limit and one second.
abbrev pub IsQuiet : ℕ → ℕ → ℕ → Text → Beat → Type 0
IsQuiet interval now asked worker (touches at other) = (text_eq other worker ≡ false) ⊎ (now ≤ at)
IsQuiet interval now asked worker (clears other) = text_eq other worker ≡ false
IsQuiet interval now asked worker (prunes at older_than) =
    (at ≤ asked) × (stale_after interval + 1 ≤ older_than)

and_false : (a : Bool) → (a && false) ≡ false
and_false true = refl
and_false false = refl

module _ (interval now asked : ℕ) (worker : Text) where
  -- a row of the worker that is live
  abbrev is_beating : Heartbeat → Bool
  is_beating h = text_eq h.worker_id worker && is_live interval asked h

  touch-is_beating :
      (rows : List Heartbeat)
      → asked < now + (stale_after interval + 1) * second
      → (at : ℕ) → now ≤ at
      → any is_beating (touch at worker rows) ≡ true
  unfolding touch
  touch-is_beating [] soon at later = ground (arith, soon, later, text_eq_refl worker)
  touch-is_beating (h ∷ rows) soon at later =
      let rest = touch-is_beating rows soon at later in
      elim (Bool-cases (text_eq h.worker_id worker)) [
        | inl e ↦ rw (e, e) (ground (arith, soon, later))
        | inr e ↦ rw (e, e) rest
      ]

  -- a row of another worker
  row_of_other :
      (r : Heartbeat) (other : Text)
      → text_eq r.worker_id other ≡ true
      → text_eq other worker ≡ false
      → text_eq r.worker_id worker ≡ false
  row_of_other r other e away =
      ap (λ t. text_eq t worker) (eq_of_text_eq r.worker_id other e) ∙ away

  -- the first row goes on, and so does what the others give
  beating_further :
      (r : Heartbeat) (rows rows' : List Heartbeat)
      → (any is_beating rows ≡ true → any is_beating rows' ≡ true)
      → any is_beating (r ∷ rows) ≡ true
      → any is_beating (r ∷ rows') ≡ true
  beating_further r rows rows' f h = elim (Bool-cases (is_beating r)) [
    | inl e ↦ rw e refl
    | inr e ↦
        let rest : any is_beating rows ≡ true = sym (ap (λ b. b || any is_beating rows) e) ∙ h in
        rw e (f rest)
  ]

  -- the first row is another worker's
  beating_later :
      (r : Heartbeat) (rows : List Heartbeat)
      → text_eq r.worker_id worker ≡ false
      → any is_beating (r ∷ rows) ≡ true
      → any is_beating rows ≡ true
  beating_later r rows away h =
      sym (ap (λ b. (b && is_live interval asked r) || any is_beating rows) away) ∙ h

  touch-other :
      (at : ℕ) (other : Text) (rows : List Heartbeat)
      → text_eq other worker ≡ false
      → any is_beating rows ≡ true
      → any is_beating (touch at other rows) ≡ true
  unfolding touch
  touch-other at other [] away h = ground (arith, h)
  touch-other at other (r ∷ rows) away h = elim (Bool-cases (text_eq r.worker_id other)) [
    | inl e ↦
        let theirs = row_of_other r other e away in rw (e, theirs) (beating_later r rows theirs h)
    | inr e ↦ rw e (beating_further r rows (touch at other rows) (touch-other at other rows away) h)
  ]

  clear-other :
      (other : Text) (rows : List Heartbeat)
      → text_eq other worker ≡ false
      → any is_beating rows ≡ true
      → any is_beating (clear other rows) ≡ true
  unfolding clear
  clear-other other [] away h = ground (arith, h)
  clear-other other (r ∷ rows) away h = elim (Bool-cases (text_eq r.worker_id other)) [
    | inl e ↦
        rw e (clear-other other rows away (beating_later r rows (row_of_other r other e away) h))
    | inr e ↦ rw e (beating_further r rows (clear other rows) (clear-other other rows away) h)
  ]

  -- an old row is not live
  old_row :
      (at older_than : ℕ) (r : Heartbeat)
      → at ≤ asked
      → stale_after interval + 1 ≤ older_than
      → ltb (r.last_seen_at + older_than * second) at ≡ true
      → is_beating r ≡ false
  old_row at older_than r early long e =
      let longer = mul-le-mul_right second long in ground (arith, early, longer, e)

  prune-is_beating :
      (at older_than : ℕ) (rows : List Heartbeat)
      → at ≤ asked
      → stale_after interval + 1 ≤ older_than
      → any is_beating rows ≡ true
      → any is_beating (prune at older_than rows).1 ≡ true
  unfolding prune
  prune-is_beating at older_than [] early long h = ground (arith, h)
  prune-is_beating at older_than (r ∷ rows) early long h =
      elim (Bool-cases (ltb (r.last_seen_at + older_than * second) at)) [
        | inl e ↦
            let dead = old_row at older_than r early long e in
            let rest : any is_beating rows ≡ true =
              sym (ap (λ b. b || any is_beating rows) dead) ∙ h in
            rw e (prune-is_beating at older_than rows early long rest)
        | inr e ↦ rw e (
            beating_further r rows (prune at older_than rows).1
              (prune-is_beating at older_than rows early long) h)
      ]

  beats-is_beating :
      (beats : List Beat) (rows : List Heartbeat)
      → asked < now + (stale_after interval + 1) * second
      → All (IsQuiet interval now asked worker) beats
      → any is_beating rows ≡ true
      → any is_beating (run_beats beats rows) ≡ true
  unfolding run_beats
  beats-is_beating [] rows soon quiet h = h
  beats-is_beating (touches at other ∷ beats) rows soon (inl away, quiet) h =
      beats-is_beating beats (touch at other rows) soon quiet (touch-other at other rows away h)
  beats-is_beating (touches at other ∷ beats) rows soon (inr later, quiet) h =
      beats-is_beating beats (touch at other rows) soon quiet
        (elim (Bool-cases (text_eq other worker)) [
          | inl e ↦
              subst (λ w. any is_beating (touch at w rows) ≡ true)
                (sym (eq_of_text_eq other worker e)) (touch-is_beating rows soon at later)
          | inr e ↦ touch-other at other rows e h
        ])
  beats-is_beating (clears other ∷ beats) rows soon (away, quiet) h =
      beats-is_beating beats (clear other rows) soon quiet (clear-other other rows away h)
  beats-is_beating (prunes at older_than ∷ beats) rows soon ((early, long), quiet) h =
      beats-is_beating beats (prune at older_than rows).1 soon quiet
        (prune-is_beating at older_than rows early long h)

  -- a beating row is a live row
  live_of_beating :
      (rows : List Heartbeat)
      → any is_beating rows ≡ true
      → (is_none_of rows ≡ false) × (any (is_live interval asked) rows ≡ true)
  live_of_beating [] h = ground (arith, h)
  live_of_beating (r ∷ rows) h = elim (Bool-cases (is_live interval asked r)) [
    | inl e ↦ (refl, rw e refl)
    | inr e ↦
        let dead : is_beating r ≡ false = rw e (and_false (text_eq r.worker_id worker)) in
        (refl, rw e (live_of_beating rows (sym (ap (λ b. b || any is_beating rows) dead) ∙ h)).1)
  ]

-- Once a worker has reported in, the table says that a worker runs until the limit of its beat has
-- passed, whatever is done to the table meanwhile: others report in and stop, the worker reports in
-- again at that time or later, and rows are dropped that are older than the limit and a second, at
-- the time of the reading at the latest. The worker itself does not stop.
pub beats-running :
    (rows : List Heartbeat) (worker : Text) (interval now asked : ℕ) (beats : List Beat)
    → asked < now + (stale_after interval + 1) * second
    → All (IsQuiet interval now asked worker) beats
    → running (read (some (run_beats beats (touch now worker rows))) interval asked) ≡ some true
beats-running rows worker interval now asked beats soon quiet =
    let after = run_beats beats (touch now worker rows) in
    let beating =
      beats-is_beating interval now asked worker beats (touch now worker rows) soon quiet
        (touch-is_beating interval now asked worker rows soon now (omega arith)) in
    let live = live_of_beating interval now asked worker after beating in
    running-read after interval asked ∙ rw (live.0, live.1) refl
