-- ===== src/Scheduler/Heartbeat.antt =====
-- scheduler/heartbeat.py: the rows that workers keep of themselves, and what is read of them. A time is
-- in microseconds; the host and the number of a process are left out.
pub mod Living
pub mod Beating
use product_updates.Domain.Contexts.{second}
use product_updates.Prelude.{
  if◌then◌else◌, ◌&&◌, ◌==◌, ◌*◌, ◌-◌, ◌/◌, ◌∷◌, [], some, none, Option, List, Text, ℕ, Bool, true,
  false, not, keep, length, text_eq, ltb, leb, max, ◌+◌,
}

-- `STALE_INTERVALS`
abbrev pub stale_intervals : ℕ
stale_intervals = 3

-- `MIN_STALE_SECONDS`
abbrev pub min_stale_seconds : ℕ
min_stale_seconds = 120

-- db/models.py `WorkerHeartbeat`
pub record Heartbeat : Type 0 where
  pub worker_id : Text
  pub started_at : ℕ
  pub last_seen_at : ℕ

-- `stale_after`
unfoldable pub stale_after : ℕ → ℕ
stale_after reconcile_interval_seconds =
    max min_stale_seconds (reconcile_interval_seconds * stale_intervals)

-- `touch`: a worker has one row, which its first beat makes
unfoldable pub touch : ℕ → Text → List Heartbeat → List Heartbeat
touch now worker [] = record { worker_id = worker; started_at = now; last_seen_at = now } ∷ []
touch now worker (h ∷ rows) =
    let rest = touch now worker rows in
    if text_eq h.worker_id worker then record h { last_seen_at = now } ∷ rows else h ∷ rest

-- `clear`
unfoldable pub clear : Text → List Heartbeat → List Heartbeat
clear worker rows = keep (λ h. not (text_eq h.worker_id worker)) rows

-- `WorkerLiveness`
pub record WorkerLiveness : Type 0 where
  pub available : Bool
  pub workers : ℕ
  pub last_seen_at : Option ℕ
  pub seconds_since : Option ℕ
  pub stale_after_seconds : ℕ

abbrev pub or_zero : Option ℕ → ℕ
or_zero none = 0
or_zero (some n) = n

-- `WorkerLiveness.running`
unfoldable pub running : WorkerLiveness → Option Bool
running w = if not w.available then none else elim w.last_seen_at [
  | none ↦ none
  | some t ↦ some (leb (or_zero w.seconds_since) w.stale_after_seconds)
]

-- the `max` of the times
unfoldable pub latest_beat : ℕ → List Heartbeat → ℕ
latest_beat t [] = t
latest_beat t (h ∷ rows) = latest_beat (max t h.last_seen_at) rows

-- `read`, of a table that is not there or has these rows; whole seconds count, and none for a beat
-- that is still to come
unfoldable pub read : Option (List Heartbeat) → ℕ → ℕ → WorkerLiveness
unfolding stale_after latest_beat
read none interval now = record {
  available = false;
  workers = 0;
  last_seen_at = none;
  seconds_since = none;
  stale_after_seconds = stale_after interval;
}
read (some []) interval now = record {
  available = true;
  workers = 0;
  last_seen_at = none;
  seconds_since = none;
  stale_after_seconds = stale_after interval;
}
read (some (h ∷ rows)) interval now =
    let latest = latest_beat h.last_seen_at rows in
    record {
      available = true;
      workers = length (h ∷ rows);
      last_seen_at = some latest;
      seconds_since = some ((now - latest) / second);
      stale_after_seconds = stale_after interval;
    }

-- `prune`: the rows that stay, and how many go
unfoldable pub prune : ℕ → ℕ → List Heartbeat → ℕ × List Heartbeat
prune now older_than_seconds rows =
    let is_old = λ (h : Heartbeat). ltb (h.last_seen_at + older_than_seconds * second) now in
    (length (keep is_old rows), keep (λ h. not (is_old h)) rows)
