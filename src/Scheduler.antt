-- ===== src/Scheduler.antt =====
-- scheduler/jobqueue.py `reconcile`, and `desired_schedule` of scheduler/runner.py. The queue is what
-- its interface promises: a job for a product replaces the one it had.
pub mod Reconciled
pub mod Joining
pub mod Heartbeat
use product_updates.Domain.Enums.{TrackingStatus, active, paused}
use product_updates.Accounts.{Listing}
use product_updates.Prelude.{
  if◌then◌else◌, ◌&&◌, ◌||◌, ◌==◌, ◌+◌, ◌∷◌, [], some, none, suc, Option, List, ℕ, Bool, true,
  false, not, keep,
}

-- `{product_id: interval_seconds}`
abbrev pub Schedule : Type 0
Schedule = List (ℕ × ℕ)

-- `current.get(product_id)`
unfoldable pub interval_of : ℕ → Schedule → Option ℕ
interval_of id [] = none
interval_of id ((i, n) ∷ jobs) = if i == id then some n else interval_of id jobs

-- `schedule_product`
unfoldable pub schedule_product : ℕ → ℕ → Schedule → Schedule
schedule_product id interval [] = (id, interval) ∷ []
schedule_product id interval ((i, n) ∷ jobs) =
    let rest = schedule_product id interval jobs in
    if i == id then (i, interval) ∷ jobs else (i, n) ∷ rest

-- `unschedule_product`
unfoldable pub unschedule_product : ℕ → Schedule → Schedule
unschedule_product id jobs = keep (λ job. not (job.0 == id)) jobs

-- `ReconcileReport`
pub record ReconcileReport : Type 0 where
  pub added : ℕ
  pub updated : ℕ
  pub removed : ℕ
  pub unchanged : ℕ

abbrev pub no_changes : ReconcileReport
no_changes = record { added = 0; updated = 0; removed = 0; unchanged = 0 }

-- what the queue holds for a product that is wanted
unfoldable pub ensure : ℕ → ℕ → Option ℕ → Schedule × ReconcileReport → Schedule × ReconcileReport
unfolding schedule_product
ensure id interval none (jobs, r) =
    (schedule_product id interval jobs, record r { added = suc r.added })
ensure id interval (some existing) (jobs, r) =
    if existing == interval
    then (jobs, record r { unchanged = suc r.unchanged })
    else (schedule_product id interval jobs, record r { updated = suc r.updated })

-- the loop over what is wanted; `current` is the schedule as it was read at the start
unfoldable pub ensure_all :
    Schedule → Schedule → Schedule × ReconcileReport → Schedule × ReconcileReport
unfolding ensure interval_of
ensure_all current [] state = state
ensure_all current ((id, interval) ∷ desired) state =
    ensure_all current desired (ensure id interval (interval_of id current) state)

-- a job that is no longer wanted goes
unfoldable pub drop_job : ℕ → Option ℕ → Schedule × ReconcileReport → Schedule × ReconcileReport
unfolding unschedule_product
drop_job id (some wanted) state = state
drop_job id none (jobs, r) = (unschedule_product id jobs, record r { removed = suc r.removed })

-- the loop over `current.keys() - desired.keys()`
unfoldable pub drop_all :
    Schedule → Schedule → Schedule × ReconcileReport → Schedule × ReconcileReport
unfolding drop_job interval_of
drop_all desired [] state = state
drop_all desired ((id, n) ∷ current) state =
    drop_all desired current (drop_job id (interval_of id desired) state)

-- `JobQueue.reconcile`
unfoldable pub reconcile : Schedule → Schedule → Schedule × ReconcileReport
unfolding ensure_all drop_all
reconcile desired current =
    drop_all desired current (ensure_all current desired (current, no_changes))

-- `product.check_interval_seconds or settings.check_interval_seconds`
unfoldable pub interval_or : ℕ → Option ℕ → ℕ
interval_or default none = default
interval_or default (some seconds) = if seconds == 0 then default else seconds

-- `desired_schedule`
unfoldable pub desired_schedule : ℕ → List Listing → Schedule
unfolding interval_or
desired_schedule default [] = []
desired_schedule default (p ∷ ps) = elim p.tracking_status [
  | active ↦ (p.id, interval_or default p.check_interval_seconds) ∷ desired_schedule default ps
  | paused ↦ desired_schedule default ps
]
