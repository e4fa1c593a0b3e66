-- ===== src/Scheduler/Reconciled.antt =====
-- After `reconcile` the queue is what was wanted.
use mathlib.Core.Path.{subst}
use product_updates.Prelude.{
  ◌≡◌, ◌∷◌, [], ◌&&◌, ◌==◌, some, none, Option, ℕ, true, false, not, refl, ap, ◌∙◌, arith, inl, inr,
  Bool-cases, is_some, if◌then◌else◌, ==_iff,
}
use product_updates.Scheduler.{
  Schedule, interval_of, schedule_product, unschedule_product, ReconcileReport, no_changes, ensure,
  ensure_all, drop_job, drop_all, reconcile,
}

interval_of-schedule_product :
    (id interval k : ℕ) (jobs : Schedule)
    → interval_of k (schedule_product id interval jobs)
      ≡ (if id == k then some interval else interval_of k jobs)
unfolding interval_of schedule_product
interval_of-schedule_product id interval k [] = refl
interval_of-schedule_product id interval k ((i, n) ∷ jobs) =
    let rest = interval_of-schedule_product id interval k jobs in ground (arith, rest)

interval_of-unschedule_product :
    (id k : ℕ) (jobs : Schedule)
    → interval_of k (unschedule_product id jobs) ≡ (if id == k then none else interval_of k jobs)
unfolding interval_of unschedule_product
interval_of-unschedule_product id k [] = ground arith
interval_of-unschedule_product id k ((i, n) ∷ jobs) =
    let rest = interval_of-unschedule_product id k jobs in ground (arith, rest)

-- a product stands once among the wanted ones
abbrev pub HasUniqueKeys : Schedule → Type 0
HasUniqueKeys [] = Unit
HasUniqueKeys (job ∷ jobs) = (interval_of job.0 jobs ≡ none) × HasUniqueKeys jobs

-- `a` if there is one, and else `b`
abbrev first_of : Option ℕ → Option ℕ → Option ℕ
first_of (some n) b = some n
first_of none b = b

-- one round: the product has its interval, and the others are as they were
interval_of-ensure :
    (id interval k : ℕ) (now : Option ℕ) (jobs : Schedule) (r : ReconcileReport)
    → interval_of id jobs ≡ now
    → interval_of k (ensure id interval now (jobs, r)).0
      ≡ (if id == k then some interval else interval_of k jobs)
unfolding ensure
interval_of-ensure id interval k none jobs r h = interval_of-schedule_product id interval k jobs
interval_of-ensure id interval k (some old) jobs r h = elim (Bool-cases (old == interval)) [
  | inl e ↦ rw e (ground (arith, e, h))
  | inr e ↦ rw e (interval_of-schedule_product id interval k jobs)
]

-- a product that is wanted later is another one
wanted_later :
    (id k : ℕ) (desired : Schedule)
    → interval_of id desired ≡ none
    → is_some (interval_of k desired) ≡ true
    → (id == k) ≡ false
wanted_later id k desired absent wanted = elim (Bool-cases (id == k)) [
  | inl e ↦
      let same : id ≡ k = (==_iff id k).0 e in
      let gone : interval_of k desired ≡ none =
        subst (λ (i : ℕ). interval_of i desired ≡ none) same absent in
      ground (arith, wanted, gone)
  | inr e ↦ e
]

-- the jobs agree with the schedule that was read on all products that are still to come
AgreesOn : Schedule → Schedule → Schedule → Type 0
AgreesOn desired current jobs =
    (k : ℕ) → is_some (interval_of k desired) ≡ true → interval_of k jobs ≡ interval_of k current

agrees_at_first : (desired current : Schedule) → AgreesOn desired current current
unfolding AgreesOn
agrees_at_first desired current k wanted = refl

newer :
    (id n k : ℕ) (desired : Schedule) (after before : Option ℕ)
    → interval_of id desired ≡ none
    → after ≡ (if id == k then some n else before)
    → first_of (interval_of k desired) after
      ≡ first_of (if id == k then some n else interval_of k desired) before
newer id n k desired after before absent e = elim (Bool-cases (id == k)) [
  | inl same ↦
      let gone : interval_of k desired ≡ none =
        subst (λ (i : ℕ). interval_of i desired ≡ none) ((==_iff id k).0 same) absent in
      rw (e, same, gone) refl
  | inr other ↦ rw (e, other) refl
]

interval_of-ensure_all :
    (current desired jobs : Schedule) (r : ReconcileReport) (k : ℕ)
    → HasUniqueKeys desired
    → AgreesOn desired current jobs
    → interval_of k (ensure_all current desired (jobs, r)).0
      ≡ first_of (interval_of k desired) (interval_of k jobs)
unfolding ensure_all interval_of AgreesOn
interval_of-ensure_all current [] jobs r k unique agrees = refl
interval_of-ensure_all current ((id, n) ∷ desired) jobs r k unique agrees =
    let next = ensure id n (interval_of id current) (jobs, r) in
    let one : (j : ℕ) → interval_of j next.0 ≡ (if id == j then some n else interval_of j jobs) =
      λ j. interval_of-ensure id n j (interval_of id current) jobs r (agrees id (ground arith)) in
    let still : AgreesOn desired current next.0 = λ j wanted.
      let other = wanted_later id j desired unique.0 wanted in
      let before = agrees j (ground (arith, other, wanted)) in one j ∙ rw other before in
    let rest = interval_of-ensure_all current desired next.0 next.1 k unique.1 still in
    rest ∙ newer id n k desired (interval_of k next.0) (interval_of k jobs) unique.0 (one k)

-- `old` if the job goes, and else `kept`
abbrev dropped : Option ℕ → Option ℕ → Option ℕ → Option ℕ
dropped now wanted jobs = if is_some now && not (is_some wanted) then none else jobs

interval_of-drop_job :
    (id k : ℕ) (wanted : Option ℕ) (jobs : Schedule) (r : ReconcileReport)
    → interval_of k (drop_job id wanted (jobs, r)).0
      ≡ (if not (is_some wanted) && id == k then none else interval_of k jobs)
unfolding drop_job
interval_of-drop_job id k none jobs r = interval_of-unschedule_product id k jobs
interval_of-drop_job id k (some n) jobs r = refl

interval_of-drop_all :
    (desired current jobs : Schedule) (r : ReconcileReport) (k : ℕ)
    → interval_of k (drop_all desired current (jobs, r)).0
      ≡ dropped (interval_of k current) (interval_of k desired) (interval_of k jobs)
unfolding drop_all interval_of
interval_of-drop_all desired [] jobs r k = refl
interval_of-drop_all desired ((id, n) ∷ current) jobs r k =
    let next = drop_job id (interval_of id desired) (jobs, r) in
    let one = interval_of-drop_job id k (interval_of id desired) jobs r in
    let rest = interval_of-drop_all desired current next.0 next.1 k in
    elim (Bool-cases (id == k)) [
      | inl same ↦
          let wanted : interval_of id desired ≡ interval_of k desired =
            ap (λ i. interval_of i desired) ((==_iff id k).0 same) in
          ground (arith, rest, one, same, wanted)
      | inr other ↦ ground (arith, rest, one, other)
    ]

-- After the queue is reconciled it holds exactly the jobs that were wanted, each with the interval that
-- was wanted, whatever it held before. A product stands once among the wanted ones.
pub reconcile-interval_of :
    (desired current : Schedule) (k : ℕ)
    → HasUniqueKeys desired
    → interval_of k (reconcile desired current).0 ≡ interval_of k desired
unfolding reconcile
reconcile-interval_of desired current k unique =
    let ensured = ensure_all current desired (current, no_changes) in
    let all =
      interval_of-ensure_all current desired current no_changes k unique
        (agrees_at_first desired current) in
    interval_of-drop_all desired current ensured.0 ensured.1 k
    ∙ rw all (settled (interval_of k current) (interval_of k desired))
  where
    settled : (now wanted : Option ℕ) → dropped now wanted (first_of wanted now) ≡ wanted
    settled none none = refl
    settled none (some n) = refl
    settled (some m) none = refl
    settled (some m) (some n) = refl
