-- ===== src/Runner/Sweep.antt =====
-- The pass over all products: it comes to its end, and which products it checks.
use product_updates.Claims.{Claim, claim, release, default_lease_seconds}
use product_updates.Domain.Contexts.{Time}
use product_updates.Domain.Results.{FetchResult}
use product_updates.Claims.Free.{claim-is_open}
use product_updates.Runner.Open.{
  IsUnique, open_ids, open_ids-SameOpen, claim-SameOpen, release-SameOpen, All-take, keep-IsUnique,
  take-IsUnique,
}
use product_updates.Runner.Checked.{check_product-product_id}
use product_updates.Prelude.{
  map, sym, ap, ℕ, suc, ◌+◌, ◌==◌, some, none, List, [], ◌∷◌, Text, Bool, true, Option, take,
  length, All, All-mono, All-map, All-keep, is_some, ◌≡◌, arith, refl, ◌∙◌, inl, inr, Bool-cases,
}
use product_updates.Runner.{
  RunSettings, CheckOutcome, CheckAllSummary, Visit, Tables, no_guard, run_check,
  checked_and_released, sweep, run_all_checks, schedulable_ids, deliver_own, outcome_of,
  deliver_all,
}
use product_updates.Tracking.{Product, Database, find_product, write_product}
use product_updates.Tracking.Cases.{check_product-Good, check_product_found}
use product_updates.Tracking.Checking.{
  Circumstances, check_found, record_check, record_skipped, add_execution, stored,
}
use product_updates.Tracking.Recording.{settle_product}

abbrev is_listed : ℕ → List Product → Bool
is_listed id products = is_some (find_product id products)

is_listed-write_product :
    (id : ℕ) (p : Product) (ps : List Product) → is_listed id (write_product p ps) ≡ is_listed id ps
unfolding find_product write_product
is_listed-write_product id p [] = refl
is_listed-write_product id p (q ∷ ps) = elim (Bool-cases (q.id == p.id)) [
  | inl same ↦ ground (arith, same, is_listed-write_product id p ps)
  | inr other ↦ ground (arith, other, is_listed-write_product id p ps)
]

-- No check adds or removes a product.
abbrev SameProducts : Database → Database → Type 0
SameProducts db db' = (id : ℕ) → is_listed id db'.products ≡ is_listed id db.products

record_check-SameProducts :
    (settings : RunSettings) (product : Product) (now : Circumstances) (db : Database)
    → (result : FetchResult) (attempts : ℕ)
    → SameProducts db
        (record_check settings.hash settings.dedupe_window_seconds product result now.started
          now.finished now.duration_ms attempts db).1
unfolding record_check
record_check-SameProducts settings product now db result attempts id =
    is_listed-write_product id (stored (settle_product product result now.finished)) db.products

record_skipped-SameProducts :
    (product : Product) (started now : Time) (reason : Text) (db : Database)
    → SameProducts db (record_skipped product started now reason db).1
unfolding record_skipped add_execution
record_skipped-SameProducts product started now reason db id = refl

-- What the check of a claimed product gives: an outcome of it, the release of its claim, and the same
-- products.
abbrev HasOutcome : RunSettings → Text → Visit → ℕ → List Claim → Database → Type 0
HasOutcome settings worker visit id claims db =
    (r : CheckOutcome × Tables) × ((checked_and_released settings worker visit id (claims, db)
        ≡ some r)
      × ((r.0.product_id ≡ id) × ((r.1.0 ≡ release id worker claims) × SameProducts db r.1.1)))

-- A claimed product that is there is checked.
checked_and_released-HasOutcome :
    (settings : RunSettings) (worker : Text) (visit : Visit) (id : ℕ) (claims : List Claim)
    (db : Database)
    → is_listed id db.products ≡ true
    → HasOutcome settings worker visit id claims db
unfolding checked_and_released run_check deliver_own outcome_of
checked_and_released-HasOutcome settings worker visit id claims db has =
    go (find_product id db.products) refl
  where
    go :
        (found : Option Product)
        → find_product id db.products ≡ found
        → HasOutcome settings worker visit id claims db
    go none f = absurd (ground (arith, has))
    go (some product) f =
        let checked =
          check_product_found settings.hash settings.dedupe_window_seconds settings.max_retries
            no_guard visit.check id 0 db product f in
        let done =
          check_found settings.hash settings.dedupe_window_seconds settings.max_retries no_guard
            visit.check product (0, db) in
        (
          (outcome_of done.0, (release id worker claims, done.1.1)),
          (
            rw (checked, checked_and_released, run_check) refl,
            (
              check_product-product_id settings.hash settings.dedupe_window_seconds
                  settings.max_retries no_guard visit.check id 0 db done checked,
              (
                refl,
                check_product-Good settings.hash settings.dedupe_window_seconds settings.max_retries
                    visit.check db (λ d. SameProducts db d.1) no_guard id 0 done
                    (λ p e. record_check-SameProducts settings p visit.check db _ _)
                    (λ p reason e.
                      record_skipped-SameProducts p visit.check.started visit.check.finished reason
                        db)
                    checked,
              ),
            ),
          ),
        )

-- the products of the outcomes
abbrev pub products_of : List CheckOutcome → List ℕ
products_of outcomes = map (λ o. o.product_id) outcomes

-- what the pass answers for the ids
abbrev Complete :
    (ℕ → Visit) → List ℕ → List Claim → Option ((List CheckOutcome × ℕ) × Tables) → Type 0
Complete visits ids claims o =
    (r : (List CheckOutcome × ℕ) × Tables) × ((o ≡ some r)
      × ((products_of r.0.0 ≡ open_ids visits ids claims) × (length r.0.0 + r.0.1 ≡ length ids)))

sweep-Complete :
    (settings : RunSettings) (worker : Text) (visits : ℕ → Visit) (ids : List ℕ)
    (claims : List Claim) (db : Database)
    → All (λ id. is_listed id db.products ≡ true) ids
    → IsUnique ids
    → Complete visits ids claims (sweep settings worker visits ids (claims, db))
unfolding sweep
sweep-Complete settings worker visits [] claims db has unique =
    ((([], 0), (claims, db)), (refl, (refl, omega arith)))
sweep-Complete settings worker visits (id ∷ ids) claims db (here, has) (alone, unique) =
    let at = (visits 0).claimed_at in
    let taken = claim id worker default_lease_seconds at claims in
    let later : ℕ → Visit = λ i. visits (suc i) in
    let opened = claim-is_open id worker default_lease_seconds at claims in
    elim (Bool-cases taken.0) [
      | inl granted ↦
          let (r, (e, (own, (freed, same)))) =
            checked_and_released-HasOutcome settings worker (visits 0) id taken.1 db here in
          let (rest, (er, (those, n))) =
            sweep-Complete settings worker later ids r.1.0 r.1.1
              (All-mono _ _ ids (λ i h. same i ∙ h) has) unique in
          let others : open_ids later ids r.1.0 ≡ open_ids later ids claims =
            ap (open_ids later ids) freed
            ∙ open_ids-SameOpen later ids claims (release id worker taken.1)
                (release-SameOpen id worker at claims ids alone) in
          (
            ((r.0 ∷ rest.0.0, rest.0.1), rest.1),
            (
              rw (granted, e, er) refl,
              (rw (sym opened ∙ granted, own, those ∙ others) refl, omega (arith, n)),
            ),
          )
      | inr held ↦
          let (rest, (er, (those, n))) =
            sweep-Complete settings worker later ids taken.1 db has unique in
          let others : open_ids later ids taken.1 ≡ open_ids later ids claims =
            open_ids-SameOpen later ids claims taken.1
              (claim-SameOpen id worker at claims ids alone) in
          (
            ((rest.0.0, suc rest.0.1), rest.1),
            (rw (held, er) refl, (rw (sym opened ∙ held, those ∙ others) refl, omega (arith, n))),
          )
    ]

is_listed_self : (p : Product) (ps : List Product) → is_listed p.id (p ∷ ps) ≡ true
unfolding find_product
is_listed_self p ps = ground arith

is_listed_more :
    (p : Product) (ps : List Product) (id : ℕ)
    → is_listed id ps ≡ true
    → is_listed id (p ∷ ps) ≡ true
unfolding find_product
is_listed_more p ps id h = ground arith

-- Every product is found by its id.
is_listed_all : (ps : List Product) → All (λ p. is_listed p.id ps ≡ true) ps
is_listed_all [] = tt
is_listed_all (p ∷ ps) =
    (is_listed_self p ps, All-mono _ _ ps (λ q h. is_listed_more p ps q.id h) (is_listed_all ps))

-- What the pass over the ids answers: the products of its outcomes, in their order, are those whose
-- claims were open when their turn came, and the others are counted as skipped.
pub record IsPassed (visits : ℕ → Visit) (ids : List ℕ) (claims : List Claim) (r : CheckAllSummary)
    : Type 0 where
  pub checked : products_of r.outcomes ≡ open_ids visits ids claims
  pub counted : length r.outcomes + r.skipped ≡ length ids

pub run_all_checks_complete :
    (settings : RunSettings) (worker : Text) (visits : ℕ → Visit) (later : Time) (limit : ℕ)
    (claims : List Claim) (db : Database)
    → IsUnique (map (λ p. p.id) db.products)
    → (r : CheckAllSummary × Tables) × ((run_all_checks settings worker visits later limit
            (claims, db)
          ≡ some r)
        × IsPassed visits (take limit (schedulable_ids db.products)) claims r.0)
unfolding run_all_checks schedulable_ids
run_all_checks_complete settings worker visits later limit claims db unique =
    let ids = take limit (schedulable_ids db.products) in
    let (rest, (e, (those, n))) =
      sweep-Complete settings worker visits ids claims db
        (All-take _ limit (schedulable_ids db.products)
          (All-map _ (λ p. p.id) _ (All-keep _ _ db.products (is_listed_all db.products))))
        (take-IsUnique limit (schedulable_ids db.products) (keep-IsUnique _ db.products unique)) in
    let done = deliver_all settings 50 none later rest.1.1 in
    (
      (record { outcomes = rest.0.0; skipped = rest.0.1; delivery = done.0 }, (rest.1.0, done.1)),
      (rw (e, run_all_checks) refl, record { checked = those; counted = n }),
    )
