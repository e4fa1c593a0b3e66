-- ===== src/Pacing/Guard.antt =====
-- `StoreGuard` as the guard of a check: a host whose circuit is open is not called.
use product_updates.Domain.Contexts.{Time}
use product_updates.Domain.Enums.{CheckStatus}
use product_updates.Pacing.{Limits, States, state_of, before, after, is_open}
use product_updates.Pacing.Circuit.{state_of-put_self, proceed-before}
use product_updates.Prelude.{
  ap, not, ◌∙◌, max, some, none, Text, ℕ, ◌≡◌, refl, true, false, ◌++◌, ◌∷◌, [],
}
use product_updates.Tracking.{find_product, Product, CheckExecution, Database}
use product_updates.Tracking.Checking.{
  CheckGuard, Circumstances, check_product, check_found, or_else, record_skipped, add_execution,
  skipped_execution,
}

-- what the guard reads and changes: the clock, the jitter that it draws next, and its states
pub record GuardWorld : Type 0 where
  pub clock : Time
  pub jitter : ℕ
  pub states : States

-- `before` sleeps until the slot that it claimed.
unfoldable pub store_guard : Limits → CheckGuard GuardWorld
unfolding before after
store_guard limits = record {
  before = λ host world.
      let done = before limits world.jitter world.clock host world.states in
      (
        done.0.0,
        record world {
          clock = elim done.0.1 [ none ↦ world.clock | some slot ↦ max world.clock slot ];
          states = done.1;
        },
      );
  after = λ host succeeded world. record world {
    states = after limits world.clock host succeeded world.states;
  };
}

-- What a skipped check leaves as it is: everything but the table of the checks.
pub record OnlySkipped (db : Database) (done : CheckExecution × Database) : Type 0 where
  pub status : done.0.status ≡ CheckStatus.skipped
  pub attempts : done.0.attempts ≡ 0
  pub products : done.1.products ≡ db.products
  pub prices : done.1.prices ≡ db.prices
  pub availabilities : done.1.availabilities ≡ db.availabilities
  pub rules : done.1.rules ≡ db.rules
  pub notifications : done.1.notifications ≡ db.notifications
  pub executions : done.1.executions ≡ db.executions ++ done.0 ∷ []

record_skipped-OnlySkipped :
    (product : Product) (started now : Time) (reason : Text) (db : Database)
    → OnlySkipped db (record_skipped product started now reason db)
unfolding record_skipped add_execution skipped_execution
record_skipped-OnlySkipped product started now reason db = record {
  status = refl;
  attempts = refl;
  products = refl;
  prices = refl;
  availabilities = refl;
  rules = refl;
  notifications = refl;
  executions = refl;
}

-- A check that its guard vetoes is skipped, and the guard hears nothing of an outcome.
vetoed :
    {S : Type 0} (digest : Text → Text) (window max_retries : ℕ) (guard : CheckGuard S)
    (now : Circumstances) (product : Product) (s : S) (db : Database)
    → let decision = guard.before (or_else now.host product.store_slug) s in
      decision.0.proceed ≡ false
      → let done = check_found digest window max_retries (some guard) now product (s, db) in
        OnlySkipped db (done.0, done.1.1) × (done.1.0 ≡ decision.1)
unfolding check_found
vetoed digest window max_retries guard now product s db e =
    rw e (record_skipped-OnlySkipped product now.started now.finished _ db, refl)

state_of-before_shut :
    (limits : Limits) (jitter : ℕ) (now : Time) (host : Text) (states : States)
    → is_open (state_of states host) now ≡ true
    → state_of (before limits jitter now host states).1 host ≡ state_of states host
unfolding before
state_of-before_shut limits jitter now host states shut =
    rw shut (state_of-put_self states host (state_of states host))

-- While the circuit of a product's host is open, a check of the product fetches nothing: it adds a
-- row that says so, changes no other table, and counts neither as a failure nor as a success of the
-- host.
open_circuit-OnlySkipped :
    (digest : Text → Text) (window max_retries : ℕ) (limits : Limits) (now : Circumstances)
    (product_id : ℕ) (world : GuardWorld) (db : Database) (product : Product)
    → find_product product_id db.products ≡ some product
    → let host = or_else now.host product.store_slug in
      is_open (state_of world.states host) world.clock ≡ true
      → (done : CheckExecution × (GuardWorld × Database)) × (check_product digest window max_retries
            (some (store_guard limits))
            now
            product_id
            (world, db)
          ≡ some done)
        × OnlySkipped db (done.0, done.1.1)
        × (state_of done.1.0.states host ≡ state_of world.states host)
unfolding check_product store_guard
open_circuit-OnlySkipped digest window max_retries limits now product_id world db product f shut =
    let host = or_else now.host product.store_slug in
    let skipped =
      vetoed digest window max_retries (store_guard limits) now product world db
        (proceed-before limits world.jitter world.clock host world.states ∙ ap not shut) in
    (
      check_found digest window max_retries (some (store_guard limits)) now product (world, db),
      rw (f, check_product) refl,
      skipped.0,
      ap (λ (w : GuardWorld). state_of w.states host) skipped.1
          ∙ state_of-before_shut limits world.jitter world.clock host world.states shut,
    )
