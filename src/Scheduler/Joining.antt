-- ===== src/Scheduler/Joining.antt =====
-- Whether a listing that an account starts to watch is scheduled.
use product_updates.Accounts.{Listing, AccountTables}
use product_updates.Accounts.Pausing.{Wants}
use product_updates.Entries.Given.{Given}
use product_updates.Prelude.{◌≡◌, ◌∷◌, [], ◌==◌, none, List, ℕ, false, All, Any}
use product_updates.Scheduler.{interval_of, desired_schedule}

-- no two listings have one id
abbrev pub HasUniqueIds : List Listing → Type 0
HasUniqueIds [] = Unit
HasUniqueIds (p ∷ ps) = All (λ q. (q.id == p.id) ≡ false) ps × HasUniqueIds ps

-- What an account gets that starts to watch a listing.
pub record IsJoined (default : ℕ) (p : Listing) (r : Listing × AccountTables) : Type 0 where
  pub same : r.0 ≡ p
  pub wanted : Any (Wants p.id) r.1.subscriptions
  pub no_job : interval_of p.id (desired_schedule default r.1.listings) ≡ none
