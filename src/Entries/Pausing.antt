-- ===== src/Entries/Pausing.antt =====
-- What the switch of an entry does to the products it shares with others.
use mathlib.Core.Path.{subst}
use product_updates.Accounts.{AccountTables, Listing, Result, failed, done, get_listing}
use product_updates.Accounts.Pausing.{get_listing-id, get_listing-write_listing}
use product_updates.Domain.Enums.{TrackingStatus}
use product_updates.Entries.{
  EntryTables, ProductEntry, RetailerListing, and_then, get_entry, active_for_entry,
}
use product_updates.Entries.Kept.{get_listing-write_other}
use product_updates.Entries.Releasing.{set_status, set_each, set_tracking}
use product_updates.Prelude.{
  ◌≡◌, ◌==◌, ◌∷◌, [], some, none, Option, List, ℕ, Bool, false, refl, sym, ◌∙◌, arith, inl, inr,
  Bool-cases, if◌then◌else◌, All, ==_iff,
}

-- the product has the status, if there is one
pub TrackedAs : TrackingStatus → Option Listing → Type 0
TrackedAs status none = Unit
TrackedAs status (some p) = p.tracking_status ≡ status

-- the product of an id has the status, if there is one
abbrev pub HasStatus : TrackingStatus → ℕ → List Listing → Type 0
HasStatus status id ps = TrackedAs status (get_listing id ps)

set_status-sets :
    (status : TrackingStatus) (id : ℕ) (t : AccountTables)
    → HasStatus status id (set_status status (get_listing id t.listings) t).listings
unfolding TrackedAs set_status
set_status-sets status id t = go (get_listing id t.listings) refl
  where
    go :
        (o : Option Listing)
        → get_listing id t.listings ≡ o
        → HasStatus status id (set_status status o t).listings
    go none e = subst (TrackedAs status) (sym e) tt
    go (some p) e =
        let q = record p { tracking_status = status } in
        let named : q.id ≡ id = get_listing-id id t.listings p e in
        subst (TrackedAs status) (sym (get_listing-write_listing id t.listings p q e named)) refl

-- what has the status keeps it
set_status-others :
    (status : TrackingStatus) (id k : ℕ) (t : AccountTables)
    → (id == k) ≡ false
    → get_listing k (set_status status (get_listing id t.listings) t).listings
      ≡ get_listing k t.listings
unfolding set_status
set_status-others status id k t other = go (get_listing id t.listings) refl
  where
    go :
        (o : Option Listing)
        → get_listing id t.listings ≡ o
        → get_listing k (set_status status o t).listings ≡ get_listing k t.listings
    go none e = refl
    go (some p) e =
        let named : p.id ≡ id = get_listing-id id t.listings p e in
        get_listing-write_other k t.listings (record p { tracking_status = status })
          (ground (arith, named, other))

set_status-keeps :
    (status : TrackingStatus) (id k : ℕ) (t : AccountTables)
    → HasStatus status k t.listings
    → HasStatus status k (set_status status (get_listing id t.listings) t).listings
set_status-keeps status id k t h = elim (Bool-cases (id == k)) [
  | inl e ↦
      let same : id ≡ k = (==_iff id k).0 e in
      let next = (set_status status (get_listing id t.listings) t).listings in
      subst (λ (i : ℕ). HasStatus status i next) same (set_status-sets status id t)
  | inr e ↦ subst (TrackedAs status) (sym (set_status-others status id k t e)) h
]

set_each-keeps :
    (status : TrackingStatus) (k : ℕ) (ls : List RetailerListing) (t : AccountTables)
    → HasStatus status k t.listings
    → HasStatus status k (set_each status ls t).listings
unfolding set_each
set_each-keeps status k [] t h = h
set_each-keeps status k (l ∷ ls) t h =
    set_each-keeps status k ls (set_status status (get_listing l.product_id t.listings) t)
      (set_status-keeps status l.product_id k t h)

set_each-sets :
    (status : TrackingStatus) (ls : List RetailerListing) (t : AccountTables)
    → All (λ l. HasStatus status l.product_id (set_each status ls t).listings) ls
unfolding set_each
set_each-sets status [] t = tt
set_each-sets status (l ∷ ls) t =
    let next = set_status status (get_listing l.product_id t.listings) t in
    (
      set_each-keeps status l.product_id ls next (set_status-sets status l.product_id t),
      set_each-sets status ls next,
    )

set_each-subscriptions :
    (status : TrackingStatus) (ls : List RetailerListing) (t : AccountTables)
    → (set_each status ls t).subscriptions ≡ t.subscriptions
unfolding set_each set_status
set_each-subscriptions status [] t = refl
set_each-subscriptions status (l ∷ ls) t =
    set_each-subscriptions status ls (set_status status (get_listing l.product_id t.listings) t)
    ∙ one (get_listing l.product_id t.listings)
  where
    one : (o : Option Listing) → (set_status status o t).subscriptions ≡ t.subscriptions
    one none = refl
    one (some p) = refl

abbrev pub status_of : Bool → TrackingStatus
status_of on = if on then TrackingStatus.active else TrackingStatus.paused

-- What the switch of an entry leaves.
pub record IsSwitched (entry : ℕ) (on : Bool) (before after : EntryTables) : Type 0 where
  pub products :
      All
        (λ l. HasStatus (status_of on) l.product_id after.accounts.listings)
        (active_for_entry entry before.retailers)
  pub subscriptions : after.accounts.subscriptions ≡ before.accounts.subscriptions

-- The switch of an entry sets the status of the product of each of its live listings and looks at no
-- subscription: a product is paused though other accounts watch it and none of them paused it.
pub set_tracking-IsSwitched :
    (user entry : ℕ) (on : Bool) (before after : EntryTables)
    → set_tracking user entry on before ≡ done after
    → IsSwitched entry on before after
unfolding set_tracking and_then
set_tracking-IsSwitched user entry on before after h = go (get_entry user entry before) refl
  where
    go :
        (r : Result ProductEntry)
        → get_entry user entry before ≡ r
        → IsSwitched entry on before after
    go (failed e) k = absurd (ground (arith, h, k))
    go (done e) k =
        let live = active_for_entry entry before.retailers in
        let set = set_each (status_of on) live before.accounts in
        let same : record before { accounts = set } ≡ after = ground (arith, h, k) in
        subst (IsSwitched entry on before) same (record {
          products = set_each-sets (status_of on) live before.accounts;
          subscriptions = set_each-subscriptions (status_of on) live before.accounts;
        })
