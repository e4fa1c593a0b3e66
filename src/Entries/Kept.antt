-- ===== src/Entries/Kept.antt =====
-- What the edits of entries leave of the products.
use product_updates.Accounts.{
  AccountTables, Listing, get_listing, write_listing, unsubscribe, subscriber_count,
}
use mathlib.Core.Path.{subst}
use product_updates.Accounts.Pausing.{get_listing-id, get_listing-write_listing}
use product_updates.Domain.Enums.{TrackingStatus}
use product_updates.Entries.{RetailerListing}
use product_updates.Entries.Releasing.{set_status, release_product, set_each}
use product_updates.Prelude.{
  ◌≡◌, ◌++◌, ◌==◌, ◌∷◌, [], some, none, Option, List, ℕ, false, refl, sym, ◌∙◌, arith, inl, inr,
  Bool-cases, ==_iff,
}

-- the same product, at the same URL and store
pub record SameTarget (p q : Listing) : Type 0 where
  pub id : q.id ≡ p.id
  pub url : q.url ≡ p.url
  pub canonical : q.url_canonical ≡ p.url_canonical
  pub store : q.store_id ≡ p.store_id

-- The product of an id is still there.
abbrev pub IsKept : ℕ → Listing → List Listing → Type 0
IsKept id p after = (q : Listing) × ((get_listing id after ≡ some q) × SameTarget p q)

-- every product is still there
unfoldable pub KeepsProducts : List Listing → List Listing → Type 0
KeepsProducts before after =
    (id : ℕ) (p : Listing) → get_listing id before ≡ some p → IsKept id p after

pub KeepsProducts-refl : (ps : List Listing) → KeepsProducts ps ps
unfolding KeepsProducts
KeepsProducts-refl ps id p h =
    (p, (h, record { id = refl; url = refl; canonical = refl; store = refl }))

pub KeepsProducts-trans :
    (ps qs rs : List Listing) → KeepsProducts ps qs → KeepsProducts qs rs → KeepsProducts ps rs
unfolding KeepsProducts
KeepsProducts-trans ps qs rs h k id p e =
    let first = h id p e in
    let second = k id first.0 first.1.0 in
    let a = first.1.1 in
    let b = second.1.1 in
    (
      second.0,
      (
        second.1.0,
        record {
          id = b.id ∙ a.id;
          url = b.url ∙ a.url;
          canonical = b.canonical ∙ a.canonical;
          store = b.store ∙ a.store;
        },
      ),
    )

get_listing-++ :
    (id : ℕ) (ps qs : List Listing) (p : Listing)
    → get_listing id ps ≡ some p
    → get_listing id (ps ++ qs) ≡ some p
unfolding get_listing
get_listing-++ id [] qs p h = ground arith
get_listing-++ id (r ∷ ps) qs p h = elim (Bool-cases (r.id == id)) [
  | inl e ↦ ground (arith, h, e)
  | inr e ↦ let rest = get_listing-++ id ps qs p (ground (arith, h, e)) in ground (arith, rest, e)
]

pub KeepsProducts-++ : (ps qs : List Listing) → KeepsProducts ps (ps ++ qs)
unfolding KeepsProducts
KeepsProducts-++ ps qs id p h = (
  p,
  (get_listing-++ id ps qs p h, record { id = refl; url = refl; canonical = refl; store = refl }),
)

pub get_listing-write_other :
    (id : ℕ) (ps : List Listing) (q : Listing)
    → (q.id == id) ≡ false
    → get_listing id (write_listing q ps) ≡ get_listing id ps
unfolding get_listing write_listing
get_listing-write_other id [] q other = refl
get_listing-write_other id (r ∷ ps) q other =
    let rest = get_listing-write_other id ps q other in
    elim (Bool-cases (r.id == q.id)) [
      | inl e ↦
          let same : (r.id == id) ≡ false = ground (arith, e, other) in rw (e, other, same) rest
      | inr e ↦ rw (e, rest) refl
    ]

-- a row is written over itself, with another status
write_listing-KeepsProducts :
    (key : ℕ) (ps : List Listing) (p q : Listing)
    → get_listing key ps ≡ some p
    → SameTarget p q
    → KeepsProducts ps (write_listing q ps)
unfolding KeepsProducts
write_listing-KeepsProducts key ps p q found same id r h = elim (Bool-cases (q.id == id)) [
  | inl e ↦
      let named : q.id ≡ id = (==_iff q.id id).0 e in
      let number : p.id ≡ key = get_listing-id key ps p found in
      let here : get_listing id ps ≡ some p =
        subst (λ (i : ℕ). get_listing i ps ≡ some p) (sym number ∙ sym same.id ∙ named) found in
      let this : some p ≡ some r = sym here ∙ h in
      let one : p ≡ r = ground (arith, this) in
      (q, (get_listing-write_listing id ps p q here named, subst (λ x. SameTarget x q) one same))
  | inr e ↦ (
    r,
    (
      get_listing-write_other id ps q e ∙ h,
      record { id = refl; url = refl; canonical = refl; store = refl },
    ),
  )
]

pub set_status-KeepsProducts :
    (status : TrackingStatus) (id : ℕ) (t : AccountTables)
    → KeepsProducts t.listings (set_status status (get_listing id t.listings) t).listings
unfolding set_status
set_status-KeepsProducts status id t = go (get_listing id t.listings) refl
  where
    go :
        (o : Option Listing)
        → get_listing id t.listings ≡ o
        → KeepsProducts t.listings (set_status status o t).listings
    go none e = KeepsProducts-refl t.listings
    go (some p) e =
        write_listing-KeepsProducts id t.listings p (record p { tracking_status = status }) e
          (record { id = refl; url = refl; canonical = refl; store = refl })

pub release_product-KeepsProducts :
    (user id : ℕ) (t : AccountTables)
    → KeepsProducts t.listings (release_product user id t).listings
unfolding release_product
release_product-KeepsProducts user id t =
    let left = record t { subscriptions = unsubscribe user id t.subscriptions } in
    elim (Bool-cases (subscriber_count id left.subscriptions == 0)) [
      | inl e ↦ rw e (set_status-KeepsProducts TrackingStatus.paused id left)
      | inr e ↦ rw e (KeepsProducts-refl t.listings)
    ]

pub set_each-KeepsProducts :
    (status : TrackingStatus) (ls : List RetailerListing) (t : AccountTables)
    → KeepsProducts t.listings (set_each status ls t).listings
unfolding set_each
set_each-KeepsProducts status [] t = KeepsProducts-refl t.listings
set_each-KeepsProducts status (l ∷ ls) t =
    let next = set_status status (get_listing l.product_id t.listings) t in
    KeepsProducts-trans t.listings next.listings (set_each status ls next).listings
      (set_status-KeepsProducts status l.product_id t) (set_each-KeepsProducts status ls next)
