-- ===== src/Accounts/Quotas.antt =====
-- The ceilings on what one account watches.
use mathlib.Core.Path.{subst}
use product_updates.Accounts.{
  Listing, Subscription, AccountTables, Result, done, failed, get_by_canonical_url, is_subscribed,
  watched_by, subscribe, exempt_from_quota,
}
use product_updates.Accounts.Watching.{
  track_url, track_valid, over_quota, is_new_to, join_or_create, create_in_store, create_listing,
}
use product_updates.Prelude.{
  ◌≡◌, ◌<◌, ◌≤◌, ◌∷◌, [], ◌++◌, ◌==◌, ◌&&◌, some, none, Option, List, Text, ℕ, true, false, refl,
  arith, Bool-cases, Option-cases, inl, inr, length, suc,
}

abbrev watching : ℕ → List Subscription → ℕ
watching user ss = length (watched_by user ss)

watching-append :
    (user : ℕ) (ss : List Subscription) (s : Subscription)
    → watching user (ss ++ s ∷ []) ≤ suc (watching user ss)
unfolding watched_by
watching-append user [] s = ground arith
watching-append user (r ∷ ss) s =
    let rest = watching-append user ss s in
    elim (Bool-cases (r.user_id == user)) [ inl e ↦ rw e (omega (arith, rest)) | inr e ↦ rw e rest ]

watching-subscribe :
    (user product : ℕ) (ss : List Subscription)
    → watching user (subscribe user product ss) ≤ suc (watching user ss)
unfolding subscribe
watching-subscribe user product ss = elim (Bool-cases (is_subscribed user product ss)) [
  | inl e ↦ rw e (omega arith)
  | inr e ↦ rw e (watching-append user ss _)
]

watching-subscribed :
    (user product : ℕ) (ss : List Subscription)
    → is_subscribed user product ss ≡ true
    → watching user (subscribe user product ss) ≡ watching user ss
unfolding subscribe
watching-subscribed user product ss h = rw h refl

-- what a granted request for a listing leaves
WithinAfter : ℕ → ℕ → Result (Listing × AccountTables) → Type 0
WithinAfter user limit (failed e) = Unit
WithinAfter user limit (done r) = watching user r.1.subscriptions ≤ limit

create_in_store-WithinAfter :
    (user : ℕ) (url canonical : Text) (store interval : Option ℕ) (limit : ℕ) (t : AccountTables)
    → watching user t.subscriptions < limit
    → WithinAfter user limit (create_in_store user url canonical store interval t)
unfolding create_in_store create_listing WithinAfter
create_in_store-WithinAfter user url canonical none interval limit t h = tt
create_in_store-WithinAfter user url canonical (some store) interval limit t h =
    omega (arith, watching-subscribe user t.next_product_id t.subscriptions)

join_or_create-WithinAfter :
    (user : ℕ) (url canonical : Text) (store interval : Option ℕ) (existing : Option Listing)
    (limit : ℕ) (t : AccountTables)
    → watching user t.subscriptions ≤ limit
    → (is_new_to user existing t ≡ true → watching user t.subscriptions < limit)
    → WithinAfter user limit (join_or_create user url canonical store interval existing t)
unfolding join_or_create is_new_to WithinAfter
join_or_create-WithinAfter user url canonical store interval none limit t within room =
    create_in_store-WithinAfter user url canonical store interval limit t (room refl)
join_or_create-WithinAfter user url canonical store interval (some p) limit t within room =
    elim (Bool-cases (is_subscribed user p.id t.subscriptions)) [
      | inl watches ↦ omega (arith, watching-subscribed user p.id t.subscriptions watches)
      | inr fresh ↦
          let free : watching user t.subscriptions < limit = room (rw fresh refl) in
          omega (arith, free, watching-subscribe user p.id t.subscriptions)
    ]

under_quota :
    (limit user : ℕ) (t : AccountTables)
    → exempt_from_quota user t.users ≡ false
    → over_quota limit user t ≡ false
    → watching user t.subscriptions < limit
unfolding over_quota
under_quota limit user t counted free = ground (arith, counted, free)

module _ (validate : Text → Option Text) (canonicalize : Text → Text) (store_of : Text → Option ℕ)
    (limit user : ℕ) where
  track_valid-WithinAfter :
      (url : Text) (interval : Option ℕ) (t : AccountTables)
      → exempt_from_quota user t.users ≡ false
      → watching user t.subscriptions ≤ limit
      → WithinAfter user limit
          (track_valid validate canonicalize store_of limit user url interval t)
  unfolding track_valid WithinAfter
  track_valid-WithinAfter url interval t counted within =
      let existing = get_by_canonical_url (canonicalize url) t.listings in
      elim (Bool-cases (is_new_to user existing t && over_quota limit user t)) [
        | inl refused ↦ rw (refused, WithinAfter) tt
        | inr granted ↦ rw granted (
            join_or_create-WithinAfter user url (canonicalize url) (store_of url) interval existing
              limit t within
              (λ new. under_quota limit user t counted (ground (arith, granted, new))))
      ]

  -- An account that is not exempt and is within its ceiling stays within it, whether a request
  -- creates a listing or joins one that others track.
  pub track_url-within_quota :
      (raw : Text) (interval : Option ℕ) (before after : AccountTables) (p : Listing)
      → exempt_from_quota user before.users ≡ false
      → length (watched_by user before.subscriptions) ≤ limit
      → track_url validate canonicalize store_of limit user raw interval before ≡ done (p, after)
      → length (watched_by user after.subscriptions) ≤ limit
  unfolding track_url WithinAfter
  track_url-within_quota raw interval before after p counted within h =
      elim (Option-cases (validate raw)) [
        | inl e ↦ absurd (ground (arith, h, e))
        | inr (url, e) ↦
            let granted : track_valid validate canonicalize store_of limit user url interval before
                ≡ done (p, after) =
              ground (arith, h, e) in
            subst (WithinAfter user limit) granted
              (track_valid-WithinAfter url interval before counted within)
      ]
