-- ===== src/Accounts/Watching.antt =====
-- `ProductService` of services/product_service.py, acting for one account. `validate_url`,
-- `canonicalize_url` and the store of a URL are parameters.
use product_updates.Accounts.{
  Listing, AccountTables, Result, not_found, duplicate, quota_exceeded, invalid, invalid_url,
  failed, done, get_listing, get_by_canonical_url, write_listing, is_subscribed, watched_by,
  subscriber_count, exempt_from_quota, unsubscribe, subscribe,
}
use product_updates.Domain.Enums.{TrackingStatus}
use product_updates.Prelude.{
  if◌then◌else◌, ◌&&◌, ◌==◌, ◌++◌, ◌∷◌, [], some, none, suc, Option, Text, ℕ, Bool, true, false,
  not, keep, length, ltb, leb,
}

-- `MINIMUM_INTERVAL_SECONDS`
abbrev pub minimum_interval_seconds : ℕ
minimum_interval_seconds = 60

-- `_check_quota`: whether one more subscription is refused
unfoldable pub over_quota : ℕ → ℕ → AccountTables → Bool
unfolding exempt_from_quota watched_by
over_quota limit user t =
    not (exempt_from_quota user t.users) && leb limit (length (watched_by user t.subscriptions))

-- `existing is None or not is_subscribed(owner, existing.id)`
unfoldable pub is_new_to : ℕ → Option Listing → AccountTables → Bool
unfolding is_subscribed
is_new_to user none t = true
is_new_to user (some existing) t = not (is_subscribed user existing.id t.subscriptions)

-- the row of a listing that nobody tracks yet, and its first subscriber
unfoldable pub create_listing :
    ℕ → Text → Text → ℕ → Option ℕ → AccountTables → Listing × AccountTables
unfolding subscribe
create_listing user url canonical store interval t =
    let listing : Listing = record {
      id = t.next_product_id;
      url = url;
      url_canonical = canonical;
      store_id = store;
      check_interval_seconds = interval;
      tracking_status = TrackingStatus.active;
    } in
    (
      listing,
      record t {
        listings = t.listings ++ listing ∷ [];
        subscriptions = subscribe user t.next_product_id t.subscriptions;
        next_product_id = suc t.next_product_id;
      },
    )

-- `resolve_store` and `_store_row`, after which the listing is created
unfoldable pub create_in_store :
    ℕ → Text → Text → Option ℕ → Option ℕ → AccountTables → Result (Listing × AccountTables)
unfolding create_listing
create_in_store user url canonical none interval t = failed not_found
create_in_store user url canonical (some store) interval t =
    done (create_listing user url canonical store interval t)

-- the end of `track_url`, on the row that has the URL
unfoldable pub join_or_create :
    ℕ
    → Text
    → Text
    → Option ℕ
    → Option ℕ
    → Option Listing
    → AccountTables
    → Result (Listing × AccountTables)
unfolding create_in_store subscribe
join_or_create user url canonical store interval none t =
    create_in_store user url canonical store interval t
join_or_create user url canonical store interval (some existing) t =
    done (existing, record t { subscriptions = subscribe user existing.id t.subscriptions })

module _ (validate : Text → Option Text) (canonicalize : Text → Text) (store_of : Text → Option ℕ)
    (limit : ℕ) (user : ℕ) where
  -- `track_url` of a URL that was found valid
  unfoldable pub track_valid : Text → Option ℕ → AccountTables → Result (Listing × AccountTables)
  unfolding over_quota is_new_to join_or_create get_by_canonical_url
  track_valid url interval t =
      let canonical = canonicalize url in
      let existing = get_by_canonical_url canonical t.listings in
      if is_new_to user existing t && over_quota limit user t
      then failed quota_exceeded
      else join_or_create user url canonical (store_of url) interval existing t

  -- `track_url`
  unfoldable pub track_url : Text → Option ℕ → AccountTables → Result (Listing × AccountTables)
  unfolding track_valid
  track_url url interval t = elim (validate url) [
    | none ↦ failed invalid_url
    | some validated ↦ track_valid validated interval t
  ]

  -- `existing is not None and is_subscribed(owner, existing.id)`
  abbrev already_watches : Text → AccountTables → Bool
  already_watches canonical t = not (is_new_to user (get_by_canonical_url canonical t.listings) t)

  -- `ProductService.add`
  unfoldable pub add_product : Text → Option ℕ → AccountTables → Result (Listing × AccountTables)
  unfolding track_url
  add_product url interval t = elim (validate url) [
    | none ↦ failed invalid_url
    | some validated ↦
        if already_watches (canonicalize validated) t
        then failed duplicate
        else track_url url interval t
  ]

-- `ProductService.get`
unfoldable pub get_product : ℕ → ℕ → AccountTables → Result Listing
unfolding get_listing is_subscribed
get_product user id t = elim (get_listing id t.listings) [
  | none ↦ failed not_found
  | some p ↦ if is_subscribed user id t.subscriptions then done p else failed not_found
]

-- `seconds is not None and seconds < MINIMUM_INTERVAL_SECONDS`
abbrev is_too_short : Option ℕ → Bool
is_too_short none = false
is_too_short (some seconds) = ltb seconds minimum_interval_seconds

unfoldable pub change_interval : Result Listing → Option ℕ → AccountTables → Result AccountTables
unfolding write_listing
change_interval (failed e) seconds t = failed e
change_interval (done p) seconds t =
    if is_too_short seconds
    then failed invalid
    else done (record t {
      listings = write_listing (record p { check_interval_seconds = seconds }) t.listings;
    })

-- `ProductService.set_check_interval`
unfoldable pub set_check_interval : ℕ → ℕ → Option ℕ → AccountTables → Result AccountTables
unfolding change_interval get_product
set_check_interval user id seconds t = change_interval (get_product user id t) seconds t

-- `products.delete`, with the rows that go with a product
unfoldable pub delete_listing : ℕ → AccountTables → AccountTables
delete_listing id t = record t {
  listings = keep (λ p. not (p.id == id)) t.listings;
  subscriptions = keep (λ s. not (s.product_id == id)) t.subscriptions;
  rules = keep (λ r. not (r.product_id == id)) t.rules;
}

unfoldable pub leave : ℕ → ℕ → AccountTables → AccountTables
unfolding unsubscribe subscriber_count delete_listing
leave user id t =
    let left = unsubscribe user id t.subscriptions in
    if ltb 0 (subscriber_count id left)
    then record t { subscriptions = left }
    else delete_listing id (record t { subscriptions = left })

unfoldable pub remove_found : ℕ → ℕ → Result Listing → AccountTables → Result AccountTables
unfolding leave
remove_found user id (failed e) t = failed e
remove_found user id (done p) t = done (leave user id t)

-- `ProductService.remove`
unfoldable pub remove_product : ℕ → ℕ → AccountTables → Result AccountTables
unfolding remove_found get_product
remove_product user id t = remove_found user id (get_product user id t) t
