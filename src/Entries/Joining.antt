-- ===== src/Entries/Joining.antt =====
-- A listing at a URL that is tracked already.
use mathlib.Core.Path.{subst}
use product_updates.Accounts.{
  AccountTables, Listing, ServiceError, failed, done, get_by_canonical_url,
}
use product_updates.Accounts.Watching.{
  track_url, track_valid, join_or_create, is_new_to, over_quota,
}
use product_updates.Entries.{
  EntryTables, get_entry, clean_name, active_for_store, append_retailer, amazon_slug, flipkart_slug,
}
use product_updates.Entries.Editing.{ListingInput, check_url, track_listing, add_listing}
use product_updates.Entries.Given.{Given, Given-and_then, Given-if, Given-done}
use product_updates.Prelude.{
  ◌≡◌, ◌&&◌, ◌||◌, some, none, Option, Text, ℕ, not, refl, sym, text_eq, is_some,
}

module _ (validate : Text → Option Text) (canonicalize : Text → Text) (store_of : Text → Option ℕ)
    (slug_of : Text → Text) (limit : ℕ) (user : ℕ) where
  -- the products of one state are those of the other
  abbrev SameBy : AccountTables → Listing × AccountTables → Type 0
  SameBy t r = r.1.listings ≡ t.listings

  track_url-joins :
      (url v : Text) (p : Listing) (t : AccountTables)
      → validate url ≡ some v
      → get_by_canonical_url (canonicalize v) t.listings ≡ some p
      → Given (SameBy t) (track_url validate canonicalize store_of limit user url none t)
  unfolding track_url track_valid Given join_or_create
  track_url-joins url v p t valid tracked =
      subst
        (λ o. Given (SameBy t) (elim o [
          | none ↦ failed ServiceError.invalid_url
          | some w ↦ track_valid validate canonicalize store_of limit user w none t
        ]))
        (sym valid)
        (Given-if (SameBy t)
          (is_new_to user (get_by_canonical_url (canonicalize v) t.listings) t
            && over_quota limit user t)
          _ _ tt
          (subst
            (λ o. Given (SameBy t) (join_or_create user v (canonicalize v) (store_of v) none o t))
            (sym tracked) refl))

  -- A listing that is added to an entry for a URL that is tracked already changes no product: one that
  -- was paused when its last watcher let it go stays paused, and is not checked for the new listing.
  pub add_listing-joins :
      (id : ℕ) (slug v : Text) (given : ListingInput) (p : Listing) (before after : EntryTables)
      → validate given.url ≡ some v
      → get_by_canonical_url (canonicalize v) before.accounts.listings ≡ some p
      → add_listing validate canonicalize store_of slug_of limit user id slug given before
        ≡ done after
      → after.accounts.listings ≡ before.accounts.listings
  unfolding add_listing track_listing append_retailer Given
  add_listing-joins id slug v given p t after valid tracked =
      let joined = track_url validate canonicalize store_of limit user given.url none t.accounts in
      let P : EntryTables → Type 0 = λ u. u.accounts.listings ≡ t.accounts.listings in
      Given-done P (add_listing validate canonicalize store_of slug_of limit user id slug given t)
        after
        (Given-and_then P (get_entry user id t) _ (λ e he.
          Given-if P (not (text_eq slug amazon_slug || text_eq slug flipkart_slug)) _ _ tt (
            Given-if P (is_some (active_for_store id slug t.retailers)) _ _ tt (
              Given-and_then P (clean_name given.product_name) _ (λ name hn.
                Given-and_then P
                  (check_url validate canonicalize store_of slug_of limit user slug given.url t) _
                  (λ ok ho. Given-and_then P joined _ (λ r hr.
                    Given-done (SameBy t.accounts) joined r
                      (track_url-joins given.url v p t.accounts valid tracked) hr)))))))
