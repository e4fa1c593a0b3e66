-- ===== src/Entries/Tracked.antt =====
-- Creating an entry and adding a listing keep every product.
use product_updates.Accounts.{AccountTables, Listing, ServiceError, failed, get_by_canonical_url}
use product_updates.Accounts.Watching.{
  track_url, track_valid, join_or_create, create_in_store, create_listing, is_new_to, over_quota,
}
use product_updates.Entries.{
  EntryTables, amazon_slug, flipkart_slug, get_entry, clean_name, active_for_store, append_retailer,
}
use product_updates.Entries.Editing.{
  ListingInput, clean_input, check_url, check_inputs, track_listing, track_inputs, append_entry,
  create_entry, add_listing,
}
use product_updates.Entries.Given.{Given, Given-and_then, Given-if, Given-done}
use product_updates.Entries.Retired.{Kept, Kept_later}
use product_updates.Entries.Kept.{KeepsProducts, KeepsProducts-refl, KeepsProducts-++}
use product_updates.Prelude.{
  ◌++◌, ◌&&◌, ◌||◌, ◌∷◌, [], some, none, Option, List, Text, ℕ, not, text_eq, is_some,
}

-- the products of one state are kept by what tracks a URL
abbrev pub KeptBy : AccountTables → Listing × AccountTables → Type 0
KeptBy t r = KeepsProducts t.listings r.1.listings

module _ (validate : Text → Option Text) (canonicalize : Text → Text) (store_of : Text → Option ℕ)
    (slug_of : Text → Text) (limit : ℕ) (user : ℕ) where
  create_in_store-Kept :
      (url canonical : Text) (store interval : Option ℕ) (t : AccountTables)
      → Given (KeptBy t) (create_in_store user url canonical store interval t)
  unfolding create_in_store create_listing Given
  create_in_store-Kept url canonical none interval t = tt
  create_in_store-Kept url canonical (some store) interval t = KeepsProducts-++ t.listings _

  join_or_create-Kept :
      (url canonical : Text) (store interval : Option ℕ) (o : Option Listing) (t : AccountTables)
      → Given (KeptBy t) (join_or_create user url canonical store interval o t)
  unfolding join_or_create Given
  join_or_create-Kept url canonical store interval none t =
      create_in_store-Kept url canonical store interval t
  join_or_create-Kept url canonical store interval (some p) t = KeepsProducts-refl t.listings

  pub track_url-Kept :
      (url : Text) (t : AccountTables)
      → Given (KeptBy t) (track_url validate canonicalize store_of limit user url none t)
  unfolding track_url track_valid Given
  track_url-Kept url t = go (validate url)
    where
      go :
          (o : Option Text)
          → Given (KeptBy t) (elim o [
            | none ↦ failed ServiceError.invalid_url
            | some v ↦ track_valid validate canonicalize store_of limit user v none t
          ])
      go none = tt
      go (some v) =
          let existing = get_by_canonical_url (canonicalize v) t.listings in
          Given-if (KeptBy t) (is_new_to user existing t && over_quota limit user t)
            (failed ServiceError.quota_exceeded)
            (join_or_create user v (canonicalize v) (store_of v) none existing t) tt
            (join_or_create-Kept v (canonicalize v) (store_of v) none existing t)

  pub track_listing-Kept :
      (entry : ℕ) (slug : Text) (given : ListingInput) (t : EntryTables)
      → Given
          (Kept t)
          (track_listing validate canonicalize store_of slug_of limit user entry slug given t)
  unfolding track_listing append_retailer Given
  track_listing-Kept entry slug given t =
      let tracked = track_url validate canonicalize store_of limit user given.url none t.accounts in
      Given-and_then (Kept t) tracked _
        (λ r hr. Given-done (KeptBy t.accounts) tracked r (track_url-Kept given.url t.accounts) hr)

  track_inputs-Kept :
      (entry : ℕ) (wanted : List (Text × ListingInput)) (t : EntryTables)
      → Given
          (Kept t)
          (track_inputs validate canonicalize store_of slug_of limit user entry wanted t)
  unfolding track_inputs Given
  track_inputs-Kept entry [] t = KeepsProducts-refl t.accounts.listings
  track_inputs-Kept entry ((slug, given) ∷ wanted) t =
      let first =
        track_listing validate canonicalize store_of slug_of limit user entry slug given t in
      Given-and_then (Kept t) first _ (λ u hu.
        Kept_later t u
          (track_inputs validate canonicalize store_of slug_of limit user entry wanted u)
          (Given-done (Kept t) first u (track_listing-Kept entry slug given t) hu)
          (track_inputs-Kept entry wanted u))

  pub create_entry-Kept :
      (name : Text) (amazon flipkart : Option ListingInput) (t : EntryTables)
      → Given
          (Kept t)
          (create_entry validate canonicalize store_of slug_of limit user name amazon flipkart t)
  unfolding create_entry append_entry Given
  create_entry-Kept name amazon flipkart t =
      Given-if (Kept t) (not (is_some amazon || is_some flipkart)) _ _ tt (
        Given-and_then (Kept t) (clean_name name) _ (λ n hn.
          Given-and_then (Kept t) (clean_input amazon_slug amazon) _ (λ first hf.
            Given-and_then (Kept t) (clean_input flipkart_slug flipkart) _ (λ second hs.
              Given-and_then (Kept t)
                (check_inputs validate canonicalize store_of slug_of limit user (first ++ second) t)
                _
                (λ ok ho.
                  track_inputs-Kept t.next_entry_id (first ++ second)
                    (append_entry validate canonicalize store_of slug_of limit user n t))))))

  pub add_listing-Kept :
      (id : ℕ) (slug : Text) (given : ListingInput) (t : EntryTables)
      → Given
          (Kept t)
          (add_listing validate canonicalize store_of slug_of limit user id slug given t)
  unfolding add_listing Given
  add_listing-Kept id slug given t = Given-and_then (Kept t) (get_entry user id t) _ (λ e he.
      Given-if (Kept t) (not (text_eq slug amazon_slug || text_eq slug flipkart_slug)) _ _ tt (
        Given-if (Kept t) (is_some (active_for_store id slug t.retailers)) _ _ tt (
          Given-and_then (Kept t) (clean_name given.product_name) _ (λ name hn.
            Given-and_then (Kept t)
              (check_url validate canonicalize store_of slug_of limit user slug given.url t) _
              (λ ok ho. track_listing-Kept id slug _ t)))))
