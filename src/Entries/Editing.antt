-- ===== src/Entries/Editing.antt =====
-- Creating entries, and adding and changing their listings, of services/product_entry_service.py. The
-- slug of the store of a URL is a parameter, beside those of the product service.
use product_updates.Accounts.{
  AccountTables, Listing, Result, failed, done, get_listing, invalid, invalid_url, duplicate,
}
use product_updates.Accounts.Watching.{track_url}
use product_updates.Entries.{
  ProductEntryStatus, RetailerListing, EntryTables, and_then, clean_name, is_live, write_retailer,
  get_entry, get_retailer, append_retailer, find_active, is_clash, active_for_store, amazon_slug,
  flipkart_slug,
}
use product_updates.Entries.Releasing.{release_product}
use product_updates.Prelude.{
  if◌then◌else◌, ◌==◌, ◌||◌, ◌++◌, ◌∷◌, [], some, none, suc, Option, List, Text, ℕ, Bool, false,
  not, text_eq, is_some,
}

-- `ListingInput`
pub record ListingInput : Type 0 where
  pub product_name : Text
  pub url : Text

-- `wanted`: the retailers that were given, with the names cleaned
unfoldable pub clean_input : Text → Option ListingInput → Result (List (Text × ListingInput))
unfolding and_then clean_name
clean_input slug none = done []
clean_input slug (some given) =
    and_then (clean_name given.product_name)
      (λ name. done ((slug, record { product_name = name; url = given.url }) ∷ []))

module _ (validate : Text → Option Text) (canonicalize : Text → Text) (store_of : Text → Option ℕ)
    (slug_of : Text → Text) (limit : ℕ) (user : ℕ) where
  -- `_assert_not_already_listed`
  unfoldable pub check_not_listed : Option ℕ → Text → EntryTables → Result Unit
  unfolding find_active is_clash
  check_not_listed ignored url t =
      if is_clash ignored (find_active user (canonicalize url) t t.retailers)
      then failed duplicate
      else done tt

  -- `_assert_store`, then `_assert_not_already_listed`
  unfoldable pub check_url : Text → Text → EntryTables → Result Unit
  unfolding check_not_listed
  check_url slug url t =
      if not (text_eq (slug_of url) slug) then failed invalid_url else check_not_listed none url t

  -- every URL is checked before the first insert
  unfoldable pub check_inputs : List (Text × ListingInput) → EntryTables → Result Unit
  unfolding and_then check_url
  check_inputs [] t = done tt
  check_inputs ((slug, given) ∷ wanted) t =
      and_then (check_url slug given.url t) (λ u. check_inputs wanted t)

  -- `track_url`, then `_add_listing`
  unfoldable pub track_listing : ℕ → Text → ListingInput → EntryTables → Result EntryTables
  unfolding and_then track_url append_retailer
  track_listing entry slug given t =
      and_then (track_url validate canonicalize store_of limit user given.url none t.accounts) (λ r.
        done (append_retailer entry r.0.id slug given.product_name (record t { accounts = r.1 })))

  unfoldable pub track_inputs : ℕ → List (Text × ListingInput) → EntryTables → Result EntryTables
  unfolding and_then track_listing
  track_inputs entry [] t = done t
  track_inputs entry ((slug, given) ∷ wanted) t =
      and_then (track_listing entry slug given t) (λ u. track_inputs entry wanted u)

  -- the row of the entry
  unfoldable pub append_entry : Text → EntryTables → EntryTables
  append_entry name t = record t {
    entries =
        t.entries
        ++ record {
          id = t.next_entry_id;
          user_id = user;
          canonical_name = name;
          status = ProductEntryStatus.active;
          deleted_at = none;
        }
          ∷ [];
    next_entry_id = suc t.next_entry_id;
  }

  -- `create`
  unfoldable pub create_entry :
      Text → Option ListingInput → Option ListingInput → EntryTables → Result EntryTables
  unfolding and_then clean_name clean_input check_inputs append_entry track_inputs
  create_entry canonical_name amazon flipkart t =
      if not (is_some amazon || is_some flipkart)
      then failed invalid
      else and_then (clean_name canonical_name) (λ name.
        and_then (clean_input amazon_slug amazon) (λ first.
          and_then (clean_input flipkart_slug flipkart) (λ second.
            and_then (check_inputs (first ++ second) t)
              (λ u. track_inputs t.next_entry_id (first ++ second) (append_entry name t)))))

  -- `add_listing`
  unfoldable pub add_listing : ℕ → Text → ListingInput → EntryTables → Result EntryTables
  unfolding and_then get_entry active_for_store clean_name check_url track_listing
  add_listing id slug given t = and_then (get_entry user id t) (λ entry.
      if not (text_eq slug amazon_slug || text_eq slug flipkart_slug)
      then failed invalid
      else if is_some (active_for_store id slug t.retailers)
      then failed invalid
      else and_then (clean_name given.product_name) (λ name.
        and_then (check_url slug given.url t)
          (λ u. track_listing id slug (record { product_name = name; url = given.url }) t)))

  -- `old.url`, or nothing where the product is gone
  abbrev url_of_row : Option Listing → Text
  url_of_row none = []
  url_of_row (some p) = p.url

  -- `canonicalize_url(url) == old.url_canonical`
  unfoldable pub is_same_target : Text → Option Listing → Bool
  is_same_target url none = false
  is_same_target url (some p) = text_eq (canonicalize url) p.url_canonical

  -- the old target is released, if it is another
  unfoldable pub release_old : Option Listing → ℕ → AccountTables → AccountTables
  unfolding release_product
  release_old none new t = t
  release_old (some p) new t = if p.id == new then t else release_product user p.id t

  -- the row of the listing and its audit, after the new URL is tracked
  unfoldable pub move_listing :
      RetailerListing → Option Listing → Listing × AccountTables → EntryTables → EntryTables
  unfolding write_retailer release_old
  move_listing l old tracked t = record t {
    retailers = write_retailer (record l { product_id = tracked.0.id }) t.retailers;
    audits =
        t.audits
        ++ record { retailer_listing_id = l.id; old_url = url_of_row old; new_url = tracked.0.url }
          ∷ [];
    accounts = release_old old tracked.0.id tracked.1;
  }

  -- `_repoint`
  unfoldable pub repoint : RetailerListing → Text → EntryTables → Result EntryTables
  unfolding and_then check_not_listed is_same_target move_listing track_url get_listing
  repoint l url t =
      let old = get_listing l.product_id t.accounts.listings in
      if not (text_eq (slug_of url) l.store_slug)
      then failed invalid_url
      else if is_same_target url old
      then done t
      else and_then (check_not_listed (some l.id) url t) (λ u.
        and_then (track_url validate canonicalize store_of limit user url none t.accounts)
          (λ tracked. done (move_listing l old tracked t)))

  -- the name of a listing is changed, if one is given
  unfoldable pub rename_listing :
      RetailerListing → Option Text → EntryTables → Result (RetailerListing × EntryTables)
  unfolding and_then clean_name write_retailer
  rename_listing l none t = done (l, t)
  rename_listing l (some name) t = and_then (clean_name name) (λ cleaned.
      let renamed = record l { product_name = cleaned } in
      done (renamed, record t { retailers = write_retailer renamed t.retailers }))

  unfoldable pub repoint_if : RetailerListing → Option Text → EntryTables → Result EntryTables
  unfolding repoint
  repoint_if l none t = done t
  repoint_if l (some url) t = repoint l url t

  -- `update_listing`
  unfoldable pub update_listing :
      ℕ → ℕ → Option Text → Option Text → EntryTables → Result EntryTables
  unfolding and_then get_entry get_retailer rename_listing repoint_if
  update_listing entry id name url t = and_then (get_entry user entry t) (λ e.
      and_then (get_retailer id entry t) (λ l.
        if not (is_live l)
        then failed invalid
        else and_then (rename_listing l name t) (λ r. repoint_if r.0 url r.1)))
