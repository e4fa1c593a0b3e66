-- ===== src/Entries.antt =====
-- repositories/product_entries.py and the rows of services/product_entry_service.py: an entry is one
-- product to its user, with a listing at each retailer, and a listing points at a tracked product.
pub mod Releasing
pub mod Editing
pub mod Kept
pub mod Requests
pub mod Given
pub mod Retired
pub mod Tracked
pub mod Lasting
pub mod Joining
pub mod Pausing
use product_updates.Accounts.{
  AccountTables, Result, failed, done, invalid, not_found, get_listing, Listing,
}
use product_updates.Domain.Contexts.{Time}
use product_updates.Prelude.{
  if◌then◌else◌, ◌&&◌, ◌==◌, ◌++◌, ◌∷◌, [], some, none, suc, Option, List, Text, ℕ, Bool, true,
  false, not, keep, text_eq, codes, is_empty, ltb, length, is_some,
}
use product_updates.Prelude.Spaces.{strip}

-- domain/enums.py `ProductEntryStatus`
pub data ProductEntryStatus : Type 0 where
  active archived : ProductEntryStatus

-- db/models.py `ProductEntry`
pub record ProductEntry : Type 0 where
  pub id : ℕ
  pub user_id : ℕ
  pub canonical_name : Text
  pub status : ProductEntryStatus
  pub deleted_at : Option Time

-- db/models.py `RetailerListing`
pub record RetailerListing : Type 0 where
  pub id : ℕ
  pub product_entry_id : ℕ
  pub product_id : ℕ
  pub store_slug : Text
  pub product_name : Text
  pub deactivated_at : Option Time

-- db/models.py `RetailerListingUrlAudit`
pub record UrlAudit : Type 0 where
  pub retailer_listing_id : ℕ
  pub old_url : Text
  pub new_url : Text

pub record EntryTables : Type 0 where
  pub accounts : AccountTables
  pub entries : List ProductEntry
  pub retailers : List RetailerListing
  pub audits : List UrlAudit
  pub next_entry_id : ℕ
  pub next_retailer_id : ℕ

-- a call that may raise, followed by the rest
unfoldable pub and_then : {A B : Type 0} → Result A → (A → Result B) → Result B
and_then (failed e) f = failed e
and_then (done a) f = f a

-- `AMAZON_SLUG` and `FLIPKART_SLUG`
abbrev pub amazon_slug : Text
amazon_slug = codes "amazon-in"

abbrev pub flipkart_slug : Text
flipkart_slug = codes "flipkart"

-- `MAX_NAME_LENGTH`
abbrev pub max_name_length : ℕ
max_name_length = 200

-- `_clean_name`
unfoldable pub clean_name : Text → Result Text
unfolding strip
clean_name value =
    let name = strip value in
    if is_empty name
    then failed invalid
    else if ltb max_name_length (length name)
    then failed invalid
    else done name

-- `RetailerListing.is_active`
abbrev pub is_live : RetailerListing → Bool
is_live l = not (is_some l.deactivated_at)

-- `ProductEntryRepository.get_for_user`
unfoldable pub get_for_user : ℕ → ℕ → List ProductEntry → Option ProductEntry
get_for_user id user [] = none
get_for_user id user (e ∷ es) =
    if (e.id == id) && (e.user_id == user) then some e else get_for_user id user es

-- `RetailerListingRepository.get_for_entry`
unfoldable pub get_for_entry : ℕ → ℕ → List RetailerListing → Option RetailerListing
get_for_entry id entry [] = none
get_for_entry id entry (l ∷ ls) =
    if (l.id == id) && (l.product_entry_id == entry) then some l else get_for_entry id entry ls

-- `RetailerListingRepository.active_for_entry`; nothing here depends on the order of the rows
unfoldable pub active_for_entry : ℕ → List RetailerListing → List RetailerListing
active_for_entry entry ls = keep (λ l. (l.product_entry_id == entry) && is_live l) ls

-- `RetailerListingRepository.active_for_store`
unfoldable pub active_for_store : ℕ → Text → List RetailerListing → Option RetailerListing
active_for_store entry slug [] = none
active_for_store entry slug (l ∷ ls) =
    if (l.product_entry_id == entry) && (text_eq l.store_slug slug && is_live l)
    then some l
    else active_for_store entry slug ls

-- the product has the URL
unfoldable pub has_canonical_url : Text → Option Listing → Bool
has_canonical_url url none = false
has_canonical_url url (some p) = text_eq p.url_canonical url

-- `RetailerListingRepository.find_active_by_canonical_url`; the first row counts
unfoldable pub find_active : ℕ → Text → EntryTables → List RetailerListing → Option RetailerListing
unfolding get_listing has_canonical_url get_for_user
find_active user url t [] = none
find_active user url t (l ∷ ls) =
    if is_live l
      && (is_some (get_for_user l.product_entry_id user t.entries)
          && has_canonical_url url (get_listing l.product_id t.accounts.listings))
    then some l
    else find_active user url t ls

-- `_assert_not_already_listed`: whether a row that is found is a clash
unfoldable pub is_clash : Option ℕ → Option RetailerListing → Bool
is_clash ignored none = false
is_clash none (some l) = true
is_clash (some id) (some l) = not (l.id == id)

-- changed rows are written back
unfoldable pub write_entry : ProductEntry → List ProductEntry → List ProductEntry
write_entry e [] = []
write_entry e (f ∷ fs) = (if f.id == e.id then e else f) ∷ write_entry e fs

unfoldable pub write_retailer : RetailerListing → List RetailerListing → List RetailerListing
write_retailer l [] = []
write_retailer l (m ∷ ms) = (if m.id == l.id then l else m) ∷ write_retailer l ms

-- `ProductEntryService.get`
unfoldable pub get_entry : ℕ → ℕ → EntryTables → Result ProductEntry
unfolding get_for_user
get_entry user id t = elim (get_for_user id user t.entries) [
  | none ↦ failed not_found
  | some e ↦ done e
]

-- the listing of an entry, or the error that there is none
unfoldable pub get_retailer : ℕ → ℕ → EntryTables → Result RetailerListing
unfolding get_for_entry
get_retailer id entry t = elim (get_for_entry id entry t.retailers) [
  | none ↦ failed not_found
  | some l ↦ done l
]

-- `_add_listing`
unfoldable pub append_retailer : ℕ → ℕ → Text → Text → EntryTables → EntryTables
append_retailer entry product slug name t = record t {
  retailers =
      t.retailers
      ++ record {
        id = t.next_retailer_id;
        product_entry_id = entry;
        product_id = product;
        store_slug = slug;
        product_name = name;
        deactivated_at = none;
      }
        ∷ [];
  next_retailer_id = suc t.next_retailer_id;
}
