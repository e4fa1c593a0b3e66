-- ===== src/Entries/Releasing.antt =====
-- Leaving, pausing and retiring, of services/product_entry_service.py.
use product_updates.Accounts.{
  AccountTables, Listing, Result, done, get_listing, write_listing, unsubscribe, subscriber_count,
}
use product_updates.Domain.Contexts.{Time}
use product_updates.Domain.Enums.{TrackingStatus}
use product_updates.Entries.{
  ProductEntryStatus, RetailerListing, EntryTables, and_then, clean_name, is_live, active_for_entry,
  write_entry, write_retailer, get_entry, get_retailer,
}
use product_updates.Prelude.{if◌then◌else◌, ◌==◌, ◌∷◌, [], some, none, Option, List, Text, ℕ, Bool}

-- `product.tracking_status = status`, where there is a product
unfoldable pub set_status : TrackingStatus → Option Listing → AccountTables → AccountTables
unfolding write_listing
set_status status none t = t
set_status status (some p) t = record t {
  listings = write_listing (record p { tracking_status = status }) t.listings;
}

-- `_release`
unfoldable pub release_product : ℕ → ℕ → AccountTables → AccountTables
unfolding unsubscribe subscriber_count set_status get_listing
release_product user id t =
    let left = record t { subscriptions = unsubscribe user id t.subscriptions } in
    if subscriber_count id left.subscriptions == 0
    then set_status TrackingStatus.paused (get_listing id left.listings) left
    else left

-- `update`
unfoldable pub update_entry : ℕ → ℕ → Text → EntryTables → Result EntryTables
unfolding and_then get_entry clean_name write_entry
update_entry user id name t = and_then (get_entry user id t) (λ entry.
    and_then (clean_name name) (λ cleaned.
      done
        (record t { entries = write_entry (record entry { canonical_name = cleaned }) t.entries })))

-- the end of `deactivate_listing`
unfoldable pub deactivate_found : Time → ℕ → RetailerListing → EntryTables → EntryTables
unfolding write_retailer release_product
deactivate_found now user l t =
    if is_live l
    then record t {
      retailers = write_retailer (record l { deactivated_at = some now }) t.retailers;
      accounts = release_product user l.product_id t.accounts;
    }
    else t

-- `deactivate_listing`
unfoldable pub deactivate_listing : Time → ℕ → ℕ → ℕ → EntryTables → Result EntryTables
unfolding and_then get_entry get_retailer deactivate_found
deactivate_listing now user entry id t =
    and_then (get_entry user entry t)
      (λ e. and_then (get_retailer id entry t) (λ l. done (deactivate_found now user l t)))

-- the loop of `archive`, over the listings that were live at its start
unfoldable pub deactivate_each :
    Time → ℕ → ℕ → List RetailerListing → EntryTables → Result EntryTables
unfolding and_then deactivate_listing
deactivate_each now user entry [] t = done t
deactivate_each now user entry (l ∷ ls) t =
    and_then (deactivate_listing now user entry l.id t) (λ u. deactivate_each now user entry ls u)

-- `archive`
unfoldable pub archive : Time → ℕ → ℕ → EntryTables → Result EntryTables
unfolding and_then get_entry deactivate_each active_for_entry write_entry
archive now user id t = and_then (get_entry user id t) (λ entry.
    and_then (deactivate_each now user id (active_for_entry id t.retailers) t) (λ u.
      done (record u {
        entries =
            write_entry
              (record entry { status = ProductEntryStatus.archived; deleted_at = some now })
              u.entries;
      })))

-- the loop of `set_tracking`
unfoldable pub set_each : TrackingStatus → List RetailerListing → AccountTables → AccountTables
unfolding set_status get_listing
set_each status [] t = t
set_each status (l ∷ ls) t =
    set_each status ls (set_status status (get_listing l.product_id t.listings) t)

-- `set_tracking`
unfoldable pub set_tracking : ℕ → ℕ → Bool → EntryTables → Result EntryTables
unfolding and_then get_entry set_each active_for_entry
set_tracking user id on t = and_then (get_entry user id t) (λ entry. done (record t {
  accounts =
      set_each (if on then TrackingStatus.active else TrackingStatus.paused)
        (active_for_entry id t.retailers) t.accounts;
}))
