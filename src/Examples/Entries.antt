-- ===== src/Examples/Entries.antt =====
-- An entry with one listing, whose product another account watches too.
use product_updates.Prelude.{text_eq, true}
use product_updates.Accounts.{Listing, AccountTables}
use product_updates.Domain.Enums.{TrackingStatus}
use product_updates.Entries.{
  ProductEntryStatus, ProductEntry, RetailerListing, EntryTables, amazon_slug,
}
use product_updates.Entries.Editing.{ListingInput, add_listing}
use product_updates.Entries.Joining.{add_listing-joins}
use product_updates.Entries.Kept.{IsKept}
use product_updates.Entries.Lasting.{answer_entry-IsKept}
use product_updates.Entries.Pausing.{IsSwitched, set_tracking-IsSwitched}
use product_updates.Entries.Releasing.{set_tracking}
use product_updates.Entries.Requests.{answer_entry, drop_listing}
use product_updates.Examples.Watchers.{shared, accounts}
use product_updates.Prelude.{◌≡◌, ◌∷◌, [], some, none, Option, Text, ℕ, false, refl, codes}

abbrev any_url : Text → Option Text
any_url url = some url

abbrev same_url : Text → Text
same_url url = url

abbrev any_store : Text → Option ℕ
any_store url = some 1

abbrev at_amazon : Text → Text
at_amazon url = amazon_slug

abbrev phone : ProductEntry
phone = record {
  id = 1;
  user_id = 1;
  canonical_name = codes "Phone";
  status = ProductEntryStatus.active;
  deleted_at = none;
}

abbrev phone_at_amazon : RetailerListing
phone_at_amazon = record {
  id = 1;
  product_entry_id = 1;
  product_id = 7;
  store_slug = amazon_slug;
  product_name = codes "Phone";
  deactivated_at = none;
}

abbrev one_entry : EntryTables
one_entry = record {
  accounts = accounts;
  entries = phone ∷ [];
  retailers = phone_at_amazon ∷ [];
  audits = [];
  next_entry_id = 2;
  next_retailer_id = 2;
}

-- the listing is dropped; account 2 still watches the product
abbrev dropped_entry : EntryTables
dropped_entry = record one_entry {
  accounts = record accounts {
    subscriptions = record { user_id = 2; product_id = 7; paused = false } ∷ [];
  };
  retailers = record phone_at_amazon { deactivated_at = some 5 } ∷ [];
}

answer_entry-IsKept_example : IsKept 7 shared dropped_entry.accounts.listings
unfolding answer_entry
answer_entry-IsKept_example =
    answer_entry-IsKept any_url same_url any_store at_amazon 5 1 5 (drop_listing 1 1) one_entry
      dropped_entry 7 shared refl refl

abbrev switched_entry : EntryTables
switched_entry = record one_entry {
  accounts = record accounts {
    listings = record shared { tracking_status = TrackingStatus.paused } ∷ [];
  };
}

set_tracking-IsSwitched_example : IsSwitched 1 false one_entry switched_entry
unfolding set_tracking
set_tracking-IsSwitched_example = set_tracking-IsSwitched 1 1 false one_entry switched_entry refl

-- the product was let go by its last watcher
abbrev let_go : Listing
let_go = record shared { tracking_status = TrackingStatus.paused }

abbrev empty_entry : EntryTables
empty_entry = record one_entry {
  accounts = record accounts { listings = let_go ∷ []; subscriptions = [] };
  retailers = record phone_at_amazon { deactivated_at = some 5 } ∷ [];
}

abbrev again : ListingInput
again = record { product_name = codes "Phone"; url = codes "https://shop.test/p" }

abbrev filled_entry : EntryTables
filled_entry = record empty_entry {
  accounts = record accounts {
    listings = let_go ∷ [];
    subscriptions = record { user_id = 1; product_id = 7; paused = false } ∷ [];
  };
  retailers =
      record phone_at_amazon { deactivated_at = some 5 } ∷ record phone_at_amazon { id = 2 } ∷ [];
  next_retailer_id = 3;
}

add_listing-joins_example : filled_entry.accounts.listings ≡ empty_entry.accounts.listings
unfolding add_listing text_eq
add_listing-joins_example =
    add_listing-joins any_url same_url any_store at_amazon 5 1 1 amazon_slug
      (codes "https://shop.test/p") again let_go empty_entry filled_entry refl refl refl

-- its one watcher has paused the product, and account 2 joins
abbrev all_paused : AccountTables
all_paused = record accounts {
  listings = let_go ∷ [];
  subscriptions = record { user_id = 1; product_id = 7; paused = true } ∷ [];
}

abbrev joined_paused : AccountTables
joined_paused = record all_paused {
  subscriptions =
      record { user_id = 1; product_id = 7; paused = true }
      ∷ record { user_id = 2; product_id = 7; paused = false }
      ∷ [];
}
