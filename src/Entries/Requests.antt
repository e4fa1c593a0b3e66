-- ===== src/Entries/Requests.antt =====
-- The requests of `ProductEntryService` that change something, for one account.
use product_updates.Accounts.{Result}
use product_updates.Domain.Contexts.{Time}
use product_updates.Entries.{EntryTables}
use product_updates.Entries.Editing.{ListingInput, create_entry, add_listing, update_listing}
use product_updates.Entries.Releasing.{update_entry, deactivate_listing, archive, set_tracking}
use product_updates.Prelude.{Option, Text, ℕ, Bool}

pub data EntryRequest : Type 0 where
  new_entry : Text → Option ListingInput → Option ListingInput → EntryRequest
  new_listing : ℕ → Text → ListingInput → EntryRequest
  rename_entry : ℕ → Text → EntryRequest
  edit_listing : ℕ → ℕ → Option Text → Option Text → EntryRequest
  drop_listing : ℕ → ℕ → EntryRequest
  retire_entry : ℕ → EntryRequest
  track_entry : ℕ → Bool → EntryRequest

module _ (validate : Text → Option Text) (canonicalize : Text → Text) (store_of : Text → Option ℕ)
    (slug_of : Text → Text) (limit : ℕ) (now : Time) (user : ℕ) where
  unfoldable pub answer_entry : EntryRequest → EntryTables → Result EntryTables
  unfolding create_entry add_listing update_entry update_listing deactivate_listing archive
      set_tracking
  answer_entry (new_entry name amazon flipkart) t =
      create_entry validate canonicalize store_of slug_of limit user name amazon flipkart t
  answer_entry (new_listing id slug given) t =
      add_listing validate canonicalize store_of slug_of limit user id slug given t
  answer_entry (rename_entry id name) t = update_entry user id name t
  answer_entry (edit_listing entry id name url) t =
      update_listing validate canonicalize store_of slug_of limit user entry id name url t
  answer_entry (drop_listing entry id) t = deactivate_listing now user entry id t
  answer_entry (retire_entry id) t = archive now user id t
  answer_entry (track_entry id on) t = set_tracking user id on t
