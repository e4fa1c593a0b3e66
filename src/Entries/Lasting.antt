-- ===== src/Entries/Lasting.antt =====
-- No request on entries takes a product away.
use product_updates.Accounts.{AccountTables, Listing, done, get_listing}
use product_updates.Accounts.Watching.{track_url}
use product_updates.Domain.Contexts.{Time}
use product_updates.Entries.{
  EntryTables, RetailerListing, get_entry, get_retailer, clean_name, is_live,
}
use product_updates.Entries.Editing.{
  check_not_listed, is_same_target, release_old, move_listing, repoint, rename_listing, repoint_if,
  update_listing,
}
use product_updates.Entries.Given.{Given, Given-and_then, Given-if, Given-done}
use product_updates.Entries.Retired.{
  Kept, Kept_later, deactivate_listing-Kept, archive-Kept, update_entry-Kept, set_tracking-Kept,
}
use product_updates.Entries.Kept.{
  IsKept, KeepsProducts, KeepsProducts-refl, KeepsProducts-trans, release_product-KeepsProducts,
}
use product_updates.Entries.Requests.{
  EntryRequest, new_entry, new_listing, rename_entry, edit_listing, drop_listing, retire_entry,
  track_entry, answer_entry,
}
use product_updates.Prelude.{
  ◌≡◌, ◌==◌, some, none, Option, Text, ℕ, not, inl, inr, Bool-cases, text_eq,
}
use product_updates.Entries.Tracked.{KeptBy, track_url-Kept, create_entry-Kept, add_listing-Kept}

module _ (validate : Text → Option Text) (canonicalize : Text → Text) (store_of : Text → Option ℕ)
    (slug_of : Text → Text) (limit : ℕ) (user : ℕ) where
  release_old-Kept :
      (old : Option Listing) (new : ℕ) (t : AccountTables)
      → KeepsProducts t.listings
          (release_old validate canonicalize store_of slug_of limit user old new t).listings
  unfolding release_old
  release_old-Kept none new t = KeepsProducts-refl t.listings
  release_old-Kept (some p) new t = elim (Bool-cases (p.id == new)) [
    | inl e ↦ rw e (KeepsProducts-refl t.listings)
    | inr e ↦ rw e (release_product-KeepsProducts user p.id t)
  ]

  repoint-Kept :
      (l : RetailerListing) (url : Text) (t : EntryTables)
      → Given (Kept t) (repoint validate canonicalize store_of slug_of limit user l url t)
  unfolding repoint move_listing Given
  repoint-Kept l url t =
      let old = get_listing l.product_id t.accounts.listings in
      let tracked = track_url validate canonicalize store_of limit user url none t.accounts in
      Given-if (Kept t) (not (text_eq (slug_of url) l.store_slug)) _ _ tt (
        Given-if (Kept t) (is_same_target validate canonicalize store_of slug_of limit user url old)
          _ _ (KeepsProducts-refl t.accounts.listings)
          (Given-and_then (Kept t)
            (check_not_listed validate canonicalize store_of slug_of limit user (some l.id) url t) _
            (λ ok ho. Given-and_then (Kept t) tracked _ (λ r hr.
              KeepsProducts-trans t.accounts.listings r.1.listings _
                (Given-done (KeptBy t.accounts) tracked r
                  (track_url-Kept validate canonicalize store_of slug_of limit user url t.accounts)
                  hr)
                (release_old-Kept old r.0.id r.1)))))

  rename_listing-Kept :
      (l : RetailerListing) (name : Option Text) (t : EntryTables)
      → Given
          (λ r. Kept t r.1)
          (rename_listing validate canonicalize store_of slug_of limit user l name t)
  unfolding rename_listing Given
  rename_listing-Kept l none t = KeepsProducts-refl t.accounts.listings
  rename_listing-Kept l (some name) t =
      Given-and_then (λ r. Kept t r.1) (clean_name name) _
        (λ n hn. KeepsProducts-refl t.accounts.listings)

  repoint_if-Kept :
      (l : RetailerListing) (url : Option Text) (t : EntryTables)
      → Given (Kept t) (repoint_if validate canonicalize store_of slug_of limit user l url t)
  unfolding repoint_if Given
  repoint_if-Kept l none t = KeepsProducts-refl t.accounts.listings
  repoint_if-Kept l (some url) t = repoint-Kept l url t

  update_listing-Kept :
      (entry id : ℕ) (name url : Option Text) (t : EntryTables)
      → Given
          (Kept t)
          (update_listing validate canonicalize store_of slug_of limit user entry id name url t)
  unfolding update_listing Given
  update_listing-Kept entry id name url t =
      Given-and_then (Kept t) (get_entry user entry t) _ (λ e he.
        Given-and_then (Kept t) (get_retailer id entry t) _ (λ l hl.
          Given-if (Kept t) (not (is_live l)) _ _ tt (
            Given-and_then (Kept t)
              (rename_listing validate canonicalize store_of slug_of limit user l name t) _
              (λ r hr.
                Kept_later t r.1
                  (repoint_if validate canonicalize store_of slug_of limit user r.0 url r.1)
                  (Given-done (λ x. Kept t x.1)
                    (rename_listing validate canonicalize store_of slug_of limit user l name t) r
                    (rename_listing-Kept l name t) hr)
                  (repoint_if-Kept r.0 url r.1)))))

  answered-Kept :
      (now : Time) (request : EntryRequest) (t : EntryTables)
      → Given
          (Kept t)
          (answer_entry validate canonicalize store_of slug_of limit now user request t)
  unfolding answer_entry
  answered-Kept now (new_entry name amazon flipkart) t =
      create_entry-Kept validate canonicalize store_of slug_of limit user name amazon flipkart t
  answered-Kept now (new_listing id slug given) t =
      add_listing-Kept validate canonicalize store_of slug_of limit user id slug given t
  answered-Kept now (rename_entry id name) t = update_entry-Kept user id name t
  answered-Kept now (edit_listing entry id name url) t = update_listing-Kept entry id name url t
  answered-Kept now (drop_listing entry id) t = deactivate_listing-Kept now user entry id t
  answered-Kept now (retire_entry id) t = archive-Kept now user id t
  answered-Kept now (track_entry id on) t = set_tracking-Kept user id on t

  -- No request on entries takes a tracked product away or moves it: after a request that is granted
  -- each product still stands under its id, with its URL, its canonical URL and its store, though a
  -- listing was moved to another URL, dropped or retired with its entry.
  pub answer_entry-IsKept :
      (now : Time) (request : EntryRequest) (before after : EntryTables) (id : ℕ) (p : Listing)
      → answer_entry validate canonicalize store_of slug_of limit now user request before
        ≡ done after
      → get_listing id before.accounts.listings ≡ some p
      → IsKept id p after.accounts.listings
  unfolding KeepsProducts
  answer_entry-IsKept now request before after id p h found =
      Given-done (Kept before)
        (answer_entry validate canonicalize store_of slug_of limit now user request before) after
        (answered-Kept now request before) h id p found
