-- ===== src/Entries/Retired.antt =====
-- Renaming, retiring and pausing keep every product.
use product_updates.Accounts.{Result, failed, done}
use product_updates.Domain.Contexts.{Time}
use product_updates.Domain.Enums.{TrackingStatus}
use product_updates.Entries.{
  EntryTables, RetailerListing, get_entry, get_retailer, clean_name, active_for_entry, is_live,
}
use product_updates.Entries.Given.{Given, Given-and_then, Given-done}
use product_updates.Entries.Kept.{
  KeepsProducts, KeepsProducts-refl, KeepsProducts-trans, release_product-KeepsProducts,
  set_each-KeepsProducts,
}
use product_updates.Entries.Releasing.{
  update_entry, deactivate_found, deactivate_listing, deactivate_each, archive, set_tracking,
}
use product_updates.Prelude.{◌∷◌, [], List, Text, ℕ, Bool, inl, inr, Bool-cases, if◌then◌else◌}

-- the products of one state are kept in the other
abbrev pub Kept : EntryTables → EntryTables → Type 0
Kept t u = KeepsProducts t.accounts.listings u.accounts.listings

pub Kept_later :
    (t u : EntryTables) (r : Result EntryTables) → Kept t u → Given (Kept u) r → Given (Kept t) r
unfolding Given
Kept_later t u (failed e) h k = tt
Kept_later t u (done v) h k =
    KeepsProducts-trans t.accounts.listings u.accounts.listings v.accounts.listings h k

-- retiring and pausing
pub deactivate_found-Kept :
    (now : Time) (user : ℕ) (l : RetailerListing) (t : EntryTables)
    → Kept t (deactivate_found now user l t)
unfolding deactivate_found
deactivate_found-Kept now user l t = elim (Bool-cases (is_live l)) [
  | inl e ↦ rw e (release_product-KeepsProducts user l.product_id t.accounts)
  | inr e ↦ rw e (KeepsProducts-refl t.accounts.listings)
]

pub deactivate_listing-Kept :
    (now : Time) (user entry id : ℕ) (t : EntryTables)
    → Given (Kept t) (deactivate_listing now user entry id t)
unfolding deactivate_listing Given
deactivate_listing-Kept now user entry id t =
    Given-and_then (Kept t) (get_entry user entry t) _ (λ e he.
      Given-and_then (Kept t) (get_retailer id entry t) _
        (λ l hl. deactivate_found-Kept now user l t))

pub deactivate_each-Kept :
    (now : Time) (user entry : ℕ) (ls : List RetailerListing) (t : EntryTables)
    → Given (Kept t) (deactivate_each now user entry ls t)
unfolding deactivate_each Given
deactivate_each-Kept now user entry [] t = KeepsProducts-refl t.accounts.listings
deactivate_each-Kept now user entry (l ∷ ls) t =
    let first = deactivate_listing-Kept now user entry l.id t in
    Given-and_then (Kept t) (deactivate_listing now user entry l.id t) _ (λ u hu.
      Kept_later t u (deactivate_each now user entry ls u)
        (Given-done (Kept t) (deactivate_listing now user entry l.id t) u first hu)
        (deactivate_each-Kept now user entry ls u))

pub archive-Kept :
    (now : Time) (user id : ℕ) (t : EntryTables) → Given (Kept t) (archive now user id t)
unfolding archive Given
archive-Kept now user id t =
    let each = deactivate_each-Kept now user id (active_for_entry id t.retailers) t in
    Given-and_then (Kept t) (get_entry user id t) _ (λ e he.
      Given-and_then (Kept t) (deactivate_each now user id (active_for_entry id t.retailers) t) _
        (λ u hu.
          Given-done (Kept t) (deactivate_each now user id (active_for_entry id t.retailers) t) u
            each hu))

pub update_entry-Kept :
    (user id : ℕ) (name : Text) (t : EntryTables) → Given (Kept t) (update_entry user id name t)
unfolding update_entry Given
update_entry-Kept user id name t = Given-and_then (Kept t) (get_entry user id t) _ (λ e he.
    Given-and_then (Kept t) (clean_name name) _ (λ n hn. KeepsProducts-refl t.accounts.listings))

pub set_tracking-Kept :
    (user id : ℕ) (on : Bool) (t : EntryTables) → Given (Kept t) (set_tracking user id on t)
unfolding set_tracking Given
set_tracking-Kept user id on t = Given-and_then (Kept t) (get_entry user id t) _ (λ e he.
    set_each-KeepsProducts (if on then TrackingStatus.active else TrackingStatus.paused)
      (active_for_entry id t.retailers) t.accounts)
