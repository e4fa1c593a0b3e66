-- ===== src/Accounts/Leaving.antt =====
-- What is left of a listing when an account stops watching it.
use mathlib.Core.Path.{subst}
use product_updates.Accounts.{
  Listing, Subscription, AccountTables, Result, done, failed, is_of, is_subscribed,
  subscriber_count, unsubscribe,
}
use product_updates.Accounts.Watching.{get_product, leave, remove_found, remove_product}
use product_updates.Prelude.{
  ◌≡◌, ◌<◌, ◌∷◌, [], ◌==◌, List, ℕ, true, false, refl, arith, Bool-cases, inl, inr, ltb, lt→ltb,
}

-- another account's subscription stays
is_subscribed-unsubscribe :
    (user other id : ℕ) (ss : List Subscription)
    → (other == user) ≡ false
    → is_subscribed other id ss ≡ true
    → is_subscribed other id (unsubscribe user id ss) ≡ true
unfolding is_subscribed unsubscribe
is_subscribed-unsubscribe user other id [] ne h = h
is_subscribed-unsubscribe user other id (s ∷ ss) ne h = elim (Bool-cases (is_of other id s)) [
  | inl here ↦
      let stays : is_of user id s ≡ false = ground (arith, here, ne) in
      rw stays (ground (arith, here))
  | inr not_here ↦
      let rest = is_subscribed-unsubscribe user other id ss ne (ground (arith, h, not_here)) in
      elim (Bool-cases (is_of user id s)) [
        | inl gone ↦ rw gone rest
        | inr kept ↦ rw kept (ground (arith, rest))
      ]
]

-- who is subscribed counts
is_subscribed-count :
    (user id : ℕ) (ss : List Subscription)
    → is_subscribed user id ss ≡ true
    → 0 < subscriber_count id ss
unfolding is_subscribed subscriber_count
is_subscribed-count user id [] h = ground arith
is_subscribed-count user id (s ∷ ss) h = elim (Bool-cases (s.product_id == id)) [
  | inl here ↦ rw here (omega arith)
  | inr other ↦
      let rest = is_subscribed-count user id ss (ground (arith, h, other)) in rw other rest
]

-- What stays where another account watches the listing.
pub record StaysFor (other id : ℕ) (before after : AccountTables) : Type 0 where
  pub listings : after.listings ≡ before.listings
  pub rules : after.rules ≡ before.rules
  pub watches : is_subscribed other id after.subscriptions ≡ true

-- An account that stops watching a listing takes nothing from another one that watches it: the
-- listing, its rules (the leaving account's included) and the other subscription stay.
pub remove_product-StaysFor :
    (user other id : ℕ) (before after : AccountTables)
    → (other == user) ≡ false
    → is_subscribed other id before.subscriptions ≡ true
    → remove_product user id before ≡ done after
    → StaysFor other id before after
unfolding remove_product remove_found leave
remove_product-StaysFor user other id before after ne watches h =
    go (get_product user id before) refl
  where
    stays : is_subscribed other id (unsubscribe user id before.subscriptions) ≡ true
    stays = is_subscribed-unsubscribe user other id before.subscriptions ne watches

    watched : ltb 0 (subscriber_count id (unsubscribe user id before.subscriptions)) ≡ true
    watched = lt→ltb _ _ (is_subscribed-count other id _ stays)

    go : (o : Result Listing) → get_product user id before ≡ o → StaysFor other id before after
    go (failed e) g = absurd (ground (arith, h, g))
    go (done p) g =
        let same : record before { subscriptions = unsubscribe user id before.subscriptions }
            ≡ after =
          ground (arith, h, g, watched) in
        subst (StaysFor other id before) same
          (record { listings = refl; rules = refl; watches = stays })
