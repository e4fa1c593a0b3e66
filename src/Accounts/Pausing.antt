-- ===== src/Accounts/Pausing.antt =====
-- When a listing is checked, and for whom.
use mathlib.Core.Path.{subst}
use product_updates.Accounts.{
  Subscription, Listing, AccountTables, done, get_listing, write_listing, is_subscribed, is_of,
  has_active_subscriber,
}
use product_updates.Accounts.Alerts.{pause, recompute, set_tracking_status, is_paused}
use product_updates.Domain.Enums.{TrackingStatus, active, paused}
use product_updates.Prelude.{
  All, Any, keep, ◌↔◌, ==_iff, ◌≡◌, ◌∷◌, [], ◌==◌, ◌&&◌, some, none, Option, List, ℕ, Bool, true,
  false, not, keep, refl, ap, arith, Bool-cases, inl, inr, if◌then◌else◌, sym, ◌∙◌,
}

pub get_listing-id :
    (id : ℕ) (ps : List Listing) (p : Listing) → get_listing id ps ≡ some p → p.id ≡ id
unfolding get_listing
get_listing-id id [] p h = ground arith
get_listing-id id (q ∷ ps) p h = elim (Bool-cases (q.id == id)) [
  | inl e ↦ ground arith
  | inr e ↦ get_listing-id id ps p (ground arith)
]

-- the row that was written is the one that is read
pub get_listing-write_listing :
    (id : ℕ) (ps : List Listing) (p p' : Listing)
    → get_listing id ps ≡ some p
    → p'.id ≡ id
    → get_listing id (write_listing p' ps) ≡ some p'
unfolding get_listing write_listing
get_listing-write_listing id [] p p' h e = ground arith
get_listing-write_listing id (q ∷ ps) p p' h e = elim (Bool-cases (q.id == id)) [
  | inl same ↦ ground (arith, h, e, same)
  | inr other ↦
      let rest = get_listing-write_listing id ps p p' (ground (arith, h, other)) e in
      ground (arith, other, e, rest)
]

-- the others' subscriptions
abbrev others_of : ℕ → List Subscription → List Subscription
others_of user ss = keep (λ s. not (s.user_id == user)) ss

pause-others :
    (user product : ℕ) (flag : Bool) (ss : List Subscription)
    → others_of user (pause user product flag ss) ≡ others_of user ss
unfolding pause
pause-others user product flag [] = refl
pause-others user product flag (s ∷ ss) =
    let rest = pause-others user product flag ss in
    elim (Bool-cases (is_of user product s)) [
      | inl mine ↦ ground (arith, mine, rest)
      | inr other ↦ ground (arith, other, rest)
    ]

-- a subscription to the product that is not paused
abbrev pub Wants : ℕ → Subscription → Type 0
Wants id s = (s.product_id ≡ id) × (s.paused ≡ false)

-- What a pause or a resume leaves: the status that the subscriptions ask for, the account's own
-- subscription as it was asked, and those of the others.
pub record IsSettled (user id : ℕ) (status : TrackingStatus) (before after : AccountTables)
    : Type 0 where
  pub listing : Listing
  pub found : get_listing id after.listings ≡ some listing
  pub wanted : (listing.tracking_status ≡ active) ↔ Any (Wants id) after.subscriptions
  pub own : All (λ s. s.paused ≡ is_paused status) (keep (is_of user id) after.subscriptions)
  pub still_subscribed : is_subscribed user id after.subscriptions ≡ true
  pub others : others_of user after.subscriptions ≡ others_of user before.subscriptions

pause-own :
    (user id : ℕ) (flag : Bool) (ss : List Subscription)
    → All (λ s. s.paused ≡ flag) (keep (is_of user id) (pause user id flag ss))
unfolding pause
pause-own user id flag [] = tt
pause-own user id flag (s ∷ ss) = elim (Bool-cases (is_of user id s)) [
  | inl mine ↦ rw (mine, mine) (refl, pause-own user id flag ss)
  | inr other ↦ rw (other, other) (pause-own user id flag ss)
]

is_subscribed-pause :
    (user id : ℕ) (flag : Bool) (ss : List Subscription)
    → is_subscribed user id (pause user id flag ss) ≡ is_subscribed user id ss
unfolding pause is_subscribed
is_subscribed-pause user id flag [] = refl
is_subscribed-pause user id flag (s ∷ ss) =
    let rest = is_subscribed-pause user id flag ss in
    elim (Bool-cases (is_of user id s)) [
      | inl mine ↦ ground (arith, mine, rest)
      | inr other ↦ ground (arith, other, rest)
    ]

has_active_subscriber-some :
    (id : ℕ) (ss : List Subscription) → has_active_subscriber id ss ≡ true → Any (Wants id) ss
unfolding has_active_subscriber
has_active_subscriber-some id [] h = ground arith
has_active_subscriber-some id (s ∷ ss) h =
    elim (Bool-cases ((s.product_id == id) && not s.paused)) [
      | inl e ↦ inl ((==_iff s.product_id id).0 (ground (arith, e)), ground (arith, e))
      | inr e ↦ inr (has_active_subscriber-some id ss (ground (arith, h, e)))
    ]

some-has_active_subscriber :
    (id : ℕ) (ss : List Subscription) → Any (Wants id) ss → has_active_subscriber id ss ≡ true
unfolding has_active_subscriber
some-has_active_subscriber id [] h = absurd h
some-has_active_subscriber id (s ∷ ss) (inl (e, k)) =
    let same = (==_iff s.product_id id).1 e in ground (arith, same, k)
some-has_active_subscriber id (s ∷ ss) (inr h) =
    let rest = some-has_active_subscriber id ss h in ground (arith, rest)

abbrev status_if : Bool → TrackingStatus
status_if b = if b then active else paused

status_if-wanted :
    (id : ℕ) (ss : List Subscription) (b : Bool)
    → has_active_subscriber id ss ≡ b
    → (status_if b ≡ active) ↔ Any (Wants id) ss
status_if-wanted id ss true h = (λ e. has_active_subscriber-some id ss h, λ w. refl)
status_if-wanted id ss false h = (
  λ e. absurd (ground (arith, e)),
  λ w. absurd (ground (arith, h, some-has_active_subscriber id ss w)),
)

recompute-IsSettled :
    (user id : ℕ) (status : TrackingStatus) (p : Listing) (before : AccountTables)
    → get_listing id before.listings ≡ some p
    → is_subscribed user id before.subscriptions ≡ true
    → IsSettled user id status before (
        recompute p
          (record before { subscriptions = pause user id (is_paused status) before.subscriptions }))
unfolding recompute
recompute-IsSettled user id status p before e watches =
    let pid = get_listing-id id before.listings p e in
    let subscriptions = pause user id (is_paused status) before.subscriptions in
    record {
      listing = record p { tracking_status = status_if (has_active_subscriber p.id subscriptions) };
      found = get_listing-write_listing id before.listings p _ e pid;
      wanted =
          status_if-wanted id subscriptions (has_active_subscriber p.id subscriptions)
            (ap (λ (i : ℕ). has_active_subscriber i subscriptions) (sym pid));
      own = pause-own user id (is_paused status) before.subscriptions;
      still_subscribed =
          is_subscribed-pause user id (is_paused status) before.subscriptions ∙ watches;
      others = pause-others user id (is_paused status) before.subscriptions;
    }

-- After an account pauses or resumes a listing, its own subscription is paused or not as it asked,
-- the subscriptions of all other accounts are as before, and the listing is active exactly if some
-- subscription to it is not paused.
pub set_tracking_status-IsSettled :
    (user id : ℕ) (status : TrackingStatus) (before after : AccountTables)
    → set_tracking_status user id status before ≡ done after
    → IsSettled user id status before after
unfolding set_tracking_status
set_tracking_status-IsSettled user id status before after h =
    go (get_listing id before.listings) refl
  where
    go :
        (o : Option Listing)
        → get_listing id before.listings ≡ o
        → IsSettled user id status before after
    go none e = absurd (ground (arith, h, e))
    go (some p) e = elim (Bool-cases (is_subscribed user id before.subscriptions)) [
      | inr absent ↦ absurd (ground (arith, h, e, absent))
      | inl watches ↦
          let same : recompute p (record before {
            subscriptions = pause user id (is_paused status) before.subscriptions;
          })
              ≡ after =
            ground (arith, h, e, watches) in
          subst (IsSettled user id status before) same
            (recompute-IsSettled user id status p before e watches)
    ]
