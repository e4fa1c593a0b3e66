-- ===== src/Notifications/Sending/FirstWins.antt =====
-- Who delivers an alert: the first provider that accepts it, among those that the rule allows.
use product_updates.Domain.Contexts.{Time}
use product_updates.Domain.Enums.{NotificationStatus, suppressed}
use product_updates.Domain.Results.{is_empty}
use product_updates.Notifications.{Notification, mark_sent, mark_failed, mark_suppressed}
use product_updates.Notifications.Sending.{
  NotificationMessage, NotificationProvider, SendResult, delivered, message_from, providers_for,
  try_providers, deliver, attempt, settle, preferring,
}
use product_updates.Prelude.{
  ◌+◌, Bool, true, false, Text, text_eq, eq_of_text_eq, Option, none, some, List, [], ◌∷◌, ◌++◌,
  ◌≡◌, refl, arith, if◌then◌else◌, keep, ap, ◌∙◌, Bool-cases, inl, inr, codes, sym,
}

abbrev is_delivered : SendResult → Bool
is_delivered delivered = true
is_delivered _ = false

abbrev pub accepts : NotificationMessage → NotificationProvider → Bool
accepts message p = is_delivered (p.send message)

-- The first of the providers that accepts a message.
abbrev pub first_accepting : NotificationMessage → List NotificationProvider → Option Text
first_accepting message [] = none
first_accepting message (p ∷ ps) =
    let rest = first_accepting message ps in if accepts message p then some p.slug else rest

try_providers-first :
    (message : NotificationMessage) (ps : List NotificationProvider) (errors : List Text)
    → (try_providers message ps errors).0 ≡ first_accepting message ps
unfolding try_providers
try_providers-first message [] errors = refl
try_providers-first message (p ∷ ps) errors =
    go (p.send message) (λ es. try_providers-first message ps es) refl
  where
    go :
        (r : SendResult)
        → ((es : List Text) → (try_providers message ps es).0 ≡ first_accepting message ps)
        → p.send message ≡ r
        → (try_providers message (p ∷ ps) errors).0 ≡ first_accepting message (p ∷ ps)
    go delivered ih e = ground arith
    go (SendResult.refused reason) ih e =
        ground (arith, ih (errors ++ (p.slug ++ (codes ": " ++ reason)) ∷ []))
    go (SendResult.crashed name) ih e =
        ground (arith, ih (errors ++ (p.slug ++ (codes ": unexpected " ++ name)) ∷ []))

-- What a delivery leaves behind, by the providers that may be asked and the one that accepted.
abbrev pub Settled :
    Notification → Time → List NotificationProvider → Option Text → Notification × Bool → Type 0
Settled row now ps (some slug) result = result ≡ (mark_sent slug now row, true)
Settled row now [] none (row', done) =
    (done ≡ false) × (row'.status ≡ suppressed) × (row'.attempts ≡ row.attempts)
Settled row now (p ∷ ps) none (row', done) =
    (done ≡ false) × (row'.status ≡ NotificationStatus.failed) × (row'.attempts ≡ row.attempts + 1)

settle_by :
    (row : Notification) (now : Time) (ps : List NotificationProvider)
    → Settled row now ps
        (first_accepting (message_from row) ps)
        (attempt (message_from row) row now ps)
unfolding mark_failed mark_suppressed
settle_by row now [] = (refl, refl, refl)
settle_by row now (p ∷ ps) =
    go (try_providers (message_from row) (p ∷ ps) []) (first_accepting (message_from row) (p ∷ ps))
      (try_providers-first (message_from row) (p ∷ ps) [])
  where
    go :
        (r : Option Text × List Text) (o : Option Text)
        → r.0 ≡ o
        → Settled row now (p ∷ ps) o (settle row now r)
    go (some s, errors) (some slug) e = ground arith
    go (some s, errors) none e = absurd (cc)
    go (none, errors) (some slug) e = absurd (cc)
    go (none, errors) none e = (refl, refl, refl)

-- An alert is delivered exactly when one of the providers that the rule allows accepts it, and then
-- by the first such one. If none does, the row is failed and has used up one more attempt; if no
-- provider may be asked, it is suppressed.
deliver-first_accepting :
    (providers : List NotificationProvider) (now : Time) (row : Notification)
    → let ps = providers_for providers row in
      Settled row now ps (first_accepting (message_from row) ps) (deliver providers now row)
unfolding deliver
deliver-first_accepting providers now row = settle_by row now (providers_for providers row)

first_accepting-keep :
    (message : NotificationMessage) (preferred : Text) (ps : List NotificationProvider)
    (slug : Text)
    → first_accepting message (keep (λ p. text_eq p.slug preferred) ps) ≡ some slug
    → slug ≡ preferred
first_accepting-keep message preferred [] slug h = absurd (cc)
first_accepting-keep message preferred (p ∷ ps) slug h =
    elim (Bool-cases (text_eq p.slug preferred)) [
      | inl e ↦
          ground (
            arith,
            eq_of_text_eq p.slug preferred e,
            first_accepting-keep message preferred ps slug,
          )
      | inr e ↦ first_accepting-keep message preferred ps slug (ground arith)
    ]

delivered_by :
    (row : Notification) (now : Time) (ps : List NotificationProvider) (o : Option Text)
    (result : Notification × Bool)
    → Settled row now ps o result
    → result.1 ≡ true
    → (slug : Text) × (o ≡ some slug) × (result.0.provider ≡ some slug)
unfolding mark_sent
delivered_by row now ps (some slug) result s h = (slug, refl, ground arith)
delivered_by row now [] none result s h = absurd (cc (s.0))
delivered_by row now (p ∷ ps) none result s h = absurd (cc (s.0))

providers_for-preferred :
    (providers : List NotificationProvider) (row : Notification) (preferred : Text)
    → row.payload.provider ≡ some preferred
    → is_empty preferred ≡ false
    → providers_for providers row ≡ keep (λ p. text_eq p.slug preferred) providers
unfolding providers_for
providers_for-preferred providers row preferred e ne = rw (e, preferring, ne)

-- A rule that asks for one channel is never delivered through another.
pub preferred_channel :
    (providers : List NotificationProvider) (now : Time) (row : Notification) (preferred : Text)
    → row.payload.provider ≡ some preferred
    → is_empty preferred ≡ false
    → (deliver providers now row).1 ≡ true
    → (deliver providers now row).0.provider ≡ some preferred
preferred_channel providers now row preferred e ne h =
    let (slug, first, by) =
      delivered_by row now (providers_for providers row) _ (deliver providers now row)
        (deliver-first_accepting providers now row) h in
    let asked : providers_for providers row ≡ keep (λ p. text_eq p.slug preferred) providers =
      providers_for-preferred providers row preferred e ne in
    by
    ∙ ap some (
        first_accepting-keep (message_from row) preferred providers slug
          (ap (first_accepting (message_from row)) (sym asked) ∙ first))
