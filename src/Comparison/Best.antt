-- ===== src/Comparison/Best.antt =====
-- `_one_per_store` against the listings it chooses from.
use mathlib.Core.Path.{subst}
use product_updates.Comparison.{Listing, prefer, takes_over, choose_from}
use product_updates.Comparison.Chosen.{prefer_asym, prefer_split}
use product_updates.Dict.{Dict, get, put, get-put}
use product_updates.Prelude.{
  ◌≡◌, ◌⊎◌, inl, inr, true, false, none, some, Option, arith, Bool-cases, List, [], ◌∷◌, All, Any,
  Text, text_eq, eq_of_text_eq, if◌then◌else◌, sym, Bool, ◌∙◌,
}

abbrev pub sells_at : Text → Listing → Bool
sells_at shop x = text_eq x.product.store_slug shop

-- the listing does not beat `q` in the shop's square
abbrev pub Yields : Text → Listing → Listing → Type 0
Yields shop q x = sells_at shop x ≡ true → prefer x q ≡ false

abbrev pub HoldYields : Listing → Option Listing → Type 0
HoldYields q none = Unit
HoldYields q (some c) = prefer c q ≡ false

-- what the dictionary holds for the shop after one more listing
abbrev held_after : Text → Listing → Option Listing → Option Listing
held_after shop x held =
    if sells_at shop x then (if takes_over x held then some x else held) else held

abbrev next_chosen : Listing → Dict Listing → Dict Listing
next_chosen x chosen =
    if takes_over x (get chosen x.product.store_slug)
    then put chosen x.product.store_slug x
    else chosen

get-next_chosen :
    (shop : Text) (x : Listing) (chosen : Dict Listing)
    → get (next_chosen x chosen) shop ≡ held_after shop x (get chosen shop)
get-next_chosen shop x chosen = elim (Bool-cases (sells_at shop x)) [
  | inl here ↦
      let e : x.product.store_slug ≡ shop = eq_of_text_eq _ _ here in
      ground (arith, e, get-put chosen x.product.store_slug shop x)
  | inr away ↦ ground (arith, get-put chosen x.product.store_slug shop x)
]

held_after-Yields :
    (shop : Text) (q x : Listing) (held : Option Listing)
    → HoldYields q (held_after shop x held)
    → Yields shop q x × HoldYields q held
unfolding takes_over
held_after-Yields shop q x none h = ground arith
held_after-Yields shop q x (some c) h = elim (Bool-cases (prefer x c)) [
  | inl beats ↦ ground (arith, prefer_split c x q, prefer_asym x c)
  | inr stays ↦ ground (arith, prefer_split x c q)
]

-- Nothing that was read, and nothing that was held before, beats what is held for the shop.
pub choose_from-Yields :
    (shop : Text) (q : Listing) (xs : List Listing) (chosen : Dict Listing)
    → get (choose_from xs chosen) shop ≡ some q
    → prefer q q ≡ false
    → All (Yields shop q) xs × HoldYields q (get chosen shop)
unfolding choose_from
choose_from-Yields shop q [] chosen e irrefl = (tt, rw (e, HoldYields) irrefl)
choose_from-Yields shop q (x ∷ xs) chosen e irrefl =
    let later = choose_from-Yields shop q xs (next_chosen x chosen) e irrefl in
    let held = subst (HoldYields q) (get-next_chosen shop x chosen) later.1 in
    let now = held_after-Yields shop q x (get chosen shop) held in ((now.0, later.0), now.1)

-- what is held for the shop stays, or comes from the listings
abbrev pub From : Text → List Listing → Option Listing → Listing → Type 0
From shop xs held q = Any (λ x. (x ≡ q) × (sells_at shop x ≡ true)) xs ⊎ (held ≡ some q)

pub choose_from-From :
    (shop : Text) (q : Listing) (xs : List Listing) (chosen : Dict Listing)
    → get (choose_from xs chosen) shop ≡ some q
    → From shop xs (get chosen shop) q
unfolding choose_from
choose_from-From shop q [] chosen e = inr e
choose_from-From shop q (x ∷ xs) chosen e =
    elim (choose_from-From shop q xs (next_chosen x chosen) e) [
      | inl later ↦ inl (inr later)
      | inr held ↦ ground (arith, sym (get-next_chosen shop x chosen))
    ]

-- where nothing is held at the end, no listing was one of the shop
pub choose_from-none :
    (shop : Text) (xs : List Listing) (chosen : Dict Listing)
    → get (choose_from xs chosen) shop ≡ none
    → All (λ x. sells_at shop x ≡ false) xs × (get chosen shop ≡ none)
unfolding choose_from takes_over
choose_from-none shop [] chosen e = (tt, e)
choose_from-none shop (x ∷ xs) chosen e =
    let later = choose_from-none shop xs (next_chosen x chosen) e in
    let held = sym (get-next_chosen shop x chosen) ∙ later.1 in
    let now : (sells_at shop x ≡ false) × (get chosen shop ≡ none) = go (get chosen shop) held in
    ((now.0, later.0), now.1)
  where
    go : (o : Option Listing) → held_after shop x o ≡ none → (sells_at shop x ≡ false) × (o ≡ none)
    go none h = ground arith
    go (some c) h = ground arith
