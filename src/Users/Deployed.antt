-- ===== src/Users/Deployed.antt =====
-- The keys that an `API_KEY` setting holds.
use product_updates.Money.{split, comma, before_first}
use product_updates.Prelude.{
  ◌≡◌, ◌∷◌, [], ◌||◌, ◌==◌, some, List, Text, ℕ, Bool, true, false, not, any, Any, All, map, keep,
  refl, sym, ap, ◌∙◌, arith, inl, inr, Bool-cases, is_empty, text_eq, eq_of_text_eq,
}
use product_updates.Prelude.Spaces.{is_space, strip, drop_spaces, drop_last_spaces}
use product_updates.Users.{valid_keys, verify_api_key, verify_keys}

-- The key is one of the comma-separated keys of the setting, without white space at its ends, or
-- there is no key among them.
pub data Deployed (raw key : Text) : Type 0 where
  listed : Any (λ part. strip part ≡ key) (split comma raw) → Deployed raw key
  blank : All (λ part. strip part ≡ []) (split comma raw) → Deployed raw key

empty_text : (t : Text) → is_empty t ≡ true → t ≡ []
empty_text [] h = refl
empty_text (c ∷ t) h = ground (arith, h)

-- the parts that are not blank
abbrev filled : List Text → List Text
filled parts = keep (λ key. not (is_empty key)) (map strip parts)

filled-none : (parts : List Text) → filled parts ≡ [] → All (λ part. strip part ≡ []) parts
filled-none [] h = tt
filled-none (p ∷ parts) h = elim (Bool-cases (is_empty (strip p))) [
  | inl e ↦ (empty_text (strip p) e, filled-none parts (ground (arith, h, e)))
  | inr e ↦ absurd (ground (arith, h, e))
]

filled-listed :
    (key : Text) (parts : List Text)
    → any (λ k. text_eq key k) (filled parts) ≡ true
    → Any (λ part. strip part ≡ key) parts
filled-listed key [] h = ground (arith, h)
filled-listed key (p ∷ parts) h = elim (Bool-cases (is_empty (strip p))) [
  | inl e ↦ inr (filled-listed key parts (ground (arith, h, e)))
  | inr e ↦ elim (Bool-cases (text_eq key (strip p))) [
    | inl same ↦ inl (sym (eq_of_text_eq key (strip p) same))
    | inr other ↦ inr (filled-listed key parts (ground (arith, h, e, other)))
  ]
]

verify_keys-some :
    (k : Text) (keys : List Text) (key : Text)
    → verify_keys (k ∷ keys) key ≡ true
    → any (λ j. text_eq key j) (k ∷ keys) ≡ true
unfolding verify_keys
verify_keys-some k keys key h = ground (arith, h)

pub verify_api_key-Deployed :
    (raw key : Text) → verify_api_key (some raw) key ≡ true → Deployed raw key
unfolding verify_api_key valid_keys
verify_api_key-Deployed raw key h = go (filled (split comma raw)) refl h
  where
    go :
        (keys : List Text)
        → filled (split comma raw) ≡ keys
        → verify_keys keys key ≡ true
        → Deployed raw key
    go [] e v = blank (filled-none (split comma raw) e)
    go (k ∷ keys) e v = listed (
        filled-listed key (split comma raw)
          (ap (any (λ j. text_eq key j)) e ∙ verify_keys-some k keys key v))

abbrev pub AllSpaces : Text → Type 0
AllSpaces t = All (λ c. is_space c ≡ true) t

strip-blank : (t : Text) → AllSpaces t → strip t ≡ []
unfolding strip drop_last_spaces drop_spaces
strip-blank [] h = refl
strip-blank (c ∷ t) h = rw h.0 (strip-blank t h.1)

before_first-AllSpaces :
    (c : ℕ) (parts : List Text)
    → is_space c ≡ true
    → All AllSpaces parts
    → All AllSpaces (before_first c parts)
before_first-AllSpaces c [] h k = ((h, tt), tt)
before_first-AllSpaces c (p ∷ parts) h k = ((h, k.0), k.1)

-- commas and white space
abbrev pub AllBlank : Text → Type 0
AllBlank t = All (λ c. ((c == comma) || is_space c) ≡ true) t

or_right : (a b : Bool) → (a || b) ≡ true → a ≡ false → b ≡ true
or_right a b h e = ground (arith, h, e)

split-AllSpaces : (t : Text) → AllBlank t → All AllSpaces (split comma t)
unfolding split
split-AllSpaces [] h = (tt, tt)
split-AllSpaces (c ∷ t) h = elim (Bool-cases (c == comma)) [
  | inl e ↦ rw e (tt, split-AllSpaces t h.1)
  | inr e ↦
      let space : is_space c ≡ true = or_right (c == comma) (is_space c) h.0 e in
      rw e (before_first-AllSpaces c (split comma t) space (split-AllSpaces t h.1))
]

filled-blank : (parts : List Text) → All AllSpaces parts → filled parts ≡ []
filled-blank [] h = refl
filled-blank (p ∷ parts) h = rw (strip-blank p h.0) (filled-blank parts h.1)

-- such a setting has no key
pub valid_keys-blank : (raw : Text) → AllBlank raw → valid_keys (some raw) ≡ []
unfolding valid_keys
valid_keys-blank raw h = filled-blank (split comma raw) (split-AllSpaces raw h)
