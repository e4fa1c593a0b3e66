-- ===== src/QueryPolicy/Numbered.antt =====
-- A query with a number in it is searched.
use mathlib.Core.Path.{subst}
use product_updates.Prelude.{
  ◌≡◌, ◌||◌, ◌++◌, ◌∷◌, [], none, List, Text, ℕ, Bool, true, false, not, any, keep, text_eq,
  eq_of_text_eq, refl, ap, ◌∙◌, arith, inl, inr, Bool-cases, is_some,
}
use product_updates.QueryPolicy.{
  is_number, is_word_character, find_words, is_one_of, fillers, meaningful, refusal_of,
  refusal_reason, is_specific, flushed,
}

abbrev pub has_number : Text → Bool
has_number word = any is_number word

has_number-++ : (a b : Text) → has_number (a ++ b) ≡ (has_number a || has_number b)
has_number-++ [] b = refl
has_number-++ (c ∷ a) b = let rest = has_number-++ a b in ground (arith, rest)

other_character : (c : ℕ) → is_word_character c ≡ false → is_number c ≡ false
unfolding is_word_character
other_character c h = ground (arith, h)

or_false : (a b : Bool) → (a || b) ≡ false → (a ≡ false) × (b ≡ false)
or_false a b h = (ground (arith, h), ground (arith, h))

flushed-has_number :
    (word : Text) (words : List Text)
    → any has_number (flushed word words) ≡ (has_number word || any has_number words)
flushed-has_number [] words = refl
flushed-has_number (c ∷ word) words = refl

find_words-has_number :
    (word text : Text)
    → any has_number (find_words word text) ≡ (has_number word || has_number text)
unfolding find_words
find_words-has_number word [] = flushed-has_number word []
find_words-has_number word (c ∷ text) = elim (Bool-cases (is_word_character c)) [
  | inl e ↦
      let rest = find_words-has_number (word ++ c ∷ []) text in
      let added = has_number-++ word (c ∷ []) in rw e (ground (arith, rest, added))
  | inr e ↦
      let rest = find_words-has_number [] text in
      let parted = flushed-has_number word (find_words [] text) in
      let plain : is_number c ≡ false = other_character c e in
      rw (e, plain) (parted ∙ ap (λ b. has_number word || b) rest)
]

without_number :
    (words : List Text) (word : Text)
    → any has_number words ≡ false
    → is_one_of words word ≡ true
    → has_number word ≡ false
without_number [] word h e = ground arith
without_number (w ∷ words) word h e = elim (Bool-cases (text_eq w word)) [
  | inl same ↦
      subst (λ x. has_number x ≡ false) (eq_of_text_eq w word same) (or_false (has_number w) _ h).0
  | inr other ↦ without_number words word (or_false (has_number w) _ h).1 (ground (arith, e, other))
]

fillers-has_number : any has_number fillers ≡ false
unfolding is_number
fillers-has_number = refl

kept-has_number :
    (words : List Text)
    → any has_number (keep (λ word. not (is_one_of fillers word)) words) ≡ any has_number words
kept-has_number [] = refl
kept-has_number (w ∷ words) = elim (Bool-cases (is_one_of fillers w)) [
  | inl e ↦
      let bare = without_number fillers w fillers-has_number e in
      rw (e, bare) (kept-has_number words)
  | inr e ↦ rw e (ap (λ b. has_number w || b) (kept-has_number words))
]

refusal_of-numbered : (words : List Text) → any has_number words ≡ true → refusal_of words ≡ none
unfolding refusal_of
refusal_of-numbered [] h = ground arith
refusal_of-numbered (w ∷ words) h = rw h refl

-- A query that has a digit, once it is in lower case, names a product, whatever else it says.
pub is_specific-numbered :
    (lower : Text → Text) (query : Text)
    → any is_number (lower query) ≡ true
    → is_specific lower query ≡ true
unfolding is_specific refusal_reason meaningful
is_specific-numbered lower query h =
    let words = find_words [] (lower query) in
    let all = kept-has_number words ∙ find_words-has_number [] (lower query) ∙ h in
    ap (λ o. not (is_some o)) (refusal_of-numbered (meaningful (lower query)) all)
