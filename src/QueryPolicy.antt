-- ===== src/QueryPolicy.antt =====
-- services/query_policy.py: which queries name a product. `str.lower` is a parameter; the words of a
-- message are left out.
pub mod Numbered
use product_updates.Prelude.{
  if◌then◌else◌, ◌&&◌, ◌||◌, ◌++◌, ◌∷◌, [], some, none, Option, List, Text, ℕ, Bool, true, false,
  not, any, keep, map, codes, is_empty, text_eq, leb, ltb, length, is_some,
}

-- `CATEGORY_WORDS`
abbrev pub category_words : List Text
category_words = map codes (
    "phone" ∷ "phones" ∷ "smartphone" ∷ "smartphones" ∷ "mobile" ∷ "mobiles" ∷ "earbud" ∷ "earbuds"
    ∷ "earphone" ∷ "earphones" ∷ "headphone" ∷ "headphones" ∷ "headset" ∷ "tws" ∷ "airdopes"
    ∷ "buds" ∷ "powerbank" ∷ "powerbanks" ∷ "charger" ∷ "chargers" ∷ "adapter" ∷ "laptop"
    ∷ "laptops" ∷ "tablet" ∷ "tablets" ∷ "watch" ∷ "watches" ∷ "tv" ∷ "television" ∷ "speaker"
    ∷ "speakers" ∷ "camera" ∷ "cameras" ∷ "monitor" ∷ "monitors" ∷ "keyboard" ∷ "mouse" ∷ "printer"
    ∷ "refrigerator" ∷ "fridge" ∷ "washing" ∷ "machine" ∷ "ac" ∷ "cooler" ∷ [])

-- `_FILLER`
abbrev pub fillers : List Text
fillers = map codes (
    "best" ∷ "top" ∷ "new" ∷ "latest" ∷ "cheap" ∷ "cheapest" ∷ "good" ∷ "buy" ∷ "online" ∷ "price"
    ∷ "prices" ∷ "deal" ∷ "deals" ∷ "offer" ∷ "offers" ∷ "in" ∷ "india" ∷ "the" ∷ "a" ∷ "an" ∷ "for"
    ∷ "with" ∷ "and" ∷ "under" ∷ "below" ∷ "rs" ∷ "inr" ∷ "sale" ∷ "discount" ∷ [])

-- `_MIN_WORDS_WITHOUT_A_NUMBER`
abbrev pub min_words_without_a_number : ℕ
min_words_without_a_number = 3

-- `character.isdigit()`, of the characters that a word can have
unfoldable pub is_number : ℕ → Bool
is_number c = leb b'0' c && leb c b'9'

unfoldable pub is_word_character : ℕ → Bool
unfolding is_number
is_word_character c = (leb b'a' c && leb c b'z') || is_number c

abbrev pub flushed : Text → List Text → List Text
flushed word words = if is_empty word then words else word ∷ words

-- `_TOKEN.findall`, with the word that is being read
unfoldable pub find_words : Text → Text → List Text
unfolding is_word_character
find_words word [] = flushed word []
find_words word (c ∷ text) =
    let longer = find_words (word ++ c ∷ []) text in
    let after = find_words [] text in if is_word_character c then longer else flushed word after

abbrev pub is_one_of : List Text → Text → Bool
is_one_of words word = any (λ w. text_eq w word) words

-- `_meaningful`, of a query in lower case
unfoldable pub meaningful : Text → List Text
unfolding find_words
meaningful lowered = keep (λ word. not (is_one_of fillers word)) (find_words [] lowered)

pub data Refusal : Type 0 where
  names_nothing names_a_category not_specific : Refusal

abbrev is_empty_list : List Text → Bool
is_empty_list [] = true
is_empty_list (w ∷ ws) = false

-- what is refused of these words
unfoldable pub refusal_of : List Text → Option Refusal
unfolding is_number
refusal_of [] = some names_nothing
refusal_of (w ∷ ws) =
    if any (any is_number) (w ∷ ws)
    then none
    else if is_empty_list (keep (λ word. not (is_one_of category_words word)) (w ∷ ws))
    then some names_a_category
    else if ltb (length (w ∷ ws)) min_words_without_a_number
    then some not_specific
    else none

module _ (lower : Text → Text) where
  -- `refusal_reason`
  unfoldable pub refusal_reason : Text → Option Refusal
  unfolding refusal_of meaningful
  refusal_reason query = refusal_of (meaningful (lower query))

  -- `is_specific`
  unfoldable pub is_specific : Text → Bool
  unfolding refusal_reason
  is_specific query = not (is_some (refusal_reason query))
