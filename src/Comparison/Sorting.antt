-- ===== src/Comparison/Sorting.antt =====
-- Python's `sorted` and `sorted(set(...))`, as the grid uses them.
use product_updates.Prelude.{
  if◌then◌else◌, ◌&&◌, ◌||◌, ◌==◌, ◌∷◌, [], List, Text, text_eq, Bool, true, false, ltb,
}

-- `<` on texts: the first code point that differs decides.
unfoldable pub text_below : Text → Text → Bool
text_below s [] = false
text_below [] (d ∷ t) = true
text_below (c ∷ s) (d ∷ t) = ltb c d || ((c == d) && text_below s t)

module _ {A : Type 0} (below : A → A → Bool) where
  -- into a sorted list, before the elements that are equal to it
  unfoldable pub insert : A → List A → List A
  insert x [] = x ∷ []
  insert x (y ∷ ys) = let rest = insert x ys in if below y x then y ∷ rest else x ∷ y ∷ ys

  -- `sorted`: equal elements keep their order.
  unfoldable pub sorted : List A → List A
  unfolding insert
  sorted [] = []
  sorted (x ∷ xs) = insert x (sorted xs)

-- a text into a sorted list that holds each text once
unfoldable pub insert_once : Text → List Text → List Text
unfolding text_below
insert_once t [] = t ∷ []
insert_once t (s ∷ ss) =
    let rest = insert_once t ss in
    if text_eq s t then s ∷ ss else if text_below s t then s ∷ rest else t ∷ s ∷ ss

-- `sorted({...})`
unfoldable pub sorted_set : List Text → List Text
unfolding insert_once
sorted_set [] = []
sorted_set (t ∷ ts) = insert_once t (sorted_set ts)
