-- ===== src/Money/Splitting.antt =====
-- Separators in texts: where they occur, and the texts with them taken out.
use mathlib.Core.List.{append-nil}
use product_updates.Decimal.Written.{is_digit, point}
use product_updates.Money.{
  comma, contains, remove, rindex, split, concat, last_part, drop_last_marks, is_mark, is_separator,
  number_run,
}
use product_updates.Money.Grouping.{AllDigits}
use product_updates.Prelude.{
  ◌≡◌, ◌<◌, ◌++◌, ◌∷◌, ◌==◌, ◌||◌, [], suc, refl, sym, ap, ◌∙◌, List, Text, ℕ, Bool, true, false,
  All, All-append, All-mono, arith, length, is_empty, some, none, Option, keep, not,
}
use product_updates.Prelude.Joins.{join}
use product_updates.Prelude.Spaces.{is_space, strip, drop_spaces, drop_last_spaces}

-- no character is the separator
abbrev pub Without : ℕ → Text → Type 0
Without c t = All (λ d. (d == c) ≡ false) t

pub AllDigits-Without_commas : (t : Text) → AllDigits t → Without comma t
AllDigits-Without_commas t h = All-mono _ _ t (λ c d. ground (arith, d)) h

pub AllDigits-Without_points : (t : Text) → AllDigits t → Without point t
AllDigits-Without_points t h = All-mono _ _ t (λ c d. ground (arith, d)) h

pub contains-Without : (c : ℕ) (t : Text) → Without c t → contains c t ≡ false
unfolding contains
contains-Without c [] h = refl
contains-Without c (d ∷ t) h = ground (arith, h.0, contains-Without c t h.1)

pub contains-append : (c : ℕ) (s t : Text) → contains c (s ++ t) ≡ (contains c s || contains c t)
unfolding contains
contains-append c [] t = refl
contains-append c (d ∷ s) t = ground (arith, contains-append c s t)

pub remove-Without : (c : ℕ) (t : Text) → Without c t → remove c t ≡ t
unfolding remove
remove-Without c [] h = refl
remove-Without c (d ∷ t) h = ground (arith, h.0, remove-Without c t h.1)

pub remove-append : (c : ℕ) (s t : Text) → remove c (s ++ t) ≡ remove c s ++ remove c t
unfolding remove
remove-append c [] t = refl
remove-append c (d ∷ s) t = ground (arith, remove-append c s t)

-- the last occurrence stands in the text
pub rindex-lt : (c : ℕ) (t : Text) (i : ℕ) → rindex c t ≡ some i → i < length t
unfolding rindex
rindex-lt c [] i h = ground arith
rindex-lt c (d ∷ t) i h = go (rindex c t) refl (rindex-lt c t)
  where
    go :
        (o : Option ℕ)
        → rindex c t ≡ o
        → ((j : ℕ) → rindex c t ≡ some j → j < length t)
        → i < suc (length t)
    go none e below = ground (arith, h, e)
    go (some j) e below = let lt = below j e in ground (arith, h, e, lt)

pub rindex-Without : (c : ℕ) (t : Text) → Without c t → rindex c t ≡ none
unfolding rindex
rindex-Without c [] h = refl
rindex-Without c (d ∷ t) h = rw (rindex-Without c t h.1) (ground (arith, h.0))

-- behind it nothing more is found
pub rindex-append : (c : ℕ) (s t : Text) → Without c t → rindex c (s ++ t) ≡ rindex c s
unfolding rindex
rindex-append c [] t h = rindex-Without c t h
rindex-append c (d ∷ s) t h = rw (rindex-append c s t h) refl

pub rindex-append_last :
    (c : ℕ) (s t : Text) → Without c t → rindex c (s ++ c ∷ t) ≡ some (length s)
unfolding rindex
rindex-append_last c [] t h = rw (rindex-Without c t h) (ground arith)
rindex-append_last c (d ∷ s) t h = rw (rindex-append_last c s t h) refl

-- Splitting a text without the separator, or in front of one.
pub split-Without : (c : ℕ) (t : Text) → Without c t → split c t ≡ t ∷ []
unfolding split
split-Without c [] h = refl
split-Without c (d ∷ t) h = ground (arith, h.0, split-Without c t h.1)

pub split-append : (c : ℕ) (s t : Text) → Without c s → split c (s ++ c ∷ t) ≡ s ∷ split c t
unfolding split
split-append c [] t h = ground arith
split-append c (d ∷ s) t h = ground (arith, h.0, split-append c s t h.1)

pub split-join :
    (c : ℕ) (parts : List Text)
    → All (Without c) parts
    → 0 < length parts
    → split c (join (c ∷ []) parts) ≡ parts
split-join c [] h pos = absurd (omega arith)
split-join c (p ∷ []) h pos = split-Without c p h.0
split-join c (p ∷ q ∷ parts) h pos =
    split-append c p _ h.0 ∙ ap (λ ps. p ∷ ps) (split-join c (q ∷ parts) h.1 (omega arith))

pub remove-join :
    (c : ℕ) (parts : List Text)
    → All (Without c) parts
    → remove c (join (c ∷ []) parts) ≡ concat parts
unfolding remove concat
remove-join c [] h = refl
remove-join c (p ∷ []) h = remove-Without c p h.0 ∙ sym (append-nil p)
remove-join c (p ∷ q ∷ parts) h =
    remove-append c p _
    ∙ ap (λ u. u ++ remove c (c ∷ join (c ∷ []) (q ∷ parts))) (remove-Without c p h.0)
    ∙ ap (λ u. p ++ u) (ground (arith, remove-join c (q ∷ parts) h.1))

pub contains-head : (c : ℕ) (t : Text) → contains c (c ∷ t) ≡ true
unfolding contains
contains-head c t = ground arith

pub contains-join :
    (c : ℕ) (parts : List Text) → 1 < length parts → contains c (join (c ∷ []) parts) ≡ true
contains-join c [] h = absurd (omega arith)
contains-join c (p ∷ []) h = absurd (omega arith)
contains-join c (p ∷ q ∷ parts) h =
    contains-append c p _ ∙ rw (contains-head c (join (c ∷ []) (q ∷ parts))) (ground arith)

-- a digit or a mark
abbrev pub is_plain : ℕ → Bool
is_plain c = is_digit c || is_mark c

abbrev pub AllPlain : Text → Type 0
AllPlain t = All (λ c. is_plain c ≡ true) t

pub AllDigits-AllPlain : (t : Text) → AllDigits t → AllPlain t
AllDigits-AllPlain t h = All-mono _ _ t (λ c d. ground (arith, d)) h

pub join-AllPlain : (parts : List Text) → All AllDigits parts → AllPlain (join (comma ∷ []) parts)
join-AllPlain [] h = tt
join-AllPlain (p ∷ []) h = AllDigits-AllPlain p h.0
join-AllPlain (p ∷ q ∷ parts) h =
    All-append (λ c. is_plain c ≡ true) p _ (AllDigits-AllPlain p h.0)
      (ground arith, join-AllPlain (q ∷ parts) h.1)

pub join-Without_points :
    (parts : List Text) → All AllDigits parts → Without point (join (comma ∷ []) parts)
join-Without_points [] h = tt
join-Without_points (p ∷ []) h = AllDigits-Without_points p h.0
join-Without_points (p ∷ q ∷ parts) h =
    All-append (λ c. (c == point) ≡ false) p _ (AllDigits-Without_points p h.0)
      (ground arith, join-Without_points (q ∷ parts) h.1)

-- Plain characters are read as they are.
pub number_run-AllPlain : (t : Text) → AllPlain t → number_run t ≡ t
unfolding number_run
number_run-AllPlain [] h = refl
number_run-AllPlain (c ∷ t) h = ground (arith, h.0, number_run-AllPlain t h.1)

pub keep-AllPlain : (t : Text) → AllPlain t → keep (λ c. not (is_separator c)) t ≡ t
keep-AllPlain [] h = refl
keep-AllPlain (c ∷ t) h =
    let plain : is_separator c ≡ false = ground (arith, h.0) in rw (plain, keep-AllPlain t h.1) refl

-- no character is white space
abbrev pub Spaceless : Text → Type 0
Spaceless t = All (λ c. is_space c ≡ false) t

pub AllPlain-Spaceless : (t : Text) → AllPlain t → Spaceless t
AllPlain-Spaceless t h = All-mono _ _ t (λ c d. ground (arith, d)) h

drop_spaces-Spaceless : (t : Text) → Spaceless t → drop_spaces t ≡ t
unfolding drop_spaces
drop_spaces-Spaceless [] h = refl
drop_spaces-Spaceless (c ∷ t) h = rw (h.0) refl

drop_last_spaces-Spaceless : (t : Text) → Spaceless t → drop_last_spaces t ≡ t
unfolding drop_last_spaces
drop_last_spaces-Spaceless [] h = refl
drop_last_spaces-Spaceless (c ∷ t) h = rw (h.0, drop_last_spaces-Spaceless t h.1) (ground arith)

pub strip-Spaceless : (t : Text) → Spaceless t → strip t ≡ t
unfolding strip
strip-Spaceless t h = rw (drop_spaces-Spaceless t h) (drop_last_spaces-Spaceless t h)

-- a text that does not end in a mark
pub record EndsPlain (t : Text) : Type 0 where
  pub kept : drop_last_marks t ≡ t
  pub some_text : is_empty t ≡ false

EndsPlain-cons : (c : ℕ) (t : Text) → EndsPlain t → EndsPlain (c ∷ t)
unfolding drop_last_marks
EndsPlain-cons c t h = record { kept = rw (h.kept, h.some_text) (ground arith); some_text = refl }

pub EndsPlain-append : (s t : Text) → EndsPlain t → EndsPlain (s ++ t)
EndsPlain-append [] t h = h
EndsPlain-append (c ∷ s) t h = EndsPlain-cons c (s ++ t) (EndsPlain-append s t h)

pub AllDigits-EndsPlain : (t : Text) → AllDigits t → 0 < length t → EndsPlain t
unfolding drop_last_marks
AllDigits-EndsPlain [] h pos = absurd (omega arith)
AllDigits-EndsPlain (c ∷ []) h pos = record { kept = ground (arith, h.0); some_text = refl }
AllDigits-EndsPlain (c ∷ d ∷ t) h pos =
    EndsPlain-cons c (d ∷ t) (AllDigits-EndsPlain (d ∷ t) h.1 (omega arith))

pub join-EndsPlain :
    (parts : List Text) → EndsPlain (last_part parts) → EndsPlain (join (comma ∷ []) parts)
join-EndsPlain [] h = h
join-EndsPlain (p ∷ []) h = h
join-EndsPlain (p ∷ q ∷ parts) h =
    EndsPlain-append p _ (EndsPlain-cons comma _ (join-EndsPlain (q ∷ parts) h))
