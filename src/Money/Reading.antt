-- ===== src/Money/Reading.antt =====
-- A price shown in rupees is read back.
use mathlib.Core.Path.{subst}
use product_updates.Decimal.{same}
use product_updates.Decimal.Written.{point, is_digit}
use product_updates.Decimal.Written.Reading.{DigitFirst}
use product_updates.Money.{
  comma, parse_text, read_found, read_normalised, search_number, normalise_separators, last_part,
}
use product_updates.Money.Display.{grouped}
use product_updates.Money.Grouping.{AllDigits}
use product_updates.Money.Normal.{Cents, grouped-cases}
use product_updates.Money.Splitting.{
  AllPlain, AllDigits-AllPlain, AllDigits-EndsPlain, AllPlain-Spaceless, EndsPlain,
  EndsPlain-append, join-AllPlain, join-EndsPlain, keep-AllPlain, number_run-AllPlain,
  strip-Spaceless,
}
use product_updates.Prelude.{
  ◌≡◌, ◌<◌, ◌++◌, ◌∷◌, [], refl, sym, ap, ◌∙◌, List, Text, ℕ, true, false, All, All-append, arith,
  length, inl, inr, some,
}
use product_updates.Prelude.Joins.{join}
use product_updates.Prelude.Spaces.{is_space}

-- The number found in a text that begins with a symbol: a digit, and plain characters to the end.
search-symbol :
    (symbol c : ℕ) (t : Text)
    → is_digit symbol ≡ false
    → is_digit c ≡ true
    → AllPlain (c ∷ t)
    → search_number (symbol ∷ c ∷ t) ≡ some (c ∷ t)
unfolding search_number
search-symbol symbol c t hs hc h = rw (hs, hc, number_run-AllPlain t h.1) (ground (arith, h.0))

-- What is read of such a text is what its separators resolve to.
pub parse-symbol :
    (symbol : ℕ) (t : Text)
    → is_digit symbol ≡ false
    → is_space symbol ≡ false
    → DigitFirst t
    → AllPlain t
    → EndsPlain t
    → parse_text (symbol ∷ t) ≡ read_normalised (normalise_separators t)
unfolding parse_text read_found
parse-symbol symbol t hs hw (c, rest, e, hc) plain ends =
    rw (strip-Spaceless (symbol ∷ t) (hw, AllPlain-Spaceless t plain)) (
      ap (λ u. read_found (search_number (symbol ∷ u))) e
      ∙ rw (search-symbol symbol c rest hs hc (subst AllPlain e plain)) (
          ap (λ u. read_found (some u)) (sym e)
          ∙ rw (keep-AllPlain t plain, ends.kept, ends.some_text) refl))

-- a grouped number: it begins with a digit, is plain, and does not end in a mark
pub record IsShown (t : Text) : Type 0 where
  pub first : DigitFirst t
  pub plain : AllPlain t
  pub ends : EndsPlain t

DigitFirst-filled : (t : Text) → AllDigits t → 0 < length t → DigitFirst t
DigitFirst-filled [] h pos = absurd (omega arith)
DigitFirst-filled (c ∷ t) h pos = (c, t, refl, h.0)

DigitFirst-join :
    (parts : List Text)
    → All AllDigits parts
    → All (λ p. 0 < length p) parts
    → 0 < length parts
    → DigitFirst (join (comma ∷ []) parts)
DigitFirst-join [] d f pos = absurd (omega arith)
DigitFirst-join (p ∷ []) d f pos = DigitFirst-filled p d.0 f.0
DigitFirst-join ([] ∷ q ∷ parts) d f pos = absurd (omega (arith, f.0))
DigitFirst-join ((c ∷ p) ∷ q ∷ parts) d f pos =
    (c, p ++ comma ∷ join (comma ∷ []) (q ∷ parts), refl, d.0.0)

last_part-AllDigits : (parts : List Text) → All AllDigits parts → AllDigits (last_part parts)
last_part-AllDigits [] h = tt
last_part-AllDigits (p ∷ []) h = h.0
last_part-AllDigits (p ∷ q ∷ parts) h = last_part-AllDigits (q ∷ parts) h.1

pub grouped-IsShown :
    (size : ℕ) (whole : Text)
    → 0 < size
    → AllDigits whole
    → 0 < length whole
    → IsShown (grouped size whole)
grouped-IsShown size whole pos d filled = elim (grouped-cases size whole pos d) [
  | inl (same, short) ↦ rw same (record {
    first = DigitFirst-filled whole d filled;
    plain = AllDigits-AllPlain whole d;
    ends = AllDigits-EndsPlain whole d filled;
  })
  | inr (parts, g) ↦ rw (g.shown) (record {
    first = DigitFirst-join parts g.digits g.filled (omega (arith, g.several));
    plain = join-AllPlain parts g.digits;
    ends = join-EndsPlain parts (
        AllDigits-EndsPlain (last_part parts) (last_part-AllDigits parts g.digits)
          (omega (arith, g.three)));
  })
]

pub IsShown-fraction : (t cents : Text) → IsShown t → Cents cents → IsShown (t ++ point ∷ cents)
IsShown-fraction t cents h c =
    let (a, rest, e, d) = h.first in
    record {
      first = (a, rest ++ point ∷ cents, ap (λ u. u ++ point ∷ cents) e, d);
      plain = All-append _ t (point ∷ cents) h.plain (refl, AllDigits-AllPlain cents c.digits);
      ends = EndsPlain-append t (point ∷ cents) (
          EndsPlain-append (point ∷ []) cents
            (AllDigits-EndsPlain cents c.digits (omega (arith, c.two))));
    }
