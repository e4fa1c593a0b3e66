-- ===== src/Money/Normal.antt =====
-- `_normalise_separators` takes the groups out of a grouped number, with or without a fraction.
use mathlib.Core.List.{append-nil}
use product_updates.Decimal.Written.{point}
use product_updates.Money.{
  comma, contains, rindex, concat, last_part, normalise_separators, resolve_parts, resolve_repeated,
  resolve_comma, resolve_dot, comes_later,
}
use product_updates.Money.Display.{grouped, split_groups, but_last, last_of}
use product_updates.Money.Grouping.{
  AllDigits, AreGroups, split_groups-AreGroups, length-split_groups, length-last_of,
  length-but_last, but_last_of, but_last-AllDigits, last_of-AllDigits,
}
use product_updates.Money.Splitting.{
  Without, AllDigits-Without_commas, AllDigits-Without_points, contains-Without, contains-append,
  contains-join, remove-append, remove-join, remove-Without, rindex-append, rindex-append_last,
  rindex-lt, split-append, split-Without, split-join, join-Without_points, contains-head,
}
use product_updates.Prelude.{
  ◌≡◌, ◌≤◌, ◌<◌, ◌⊎◌, ◌++◌, ◌∷◌, ◌==◌, [], refl, ap, ◌∙◌, List, Text, ℕ, true, false, All,
  All-append, All-mono, arith, length, leb, leb→le, Bool-cases, Option-cases, inl, inr, some,
}
use product_updates.Prelude.Joins.{join}

-- the groups of a number of more than three digits
pub record Groups (whole grouped_text : Text) (parts : List Text) : Type 0 where
  pub shown : grouped_text ≡ join (comma ∷ []) parts
  pub digits : All AllDigits parts
  pub all_of : concat parts ≡ whole
  pub three : length (last_part parts) ≡ 3
  pub filled : All (λ p. 0 < length p) parts
  pub several : 1 < length parts

pub grouped-cases :
    (size : ℕ) (whole : Text)
    → 0 < size
    → AllDigits whole
    → ((grouped size whole ≡ whole) × (length whole ≤ 3))
      ⊎ ((parts : List Text) × Groups whole (grouped size whole) parts)
unfolding grouped concat
grouped-cases size whole pos d = elim (Bool-cases (leb (length whole) 3)) [
  | inl short ↦ inl (rw short refl, leb→le _ _ short)
  | inr long ↦
      let tail = last_of 3 whole in
      let head = but_last 3 whole in
      let parts = split_groups (length whole) size head (tail ∷ []) in
      let tail_length = length-last_of 3 whole (ground (arith, long)) in
      let one : AreGroups tail tail (tail ∷ []) = record {
        all_digits = (last_of-AllDigits 3 whole d, tt);
        whole = append-nil tail;
        end = refl;
        some_part = omega arith;
        filled = (omega (arith, tail_length), tt);
      } in
      let groups =
        split_groups-AreGroups (length whole) size head tail tail (tail ∷ [])
          (but_last-AllDigits 3 whole d) pos one in
      let left : 0 < length head = ground (arith, long, length-but_last 3 whole) in
      inr (
        parts,
        record {
          shown = rw long refl;
          digits = groups.all_digits;
          all_of = groups.whole ∙ but_last_of 3 whole;
          three = ap length groups.end ∙ tail_length;
          filled = groups.filled;
          several = length-split_groups (length whole) size head (tail ∷ []) left;
        },
      )
]

parts-Without_commas : (parts : List Text) → All AllDigits parts → All (Without comma) parts
parts-Without_commas parts h = All-mono _ _ parts (λ t d. AllDigits-Without_commas t d) h

-- several groups, the last of three digits, are digits in a row
resolve-groups :
    (parts : List Text)
    → length (last_part parts) ≡ 3
    → resolve_parts true parts ≡ some (concat parts)
unfolding resolve_parts resolve_repeated resolve_comma
resolve-groups parts h = ground (arith, h)

-- Without a fraction.
pub normalise-whole :
    (size : ℕ) (whole : Text)
    → 0 < size
    → AllDigits whole
    → normalise_separators (grouped size whole) ≡ some whole
unfolding normalise_separators
normalise-whole size whole pos d = elim (grouped-cases size whole pos d) [
  | inl (same, short) ↦
      rw
        (
          same,
          contains-Without comma whole (AllDigits-Without_commas whole d),
          contains-Without point whole (AllDigits-Without_points whole d),
        )
        refl
  | inr (parts, g) ↦
      rw
        (
          g.shown,
          contains-join comma parts g.several,
          contains-Without point _ (join-Without_points parts g.digits),
          split-join comma parts (parts-Without_commas parts g.digits) (omega (arith, g.several)),
          resolve-groups parts g.three,
          g.all_of,
        )
        refl
]

resolve-fraction :
    (whole cents : Text)
    → length cents ≡ 2
    → resolve_parts false (whole ∷ cents ∷ []) ≡ some (whole ++ point ∷ cents)
unfolding resolve_parts resolve_dot
resolve-fraction whole cents h = ground (arith, h)

-- the last comma stands before the point
comma_first :
    (s cents : Text)
    → Without comma (point ∷ cents)
    → Without point cents
    → comes_later (rindex comma (s ++ point ∷ cents)) (rindex point (s ++ point ∷ cents)) ≡ false
comma_first s cents hc hp =
    rw (rindex-append comma s (point ∷ cents) hc, rindex-append_last point s cents hp)
      (elim (Option-cases (rindex comma s)) [
        | inl e ↦ rw e refl
        | inr (i, e) ↦ let lt = rindex-lt comma s i e in rw e (ground (arith, lt))
      ])

-- The two digits behind the point.
pub record Cents (t : Text) : Type 0 where
  pub digits : AllDigits t
  pub two : length t ≡ 2

fraction-Without_commas : (cents : Text) → AllDigits cents → Without comma (point ∷ cents)
fraction-Without_commas cents h = (ground arith, AllDigits-Without_commas cents h)

contains-fraction : (s cents : Text) → contains point (s ++ point ∷ cents) ≡ true
contains-fraction s cents =
    contains-append point s _ ∙ rw (contains-head point cents) (ground arith)

-- With one.
pub normalise-fraction :
    (size : ℕ) (whole cents : Text)
    → 0 < size
    → AllDigits whole
    → Cents cents
    → normalise_separators (grouped size whole ++ point ∷ cents) ≡ some (whole ++ point ∷ cents)
unfolding normalise_separators
normalise-fraction size whole cents pos d c = elim (grouped-cases size whole pos d) [
  | inl (same, short) ↦
      let no_comma : contains comma (whole ++ point ∷ cents) ≡ false = contains-Without comma _ (
        All-append (λ e. (e == comma) ≡ false) whole _ (AllDigits-Without_commas whole d)
          (fraction-Without_commas cents c.digits)) in
      rw
        (
          same,
          no_comma,
          contains-fraction whole cents,
          split-append point whole cents (AllDigits-Without_points whole d),
          split-Without point cents (AllDigits-Without_points cents c.digits),
        )
        (resolve-fraction whole cents c.two)
  | inr (parts, g) ↦
      let shown = join (comma ∷ []) parts in
      let has_comma : contains comma (shown ++ point ∷ cents) ≡ true =
        contains-append comma shown _ ∙ rw (contains-join comma parts g.several) refl in
      rw
        (
          g.shown,
          has_comma,
          contains-fraction shown cents,
          comma_first shown cents (fraction-Without_commas cents c.digits)
              (AllDigits-Without_points cents c.digits),
          remove-append comma shown (point ∷ cents),
          remove-join comma parts (parts-Without_commas parts g.digits),
          remove-Without comma (point ∷ cents) (fraction-Without_commas cents c.digits),
          g.all_of,
        )
        refl
]
