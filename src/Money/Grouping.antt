-- ===== src/Money/Grouping.antt =====
-- What grouping the digits of a number keeps: the digits, in their order, and three at the end.
use mathlib.Core.List.{append_assoc}
use mathlib.Core.Path.{subst}
use product_updates.Decimal.Written.{is_digit}
use product_updates.Money.{concat, last_part}
use product_updates.Money.Display.{drop, but_last, last_of, with_head, split_groups}
use product_updates.Prelude.{
  ◌≡◌, ◌≤◌, ◌<◌, ◌++◌, ◌-◌, ◌∷◌, [], zero, suc, refl, sym, ap, ◌∙◌, List, Text, ℕ, true, All, arith,
  length, take, ltb, Bool-cases, inl, inr, ltb→lt,
}

abbrev pub AllDigits : Text → Type 0
AllDigits t = All (λ c. is_digit c ≡ true) t

take-drop : (k : ℕ) (t : Text) → take k t ++ drop k t ≡ t
unfolding drop
take-drop zero t = refl
take-drop (suc k) [] = refl
take-drop (suc k) (c ∷ t) = ap (λ u. c ∷ u) (take-drop k t)

length-drop : (k : ℕ) (t : Text) → length (drop k t) ≡ length t - k
unfolding drop
length-drop zero t = omega arith
length-drop (suc k) [] = omega arith
length-drop (suc k) (c ∷ t) = omega (arith, length-drop k t)

take-AllDigits : (k : ℕ) (t : Text) → AllDigits t → AllDigits (take k t)
take-AllDigits zero t h = tt
take-AllDigits (suc k) [] h = tt
take-AllDigits (suc k) (c ∷ t) h = (h.0, take-AllDigits k t h.1)

drop-AllDigits : (k : ℕ) (t : Text) → AllDigits t → AllDigits (drop k t)
unfolding drop
drop-AllDigits zero t h = h
drop-AllDigits (suc k) [] h = tt
drop-AllDigits (suc k) (c ∷ t) h = drop-AllDigits k t h.1

pub but_last_of : (k : ℕ) (t : Text) → but_last k t ++ last_of k t ≡ t
unfolding but_last last_of
but_last_of k t = take-drop (length t - k) t

pub length-last_of : (k : ℕ) (t : Text) → k ≤ length t → length (last_of k t) ≡ k
unfolding last_of
length-last_of k t h = omega (arith, length-drop (length t - k) t)

pub last_of-AllDigits : (k : ℕ) (t : Text) → AllDigits t → AllDigits (last_of k t)
unfolding last_of
last_of-AllDigits k t h = drop-AllDigits (length t - k) t h

pub but_last-AllDigits : (k : ℕ) (t : Text) → AllDigits t → AllDigits (but_last k t)
unfolding but_last
but_last-AllDigits k t h = take-AllDigits (length t - k) t h

-- What groups are of the digits they come from, given the last of them.
pub record AreGroups (digits tail : Text) (parts : List Text) : Type 0 where
  pub all_digits : All AllDigits parts
  pub whole : concat parts ≡ digits
  pub end : last_part parts ≡ tail
  pub some_part : 0 < length parts
  pub filled : All (λ p. 0 < length p) parts

with_head-AreGroups :
    (head digits tail : Text) (parts : List Text)
    → AllDigits head
    → AreGroups digits tail parts
    → AreGroups (head ++ digits) tail (with_head head parts)
unfolding concat
with_head-AreGroups [] digits tail parts hd h = h
with_head-AreGroups (c ∷ head) digits tail [] hd h = absurd (omega (arith, h.some_part))
with_head-AreGroups (c ∷ head) digits tail (p ∷ parts) hd h = record {
  all_digits = (hd, h.all_digits);
  whole = ap (λ u. c ∷ head ++ u) h.whole;
  end = h.end;
  some_part = omega arith;
  filled = (omega arith, h.filled);
}

-- one more group in front
AreGroups-cons :
    (group digits tail : Text) (parts : List Text)
    → AllDigits group
    → 0 < length group
    → AreGroups digits tail parts
    → AreGroups (group ++ digits) tail (group ∷ parts)
unfolding concat
AreGroups-cons group digits tail [] hd pos h = absurd (omega (arith, h.some_part))
AreGroups-cons group digits tail (p ∷ parts) hd pos h = record {
  all_digits = (hd, h.all_digits);
  whole = ap (λ u. group ++ u) h.whole;
  end = h.end;
  some_part = omega arith;
  filled = (pos, h.filled);
}

-- However many rounds the loop is given, the groups are groups of the same digits.
pub split_groups-AreGroups :
    (f size : ℕ) (head digits tail : Text) (parts : List Text)
    → AllDigits head
    → 0 < size
    → AreGroups digits tail parts
    → AreGroups (head ++ digits) tail (split_groups f size head parts)
unfolding split_groups
split_groups-AreGroups zero size head digits tail parts hd pos h =
    with_head-AreGroups head digits tail parts hd h
split_groups-AreGroups (suc f) size head digits tail parts hd pos h =
    elim (Bool-cases (ltb size (length head))) [
      | inl more ↦
          let group = last_of size head in
          let rest =
            split_groups-AreGroups f size (but_last size head) (group ++ digits) tail
              (group ∷ parts) (but_last-AllDigits size head hd) pos
              (AreGroups-cons group digits tail parts (last_of-AllDigits size head hd)
                (omega (arith, pos, length-last_of size head (omega (arith, ltb→lt _ _ more))))
                h) in
          let same : but_last size head ++ (group ++ digits) ≡ head ++ digits =
            sym (append_assoc (but_last size head) group digits)
            ∙ ap (λ u. u ++ digits) (but_last_of size head) in
          let parts' = split_groups f size (but_last size head) (group ∷ parts) in
          rw more (subst (λ d. AreGroups d tail parts') same rest)
      | inr done ↦ rw done (with_head-AreGroups head digits tail parts hd h)
    ]

-- With digits left in front, there are more groups than at the start.
length-take : (k : ℕ) (t : Text) → k ≤ length t → length (take k t) ≡ k
length-take zero t h = refl
length-take (suc k) [] h = absurd (omega arith)
length-take (suc k) (c ∷ t) h = omega (arith, length-take k t (omega arith))

pub length-but_last : (k : ℕ) (t : Text) → length (but_last k t) ≡ length t - k
unfolding but_last
length-but_last k t = length-take (length t - k) t (omega arith)

with_head-length :
    (head : Text) (parts : List Text)
    → 0 < length head
    → length (with_head head parts) ≡ suc (length parts)
with_head-length [] parts h = absurd (omega arith)
with_head-length (c ∷ head) parts h = refl

pub length-split_groups :
    (f size : ℕ) (head : Text) (parts : List Text)
    → 0 < length head
    → length parts < length (split_groups f size head parts)
unfolding split_groups
length-split_groups zero size head parts h = omega (arith, with_head-length head parts h)
length-split_groups (suc f) size head parts h = elim (Bool-cases (ltb size (length head))) [
  | inl more ↦
      let left : 0 < length (but_last size head) =
        omega (arith, length-but_last size head, ltb→lt _ _ more) in
      rw more (
        omega
          (arith, length-split_groups f size (but_last size head) (last_of size head ∷ parts) left))
  | inr done ↦ rw done (omega (arith, with_head-length head parts h))
]
