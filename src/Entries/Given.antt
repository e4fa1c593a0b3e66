-- ===== src/Entries/Given.antt =====
-- What holds of a result, where it is one.
use mathlib.Core.Path.{subst}
use product_updates.Accounts.{Result, failed, done}
use product_updates.Entries.{and_then}
use product_updates.Prelude.{◌≡◌, Bool, refl, ap, arith, inl, inr, Bool-cases, if◌then◌else◌}

-- what holds of a result, if it is one
unfoldable pub Given : {A : Type 0} → (A → Type 0) → Result A → Type 0
Given P (failed e) = Unit
Given P (done a) = P a

pub Given-and_then :
    {A B : Type 0} (P : B → Type 0) (r : Result A) (f : A → Result B)
    → ((a : A) → r ≡ done a → Given P (f a))
    → Given P (and_then r f)
unfolding Given and_then
Given-and_then P (failed e) f h = tt
Given-and_then P (done a) f h = h a refl

pub Given-if :
    {A : Type 0} (P : A → Type 0) (b : Bool) (r s : Result A)
    → Given P r
    → Given P s
    → Given P (if b then r else s)
unfolding Given
Given-if P b r s x y = elim (Bool-cases b) [ inl e ↦ rw e x | inr e ↦ rw e y ]

-- the value of a result, and another where there is none
abbrev value_or : {A : Type 0} → A → Result A → A
value_or a (failed e) = a
value_or a (done b) = b

pub Given-done : {A : Type 0} (P : A → Type 0) (r : Result A) (a : A) → Given P r → r ≡ done a → P a
unfolding Given
Given-done P (failed e) a x h = ground arith
Given-done P (done b) a x h = subst P (ap (value_or b) h) x
