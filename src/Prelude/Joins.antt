-- ===== src/Prelude/Joins.antt =====
-- Texts joined by a separator that occurs in neither part are taken apart in one way.
use Prim.Native.Nat.{ℕ}
use mathlib.Core.List.{List, [], ◌∷◌, ◌++◌}
use mathlib.Core.Logic.{◌≢◌}
use mathlib.Core.Path.{◌≡◌, refl, subst}
use product_updates.Prelude.Lists.{All, All-append}
use product_updates.Prelude.Texts.{Text}

-- `sep not in t`
abbrev pub Lacks : ℕ → Text → Type 0
Lacks sep t = All (λ c. c ≢ sep) t

pub Lacks-append : (sep : ℕ) (s t : Text) → Lacks sep s → Lacks sep t → Lacks sep (s ++ t)
Lacks-append sep s t = All-append (λ c. c ≢ sep) s t

pub split_at_separator :
    (sep : ℕ) (s s' t t' : Text)
    → Lacks sep s
    → Lacks sep s'
    → s ++ sep ∷ t ≡ s' ++ sep ∷ t'
    → (s ≡ s') × (t ≡ t')
split_at_separator sep [] [] t t' h h' e = (refl, cc)
split_at_separator sep [] (c ∷ s') t t' h h' e = absurd (h'.0 (cc))
split_at_separator sep (c ∷ s) [] t t' h h' e = absurd (h.0 (cc))
split_at_separator sep (c ∷ s) (d ∷ s') t t' h h' e =
    let r = split_at_separator sep s s' t t' h.1 h'.1 (cc) in (cc (r.0), r.1)

occurs-absurd : (sep : ℕ) (s t : Text) → Lacks sep (s ++ sep ∷ t) → ⊥
occurs-absurd sep [] t h = h.0 refl
occurs-absurd sep (c ∷ s) t h = occurs-absurd sep s t h.1

pub split_at_last :
    (sep : ℕ) (s s' t t' : Text)
    → Lacks sep t
    → Lacks sep t'
    → s ++ sep ∷ t ≡ s' ++ sep ∷ t'
    → (s ≡ s') × (t ≡ t')
split_at_last sep [] [] t t' h h' e = (refl, cc)
split_at_last sep [] (c ∷ s') t t' h h' e =
    let e' : t ≡ s' ++ sep ∷ t' = cc in absurd (occurs-absurd sep s' t' (subst (Lacks sep) e' h))
split_at_last sep (c ∷ s) [] t t' h h' e =
    let e' : t' ≡ s ++ sep ∷ t = cc in absurd (occurs-absurd sep s t (subst (Lacks sep) e' h'))
split_at_last sep (c ∷ s) (d ∷ s') t t' h h' e =
    let r = split_at_last sep s s' t t' h h' (cc) in (cc (r.0), r.1)

-- `sep.join(texts)`
abbrev pub join : Text → List Text → Text
join sep [] = []
join sep (t ∷ []) = t
join sep (t ∷ u ∷ ts) = t ++ (sep ++ join sep (u ∷ ts))
