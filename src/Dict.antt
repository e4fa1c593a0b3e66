-- ===== src/Dict.antt =====
-- Python's `dict` with text keys: pairs in order of insertion.
use product_updates.Prelude.{
  Text, text_eq, text_eq_refl, eq_of_text_eq, Option, none, some, List, [], ◌∷◌, ◌≡◌, refl, arith,
  if◌then◌else◌,
}

abbrev pub Dict {ℓ} : Type ℓ → Type ℓ
Dict V = List (Text × V)

module _ {ℓ} {V : Type ℓ} where
  -- `d.get(k)`
  unfoldable pub get : Dict V → Text → Option V
  get [] k = none
  get ((j, v) ∷ d) k = if text_eq j k then some v else get d k

  -- `d[k] = v`: an existing key keeps its place.
  unfoldable pub put : Dict V → Text → V → Dict V
  put [] k v = (k, v) ∷ []
  put ((j, w) ∷ d) k v = if text_eq j k then (j, v) ∷ d else (j, w) ∷ put d k v

  -- `{**d, **e}`
  unfoldable pub merge : Dict V → Dict V → Dict V
  merge d [] = d
  merge d ((k, v) ∷ e) = merge (put d k v) e

  pub get-put :
      (d : Dict V) (k j : Text) (v : V)
      → get (put d k v) j ≡ (if text_eq k j then some v else get d j)
  unfolding get put
  get-put [] k j v = refl
  get-put ((i, w) ∷ d) k j v = ground (
    arith,
    get-put d k j v,
    eq_of_text_eq i k,
    eq_of_text_eq k j,
    eq_of_text_eq i j,
    text_eq_refl k,
  )

  pub get-put_self : (d : Dict V) (k : Text) (v : V) → get (put d k v) k ≡ some v
  get-put_self d k v = ground (arith, get-put d k k v, text_eq_refl k)

  -- Putting a value a second time changes nothing.
  pub put-put_self : (d : Dict V) (k : Text) (v : V) → put (put d k v) k v ≡ put d k v
  unfolding put
  put-put_self [] k v = ground (arith, text_eq_refl k)
  put-put_self ((j, w) ∷ d) k v = ground (arith, put-put_self d k v)
