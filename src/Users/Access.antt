-- ===== src/Users/Access.antt =====
-- Whom a presented key lets in.
use mathlib.Core.Path.{subst}
use product_updates.Prelude.{
  ◌≡◌, ◌∷◌, [], ◌&&◌, some, none, Option, List, Text, true, false, Any, refl, ap, ◌∙◌, arith, inl,
  inr, Bool-cases, Option-cases, is_empty, is_some, text_eq, eq_of_text_eq,
}
use product_updates.Users.Deployed.{Deployed, verify_api_key-Deployed, AllBlank, valid_keys-blank}
use product_updates.Users.{
  User, Users, auth_enabled, default_user, get_by_key_hash, has_key_hash, resolve_presented,
  resolve_user, verify_api_key, verify_keys,
}

-- The account holds the key, and is active.
pub record Holds (digest : Text) (users : List User) (u : User) : Type 0 where
  pub listed : Any (λ v. v ≡ u) users
  pub holds : u.api_key_hash ≡ some digest
  pub active : u.is_active ≡ true

has_key_hash-holds :
    (digest : Text) (u : User)
    → has_key_hash digest u ≡ true
    → (u.api_key_hash ≡ some digest) × (u.is_active ≡ true)
unfolding has_key_hash
has_key_hash-holds digest u h = elim (Option-cases u.api_key_hash) [
  | inl e ↦ ground (arith, h, e)
  | inr (k, e) ↦
      let same : text_eq k digest ≡ true = ground (arith, h, e) in
      (e ∙ ap some (eq_of_text_eq k digest same), ground (arith, h, e))
]

get_by_key_hash-Holds :
    (digest : Text) (users : List User) (u : User)
    → get_by_key_hash digest users ≡ some u
    → Holds digest users u
unfolding get_by_key_hash
get_by_key_hash-Holds digest [] u h = ground arith
get_by_key_hash-Holds digest (v ∷ users) u h = elim (Bool-cases (has_key_hash digest v)) [
  | inl e ↦
      let same : v ≡ u = ground (arith, h, e) in
      let holds = has_key_hash-holds digest v e in
      subst (Holds digest (v ∷ users)) same
        (record { listed = inl refl; holds = holds.0; active = holds.1 })
  | inr e ↦
      let rest = get_by_key_hash-Holds digest users u (ground (arith, h, e)) in
      record { listed = inr rest.listed; holds = rest.holds; active = rest.active }
]

-- Why a request is let in as an account, where keys are asked for.
pub data Entitled (hash casefold : Text → Text) (api_key : Option Text) (key : Text) (users : Users)
    (u : User) : Type 0 where
  by_deployment :
      (raw : Text)
      → api_key ≡ some raw
      → Deployed raw key
      → u ≡ (default_user casefold users).0
      → Entitled hash casefold api_key key users u
  by_account : Holds (hash key) users.rows u → Entitled hash casefold api_key key users u

module _ (hash casefold : Text → Text) (api_key : Option Text) (users after : Users)
    (u : User) where
  resolve_presented-Entitled :
      (key : Text)
      → resolve_presented hash casefold api_key key users ≡ some (u, after)
      → Entitled hash casefold api_key key users u
  unfolding resolve_presented
  resolve_presented-Entitled key h =
      elim (Bool-cases (is_some api_key && verify_api_key api_key key)) [
        | inl e ↦
            let same : some (default_user casefold users) ≡ some (u, after) =
              ground (arith, h, e) in
            deployed api_key refl (ground (arith, e)) (ground (arith, e)) (ground (arith, same))
        | inr e ↦ elim (Option-cases (get_by_key_hash (hash key) users.rows)) [
          | inl no_row ↦ absurd (ground (arith, h, e, no_row))
          | inr (v, row) ↦
              let same : v ≡ u = ground (arith, h, e, row) in
              by_account (get_by_key_hash-Holds (hash key) users.rows u (row ∙ ap some same))
        ]
      ]
    where
      deployed :
          (o : Option Text)
          → api_key ≡ o
          → is_some o ≡ true
          → verify_api_key o key ≡ true
          → u ≡ (default_user casefold users).0
          → Entitled hash casefold api_key key users u
      deployed none e set v d = absurd (ground (arith, set))
      deployed (some raw) e set v d = by_deployment raw e (verify_api_key-Deployed raw key v) d

  -- Where a key is asked for, a request is let in only with a key that is not empty, and only as the
  -- default account, where a deployment key is set and the key is one of its comma-separated parts or
  -- all of its parts are blank, or as an active account that holds the key.
  pub resolve_user-Entitled :
      (presented : Option Text)
      → auth_enabled api_key users.rows ≡ true
      → resolve_user hash casefold api_key presented users ≡ some (u, after)
      → (key : Text) × ((presented ≡ some key)
          × ((is_empty key ≡ false) × Entitled hash casefold api_key key users u))
  unfolding resolve_user
  resolve_user-Entitled none on h = absurd (ground (arith, h, on))
  resolve_user-Entitled (some key) on h = elim (Bool-cases (is_empty key)) [
    | inl e ↦ absurd (ground (arith, h, on, e))
    | inr e ↦ (key, (refl, (e, resolve_presented-Entitled key (ground (arith, h, on, e)))))
  ]

-- A deployment key that is made of commas and white space only lets every request in that presents
-- any key at all, as the default account.
pub resolve_user-blank_keys :
    (hash casefold : Text → Text) (raw key : Text) (users : Users)
    → AllBlank raw
    → is_empty key ≡ false
    → resolve_user hash casefold (some raw) (some key) users ≡ some (default_user casefold users)
unfolding resolve_user resolve_presented auth_enabled verify_api_key verify_keys
resolve_user-blank_keys hash casefold raw key users blank filled =
    rw (filled, valid_keys-blank raw blank) refl
