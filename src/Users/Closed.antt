-- ===== src/Users/Closed.antt =====
-- What deactivating an account does to the keys.
use mathlib.Core.Path.{subst}
use product_updates.Prelude.{
  ◌≡◌, ◌∷◌, [], ◌||◌, ◌==◌, some, none, Option, List, Text, ℕ, true, false, refl, sym, ap, ◌∙◌,
  arith, inl, inr, Bool-cases, Option-cases, is_some, All, ==_iff, All, Bool,
}
use product_updates.Users.{
  User, Users, granted, any_key_configured, change_user, get_by_id, get_by_key_hash, has_key_hash,
  set_active, write_user,
}

get_by_id-id : (id : ℕ) (users : List User) (u : User) → get_by_id id users ≡ some u → u.id ≡ id
unfolding get_by_id
get_by_id-id id [] u h = ground arith
get_by_id-id id (v ∷ users) u h = elim (Bool-cases (v.id == id)) [
  | inl e ↦ ground arith
  | inr e ↦ get_by_id-id id users u (ground arith)
]

-- no two rows have one id
abbrev pub HasUniqueIds : List User → Type 0
HasUniqueIds [] = Unit
HasUniqueIds (u ∷ users) = All (λ v. (v.id == u.id) ≡ false) users × HasUniqueIds users

write_user-absent :
    (u : User) (users : List User)
    → All (λ v. (v.id == u.id) ≡ false) users
    → write_user u users ≡ users
unfolding write_user
write_user-absent u [] h = refl
write_user-absent u (v ∷ users) h = rw (h.0, write_user-absent u users h.1) refl

write_user-any_key :
    (id : ℕ) (users : List User) (u u' : User)
    → HasUniqueIds users
    → get_by_id id users ≡ some u
    → u'.id ≡ id
    → u'.api_key_hash ≡ u.api_key_hash
    → any_key_configured (write_user u' users) ≡ any_key_configured users
unfolding any_key_configured write_user get_by_id
write_user-any_key id [] u u' unique found named key = ground arith
write_user-any_key id (v ∷ users) u u' unique found named key = elim (Bool-cases (v.id == id)) [
  | inl e ↦
      let same : v ≡ u = ground (arith, found, e) in
      let here : (v.id == u'.id) ≡ true = ground (arith, e, named) in
      let number : v.id ≡ u'.id = (==_iff v.id u'.id).0 here in
      let alone : All (λ w. (w.id == u'.id) ≡ false) users =
        subst (λ (i : ℕ). All (λ w. (w.id == i) ≡ false) users) number unique.0 in
      rw (here, key, write_user-absent u' users alone)
        (ap (λ x. is_some x.api_key_hash || any_key_configured users) (sym same))
  | inr e ↦
      let away : (v.id == u'.id) ≡ false = ground (arith, e, named) in
      rw (away, write_user-any_key id users u u' unique.1 (ground (arith, found, e)) named key) refl
]

inactive-no_key : (digest : Text) (u : User) → u.is_active ≡ false → has_key_hash digest u ≡ false
unfolding has_key_hash
inactive-no_key digest u off = elim (Option-cases u.api_key_hash) [
  | inl e ↦ ground (arith, off)
  | inr (k, e) ↦ ground (arith, off, e)
]

-- no row with the id is found by a key
write_user-inactive :
    (digest : Text) (u w : User) (users : List User)
    → u.is_active ≡ false
    → get_by_key_hash digest (write_user u users) ≡ some w
    → (w.id == u.id) ≡ false
unfolding get_by_key_hash write_user
write_user-inactive digest u w [] off h = ground arith
write_user-inactive digest u w (v ∷ users) off h = elim (Bool-cases (v.id == u.id)) [
  | inl e ↦
      let step : get_by_key_hash digest (write_user u (v ∷ users))
          ≡ get_by_key_hash digest (write_user u users) =
        rw (e, inactive-no_key digest u off) refl in
      write_user-inactive digest u w users off (sym step ∙ h)
  | inr e ↦ elim (Bool-cases (has_key_hash digest v)) [
    | inl k ↦ ground (arith, h, e, k)
    | inr k ↦
        let step : get_by_key_hash digest (write_user u (v ∷ users))
            ≡ get_by_key_hash digest (write_user u users) =
          rw (e, k) refl in
        write_user-inactive digest u w users off (sym step ∙ h)
  ]
]

-- a row was found, and it is the account's
abbrev pub is_account : ℕ → Option User → Bool
is_account id none = false
is_account id (some w) = w.id == id

-- What holds after an account was deactivated.
pub record IsClosed (id : ℕ) (before after : Users) : Type 0 where
  pub still_locked : any_key_configured after.rows ≡ any_key_configured before.rows
  pub locked_out : (digest : Text) → is_account id (get_by_key_hash digest after.rows) ≡ false

-- Deactivating an account shuts its key out and opens nothing: keys are asked for exactly if they
-- were before, though the account may be the only one with a key, and no key finds the account. The
-- ids of the accounts are taken to be unique.
pub set_active-IsClosed :
    (id : ℕ) (before after : Users)
    → HasUniqueIds before.rows
    → set_active id false before ≡ granted after
    → IsClosed id before after
unfolding set_active change_user
set_active-IsClosed id before after unique h = go (get_by_id id before.rows) refl
  where
    out :
        (digest : Text) (off : User)
        → off.id ≡ id
        → off.is_active ≡ false
        → (found : Option User) → get_by_key_hash digest (write_user off before.rows) ≡ found
        → is_account id found ≡ false
    out digest off named shut none k = refl
    out digest off named shut (some w) k =
        subst (λ (i : ℕ). (w.id == i) ≡ false) named
          (write_user-inactive digest off w before.rows shut k)

    closed :
        (u : User)
        → get_by_id id before.rows ≡ some u
        → IsClosed id before
            (record before { rows = write_user (record u { is_active = false }) before.rows })
    closed u found =
        let named = get_by_id-id id before.rows u found in
        let off = record u { is_active = false } in
        record {
          still_locked = write_user-any_key id before.rows u off unique found named refl;
          locked_out = λ digest.
              out digest off named refl (get_by_key_hash digest (write_user off before.rows)) refl;
        }

    go : (o : Option User) → get_by_id id before.rows ≡ o → IsClosed id before after
    go none e = absurd (ground (arith, h, e))
    go (some u) e =
        let same : record before { rows = write_user (record u { is_active = false }) before.rows }
            ≡ after =
          ground (arith, h, e) in
        subst (IsClosed id before) same (closed u e)
