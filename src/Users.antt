-- ===== src/Users.antt =====
-- services/user_service.py, repositories/users.py and core/security.py: accounts, their keys, and the
-- account that a request belongs to. `str.casefold` and the digest of a key are parameters; a new key
-- is an argument. The comparison of two keys takes one time, whatever they are, and is equality here.
pub mod Deployed
pub mod Access
pub mod Closed
use product_updates.Money.{split, comma}
use product_updates.Prelude.{
  if◌then◌else◌, ◌&&◌, ◌||◌, ◌==◌, ◌++◌, ◌∷◌, [], some, none, suc, Option, List, Text, ℕ, Bool,
  true, false, not, any, keep, map, codes, is_empty, text_eq, is_some,
}
use product_updates.Prelude.Spaces.{is_space, strip}

-- db/models.py `User`
pub record User : Type 0 where
  pub id : ℕ
  pub email : Text
  pub name : Option Text
  pub api_key_hash : Option Text
  pub is_active : Bool
  pub is_admin : Bool

pub record Users : Type 0 where
  pub rows : List User
  pub next_id : ℕ

pub data UserError : Type 0 where
  invalid_email duplicate_user no_user : UserError

pub data Answer (A : Type 0) : Type 0 where
  refused : UserError → Answer A
  granted : A → Answer A

-- `DEFAULT_USER_EMAIL`
abbrev pub default_user_email : Text
default_user_email = codes "local@localhost"

-- a point with a character on each side
unfoldable pub has_inner_point : Text → Bool
has_inner_point (a ∷ b ∷ c ∷ t) = (b == b'.') || has_inner_point (b ∷ c ∷ t)
has_inner_point _ = false

unfoldable pub are_email_parts : List Text → Bool
unfolding has_inner_point
are_email_parts (local ∷ domain ∷ []) = not (is_empty local) && has_inner_point domain
are_email_parts _ = false

-- `_EMAIL_PATTERN`, of a text without white space at its ends
unfoldable pub is_email : Text → Bool
unfolding are_email_parts split
is_email address = not (any is_space address) && are_email_parts (split b'@' address)

-- a changed row is written back
unfoldable pub write_user : User → List User → List User
write_user u [] = []
write_user u (v ∷ vs) = (if v.id == u.id then u else v) ∷ write_user u vs

-- `UserRepository.get`
unfoldable pub get_by_id : ℕ → List User → Option User
get_by_id id [] = none
get_by_id id (u ∷ us) = if u.id == id then some u else get_by_id id us

unfoldable pub first_with_email : Text → List User → Option User
first_with_email address [] = none
first_with_email address (u ∷ us) =
    if text_eq u.email address then some u else first_with_email address us

unfoldable pub has_key_hash : Text → User → Bool
has_key_hash hash u = elim u.api_key_hash [ none ↦ false | some h ↦ text_eq h hash && u.is_active ]

-- `UserRepository.get_by_key_hash`
unfoldable pub get_by_key_hash : Text → List User → Option User
unfolding has_key_hash
get_by_key_hash hash [] = none
get_by_key_hash hash (u ∷ us) = if has_key_hash hash u then some u else get_by_key_hash hash us

-- `UserRepository.any_key_configured`
unfoldable pub any_key_configured : List User → Bool
any_key_configured users = any (λ u. is_some u.api_key_hash) users

-- `valid_keys`
unfoldable pub valid_keys : Option Text → List Text
unfolding split strip
valid_keys none = []
valid_keys (some raw) = keep (λ key. not (is_empty key)) (map strip (split comma raw))

-- `verify_api_key`
unfoldable pub verify_keys : List Text → Text → Bool
verify_keys [] presented = true
verify_keys (k ∷ keys) presented =
    not (is_empty presented) && any (λ key. text_eq presented key) (k ∷ keys)

unfoldable pub verify_api_key : Option Text → Text → Bool
unfolding verify_keys valid_keys
verify_api_key api_key presented = verify_keys (valid_keys api_key) presented

-- `auth_enabled`
unfoldable pub auth_enabled : Option Text → List User → Bool
unfolding any_key_configured
auth_enabled api_key users = is_some api_key || any_key_configured users

module _ (casefold : Text → Text) where
  -- `normalise_email`
  unfoldable pub normalise_email : Text → Text
  unfolding strip
  normalise_email email = casefold (strip email)

  -- `UserRepository.get_by_email`
  unfoldable pub get_by_email : Text → List User → Option User
  unfolding first_with_email normalise_email
  get_by_email email users = first_with_email (normalise_email email) users

  -- the account that is made where the default one is gone
  unfoldable pub make_default : Users → User × Users
  make_default users =
      let u : User = record {
        id = users.next_id;
        email = default_user_email;
        name = some (codes "Local");
        api_key_hash = none;
        is_active = true;
        is_admin = true;
      } in
      (u, record { rows = users.rows ++ u ∷ []; next_id = suc users.next_id })

  unfoldable pub default_or_made : Option User → Users → User × Users
  unfolding make_default
  default_or_made none users = make_default users
  default_or_made (some u) users = (u, users)

  -- `default_user`
  unfoldable pub default_user : Users → User × Users
  unfolding default_or_made get_by_email
  default_user users = default_or_made (get_by_email default_user_email users.rows) users

-- a change of the row with an id; an address is looked up in the same way
unfoldable pub change_user : (User → User) → Option User → Users → Answer Users
unfolding write_user
change_user f none users = refused no_user
change_user f (some u) users = granted (record users { rows = write_user (f u) users.rows })

-- `set_active`
unfoldable pub set_active : ℕ → Bool → Users → Answer Users
unfolding change_user get_by_id
set_active id active users =
    change_user (λ u. record u { is_active = active }) (get_by_id id users.rows) users

module _ (hash : Text → Text) (casefold : Text → Text) where
  abbrev nobody : Option User → Users → Option (User × Users)
  nobody none users = none
  nobody (some u) users = some (u, users)

  -- the end of `resolve_user`, with a key that is presented
  unfoldable pub resolve_presented : Option Text → Text → Users → Option (User × Users)
  unfolding verify_api_key default_user get_by_key_hash
  resolve_presented api_key presented users =
      if is_some api_key && verify_api_key api_key presented
      then some (default_user casefold users)
      else nobody (get_by_key_hash (hash presented) users.rows) users

  -- `resolve_user`; an empty key is as good as none
  unfoldable pub resolve_user : Option Text → Option Text → Users → Option (User × Users)
  unfolding resolve_presented auth_enabled default_user
  resolve_user api_key presented users =
      if not (auth_enabled api_key users.rows)
      then some (default_user casefold users)
      else elim presented [
        | none ↦ none
        | some key ↦ if is_empty key then none else resolve_presented api_key key users
      ]

  -- `create_user`, with the key that is issued, if one is
  unfoldable pub create_user : Text → Option Text → Bool → Option Text → Users → Answer Users
  unfolding normalise_email is_email first_with_email
  create_user email name is_admin key users =
      let address = normalise_email casefold email in
      if not (is_email address)
      then refused invalid_email
      else if is_some (first_with_email (normalise_email casefold address) users.rows)
      then refused duplicate_user
      else granted (record {
        rows =
            users.rows
            ++ record {
              id = users.next_id;
              email = address;
              name = elim name [ none ↦ none | some n ↦ if is_empty n then none else some n ];
              api_key_hash = elim key [ none ↦ none | some k ↦ some (hash k) ];
              is_active = true;
              is_admin = is_admin;
            }
              ∷ [];
        next_id = suc users.next_id;
      })

  -- `rotate_key`
  unfoldable pub rotate_key : ℕ → Text → Users → Answer Users
  unfolding change_user get_by_id
  rotate_key id key users =
      change_user (λ u. record u { api_key_hash = some (hash key) }) (get_by_id id users.rows) users
