-- ===== src/Notifications/Uniqueness.antt =====
-- An alert is recorded once: keys tell alerts apart, and the table holds each key once.
use product_updates.Decimal.Written.{digits}
use product_updates.Decimal.Written.Digits.{digits-Lacks, digits_injective}
use product_updates.Domain.Contexts.{Time, RuleMatch}
use product_updates.Domain.Enums.{RuleType, rule_type_value}
use product_updates.Notifications.{Table, Owner, Notification, NewAlert, create_if_new, has_key}
use product_updates.Notifications.Keys.{bucket_of, key_text, build_dedupe_key, record_match}
use product_updates.Prelude.{
  ℕ, Text, text_eq, text_eq_refl, eq_of_text_eq, Option, none, is_some, List, [], ◌∷◌, ◌++◌, ◌≡◌,
  ◌↔◌, refl, sym, ap, ◌∙◌, arith, true, false, Bool-cases, inl, inr, ◌||◌, text_eq_sym, not, ◌⊎◌,
}
use product_updates.Prelude.Joins.{Lacks, split_at_separator, split_at_last}
use product_updates.Rules.{dedupe_signature}

rule_type_value-Lacks : (a : RuleType) → Lacks b'|' (rule_type_value a)
unfolding rule_type_value
rule_type_value-Lacks a = ground arith

rule_type_value_injective : (a b : RuleType) → rule_type_value a ≡ rule_type_value b → a ≡ b
unfolding rule_type_value
rule_type_value_injective a b h = ground arith

-- The identity of an alert within one window.
pub record SameAlert (m m' : RuleMatch) : Type 0 where
  pub product : m.product_id ≡ m'.product_id
  pub rule : m.rule_id ≡ m'.rule_id
  pub type : m.rule_type ≡ m'.rule_type
  pub signature : dedupe_signature m ≡ dedupe_signature m'

key_text_injective :
    (m m' : RuleMatch) (b b' : ℕ) → key_text m b ≡ key_text m' b' → SameAlert m m' × (b ≡ b')
unfolding key_text
key_text_injective m m' b b' h =
    let (e₁, r₁) =
      split_at_separator b'|' (digits m.product_id) (digits m'.product_id) _ _
        (digits-Lacks b'|' m.product_id refl) (digits-Lacks b'|' m'.product_id refl) h in
    let (e₂, r₂) =
      split_at_separator b'|' (digits m.rule_id) (digits m'.rule_id) _ _
        (digits-Lacks b'|' m.rule_id refl) (digits-Lacks b'|' m'.rule_id refl) r₁ in
    let (e₃, r₃) =
      split_at_separator b'|' (rule_type_value m.rule_type) (rule_type_value m'.rule_type) _ _
        (rule_type_value-Lacks m.rule_type) (rule_type_value-Lacks m'.rule_type) r₂ in
    let (e₄, e₅) =
      split_at_last b'|' (dedupe_signature m) (dedupe_signature m') (digits b) (digits b')
        (digits-Lacks b'|' b refl) (digits-Lacks b'|' b' refl) r₃ in
    (
      record {
        product = digits_injective _ _ e₁;
        rule = digits_injective _ _ e₂;
        type = rule_type_value_injective _ _ e₃;
        signature = e₄;
      },
      digits_injective _ _ e₅,
    )

-- No two rows have the same key: the unique constraint of the table.
abbrev pub UniqueKeys : List Notification → Type 0
UniqueKeys [] = Unit
UniqueKeys (row ∷ rows) = (has_key row.dedupe_key rows ≡ false) × UniqueKeys rows

has_key-append :
    (key : Text) (rows : List Notification) (row : Notification)
    → has_key key (rows ++ row ∷ []) ≡ (has_key key rows || text_eq row.dedupe_key key)
unfolding has_key
has_key-append key [] row = ground arith
has_key-append key (r ∷ rows) row = ground (arith, has_key-append key rows row)

UniqueKeys-append :
    (rows : List Notification) (row : Notification)
    → has_key row.dedupe_key rows ≡ false
    → UniqueKeys rows
    → UniqueKeys (rows ++ row ∷ [])
unfolding has_key
UniqueKeys-append [] row h u = (refl, tt)
UniqueKeys-append (r ∷ rows) row h u = (
  ground
      (arith, has_key-append r.dedupe_key rows row, text_eq_sym r.dedupe_key row.dedupe_key, u.0),
  UniqueKeys-append rows row (ground arith) u.1,
)

-- Recording an alert, new or not, keeps every key of the table unique.
pub create_if_new-UniqueKeys :
    (a : NewAlert) (now : Time) (table : Table)
    → UniqueKeys table.rows
    → UniqueKeys (create_if_new a now table).1.rows
unfolding create_if_new
create_if_new-UniqueKeys a now table u = elim (Bool-cases (has_key a.dedupe_key table.rows)) [
  | inl old ↦ rw old u
  | inr new ↦ rw new (UniqueKeys-append table.rows _ new u)
]

pub create_if_new-has_key :
    (a : NewAlert) (now : Time) (table : Table) (key : Text)
    → has_key key (create_if_new a now table).1.rows
      ≡ (has_key key table.rows || text_eq a.dedupe_key key)
unfolding create_if_new
create_if_new-has_key a now table key = elim (Bool-cases (has_key a.dedupe_key table.rows)) [
  | inl old ↦ rw old (already_there old (Bool-cases (text_eq a.dedupe_key key)))
  | inr new ↦ rw new (has_key-append key table.rows _)
]
  where
    already_there :
        has_key a.dedupe_key table.rows ≡ true
        → (text_eq a.dedupe_key key ≡ true) ⊎ (text_eq a.dedupe_key key ≡ false)
        → has_key key table.rows ≡ (has_key key table.rows || text_eq a.dedupe_key key)
    already_there old (inl e) =
        let k = ap (λ k. has_key k table.rows) (eq_of_text_eq a.dedupe_key key e) in
        ground (arith, k)
    already_there old (inr e) = ground arith

create_if_new_old :
    (a : NewAlert) (now : Time) (table : Table)
    → has_key a.dedupe_key table.rows ≡ true
    → create_if_new a now table ≡ (none, table)
unfolding create_if_new
create_if_new_old a now table h = rw h

is_some-create_if_new :
    (a : NewAlert) (now : Time) (table : Table)
    → is_some (create_if_new a now table).0 ≡ not (has_key a.dedupe_key table.rows)
unfolding create_if_new
is_some-create_if_new a now table = ground arith

key_text_same :
    (m m' : RuleMatch) (b b' : ℕ) → SameAlert m m' → b ≡ b' → key_text m b ≡ key_text m' b'
unfolding key_text
key_text_same m m' b b' s e = cc (s.product, s.rule, s.type, s.signature, e)

module _ (digest : Text → Text) where
  -- Where the digest has no collisions, two alerts share a key exactly when they are about the same
  -- product, rule, type and signature, and fall into the same window.
  pub same_key_iff :
      ((s t : Text) → digest s ≡ digest t → s ≡ t)
      → (m m' : RuleMatch) (when when' window : ℕ)
      → (build_dedupe_key digest m when window ≡ build_dedupe_key digest m' when' window)
        ↔ (SameAlert m m' × (bucket_of when window ≡ bucket_of when' window))
  unfolding build_dedupe_key
  same_key_iff inj m m' when when' window = (
    λ h. key_text_injective m m' _ _ (inj _ _ h),
    λ same. ap digest (key_text_same m m' _ _ same.0 same.1),
  )

  -- An alert that was recorded, or found to be there, is not recorded again in the same window, and
  -- the attempt changes nothing.
  pub record_again :
      (window : ℕ) (owner owner' : Option Owner) (m m' : RuleMatch) (when when' : Time)
      (table : Table)
      → SameAlert m m'
      → bucket_of when window ≡ bucket_of when' window
      → let after = (record_match digest window owner m when table).1 in
        record_match digest window owner' m' when' after ≡ (none, after)
  unfolding record_match build_dedupe_key
  record_again window owner owner' m m' when when' table s e =
      let same_key = ap digest (key_text_same m m' _ _ s e) in
      create_if_new_old _ when' _ (
        create_if_new-has_key _ when table _
        ∙ ground (
          arith,
          same_key,
          text_eq_refl (build_dedupe_key digest m when window),
          ap (text_eq (build_dedupe_key digest m when window)) same_key,
        ))

  -- Recording one alert does not decide about another: that one is new afterwards exactly when it
  -- was new before, if it is not the same alert in the same window and the digest has no
  -- collisions.
  pub record_other :
      ((s t : Text) → digest s ≡ digest t → s ≡ t)
      → (window : ℕ) (owner owner' : Option Owner) (m m' : RuleMatch) (when when' : Time)
        (table : Table)
      → ¬ (SameAlert m m' × (bucket_of when window ≡ bucket_of when' window))
      → is_some
          (record_match digest window owner' m' when'
            (record_match digest window owner m when table).1).0
        ≡ is_some (record_match digest window owner' m' when' table).0
  unfolding record_match
  record_other inj window owner owner' m m' when when' table ne =
      is_some-create_if_new _ when' _
      ∙ ap not (
          create_if_new-has_key _ when table _
          ∙ ground (
            arith,
            other_key (
                Bool-cases (
                  text_eq (build_dedupe_key digest m when window)
                    (build_dedupe_key digest m' when' window))),
          ))
      ∙ sym (is_some-create_if_new _ when' table)
    where
      other_key :
          (text_eq (build_dedupe_key digest m when window) (build_dedupe_key digest m' when' window)
              ≡ true)
            ⊎ (text_eq
                  (build_dedupe_key digest m when window)
                  (build_dedupe_key digest m' when' window)
                ≡ false)
          → text_eq
              (build_dedupe_key digest m when window)
              (build_dedupe_key digest m' when' window)
            ≡ false
      other_key (inl e) =
          absurd (ne ((same_key_iff inj m m' when when' window).0 (eq_of_text_eq _ _ e)))
      other_key (inr e) = e
