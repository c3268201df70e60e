-- ===== src/SkillState/Secrets.antt =====
-- Where `_validate_no_secret_keys` of scripts/josemar_skill_state.py looks: the paths through the
-- mappings and the lists of a document.
use josemar_assistente.Base.{
  ℕ, zero, suc, String, ◌≡◌, refl, sym, ap, ◌∙◌, ◌⊎◌, inl, inr, Bool, true, false, not, Option,
  none, some, List, [], ◌∷◌, any, arith, str_eq, eq_iff, Bool-cases,
}
use josemar_assistente.Base.Fields.{get}
use josemar_assistente.Base.Json.{
  Json, null, bool, num, str, arr, obj, Items, nil, cons, Fields, end, field,
}
use josemar_assistente.SkillState.Allowlist.{guard}
use josemar_assistente.SkillState.Owned.{or_second}
use josemar_assistente.SkillState.Schema.{
  is_secret_looking_key, validate_no_secret_keys, no_secret_fields, no_secret_items,
}
use josemar_assistente.SkillState.Checks.{Passes, guard-ok, Passes->>=}

-- `path.key` or `path[index]`
pub data PathStep : Type 0 where
  at_key : String → PathStep
  at_index : ℕ → PathStep

unfoldable pub item_at : ℕ → Items → Option Json
item_at n nil = none
item_at zero (cons x xs) = some x
item_at (suc n) (cons x xs) = item_at n xs

-- The value at a path
unfoldable pub value_at : List PathStep → Json → Option Json
value_at [] value = some value
value_at (at_key k ∷ path) (obj fs) = elim (get k fs) [
  | none ↦ none
  | some value ↦ value_at path value
]
value_at (at_index n ∷ path) (arr xs) = elim (item_at n xs) [
  | none ↦ none
  | some value ↦ value_at path value
]
value_at (step ∷ path) value = none

abbrev pub is_secret_step : (String → Bool) → PathStep → Bool
is_secret_step pattern (at_key k) = is_secret_looking_key pattern k
is_secret_step pattern (at_index n) = false

not-true : (b : Bool) → not b ≡ true → b ≡ false
not-true b e = ground arith

no_secret_get :
    (pattern : String → Bool) (k : String) (fs : Fields)
    → Passes (no_secret_fields pattern fs)
    → (get k fs ≡ none)
      ⊎ ((value : Json) × (get k fs ≡ some value)
          × (is_secret_looking_key pattern k ≡ false)
          × Passes (validate_no_secret_keys pattern value))
unfolding no_secret_fields get
no_secret_get pattern k end h = inl refl
no_secret_get pattern k (field j v fs) h =
    let first = Passes->>= (guard (not (is_secret_looking_key pattern j)) _) _ h in
    let clean = guard-ok _ _ first.0 first.1 in
    let rest =
      Passes->>= (validate_no_secret_keys pattern v) (λ u. no_secret_fields pattern fs) first.2 in
    elim (Bool-cases (str_eq j k)) [
      | inl own ↦ rw own (
          inr (
            v,
            refl,
            ap (is_secret_looking_key pattern) (sym ((eq_iff j k).0 own)) ∙ not-true _ clean,
            (rest.0, rest.1),
          ))
      | inr other ↦ rw other (no_secret_get pattern k fs rest.2)
    ]

no_secret_item :
    (pattern : String → Bool) (n : ℕ) (xs : Items)
    → Passes (no_secret_items pattern xs)
    → (item_at n xs ≡ none)
      ⊎ ((value : Json) × (item_at n xs ≡ some value)
          × Passes (validate_no_secret_keys pattern value))
unfolding no_secret_items item_at
no_secret_item pattern n nil h = inl refl
no_secret_item pattern zero (cons x xs) h =
    let first =
      Passes->>= (validate_no_secret_keys pattern x) (λ u. no_secret_items pattern xs) h in
    inr (x, refl, (first.0, first.1))
no_secret_item pattern (suc n) (cons x xs) h =
    let first =
      Passes->>= (validate_no_secret_keys pattern x) (λ u. no_secret_items pattern xs) h in
    no_secret_item pattern n xs first.2

-- In a value that passes the scan no path through a secret-looking key leads anywhere.
pub no_secret_path :
    (pattern : String → Bool) (path : List PathStep) (value : Json)
    → Passes (validate_no_secret_keys pattern value)
    → any (is_secret_step pattern) path ≡ true
    → value_at path value ≡ none
unfolding value_at validate_no_secret_keys
no_secret_path pattern [] value h secret = absurd (cc)
no_secret_path pattern (at_key k ∷ path) (obj fs) h secret = elim (no_secret_get pattern k fs h) [
  | inl absent ↦ rw (absent, value_at) refl
  | inr there ↦
      rw (there.1, value_at)
        (no_secret_path pattern path there.0 there.3 (or_second _ _ there.2 secret))
]
no_secret_path pattern (at_index n ∷ path) (arr xs) h secret =
    elim (no_secret_item pattern n xs h) [
      | inl absent ↦ rw (absent, value_at) refl
      | inr there ↦ rw (there.1, value_at) (no_secret_path pattern path there.0 there.2 secret)
    ]
no_secret_path pattern (at_key k ∷ path) null h secret = refl
no_secret_path pattern (at_key k ∷ path) (bool b) h secret = refl
no_secret_path pattern (at_key k ∷ path) (num n) h secret = refl
no_secret_path pattern (at_key k ∷ path) (str t) h secret = refl
no_secret_path pattern (at_key k ∷ path) (arr xs) h secret = refl
no_secret_path pattern (at_index n ∷ path) null h secret = refl
no_secret_path pattern (at_index n ∷ path) (bool b) h secret = refl
no_secret_path pattern (at_index n ∷ path) (num m) h secret = refl
no_secret_path pattern (at_index n ∷ path) (str t) h secret = refl
no_secret_path pattern (at_index n ∷ path) (obj fs) h secret = refl
