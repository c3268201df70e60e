-- ===== src/SkillState/Strict.antt =====
-- The strict schema of the allowlist and of the migration marker, and the key of the configuration
-- (scripts/josemar_skill_state.py).
use mathlib.Core.List.{append-nil, append_assoc}
use josemar_assistente.Base.{
  ℕ, suc, String, ◌≡◌, refl, sym, ap, ◌∙◌, Bool, true, false, ◌&&◌, Option, none, some, List, [],
  ◌∷◌, ◌++◌, arith, str_eq, all, contains, Bool-cases, inl, inr,
}
use josemar_assistente.Base.Order.{sort, sort-ascending_self}
use josemar_assistente.Base.Fields.{get, put, is_there, has_key, get-put, get-delete}
use josemar_assistente.Base.Json.{Json, null, bool, num, str, arr, obj, Items, Fields}
use josemar_assistente.Base.Result.{Result, ok, err, ◌>>=◌, ◌>>◌}
use josemar_assistente.SkillState.Normalize.{ValueError}
use josemar_assistente.SkillState.Canonical.{items_of, fresh, fresh-append_one, fresh_nil}
use josemar_assistente.SkillState.Config.{get_or, or_default}
use josemar_assistente.SkillState.Allowlist.{
  canonical_items, canonical_allowlist_items, required_items, validate_allowlist_fields,
  validate_command_allowlist_state, apply_command_allowlist_to_config,
  extract_command_allowlist_from_config, remove_command_allowlist_from_config,
  config_has_command_allowlist, allowlist_document, is_version_one, reject_unknown_keys, guard,
  field_names, serialize_command_allowlist_state, validate_command_allowlist_state_from_text,
}
use josemar_assistente.SkillState.Allowed.{
  accepted, is_allowed_list, shown_items, canonical_items_accepts,
}

get_none : (o : Option Json) → is_there o ≡ false → o ≡ none
get_none none e = refl
get_none (some value) e = ground arith

get-remove :
    (config : Fields)
    → get "command_allowlist" (remove_command_allowlist_from_config config).0 ≡ none
unfolding remove_command_allowlist_from_config
get-remove config = elim (Bool-cases (has_key "command_allowlist" config)) [
  | inl there ↦ rw there (get-delete "command_allowlist" "command_allowlist" config)
  | inr absent ↦ rw absent (get_none (get "command_allowlist" config) absent)
]

get-remove_other :
    (key : String) (config : Fields)
    → str_eq "command_allowlist" key ≡ false
    → get key (remove_command_allowlist_from_config config).0 ≡ get key config
unfolding remove_command_allowlist_from_config
get-remove_other key config other = elim (Bool-cases (has_key "command_allowlist" config)) [
  | inl there ↦ rw there (get-delete "command_allowlist" key config ∙ rw other refl)
  | inr absent ↦ rw absent refl
]

accepted-guard {ℓ} :
    {A : Type ℓ} (b : Bool) (e : ValueError) (m : Result ValueError A)
    → accepted (guard b e >> m) ≡ (b && accepted m)
accepted-guard true e m = refl
accepted-guard false e m = refl

accepted->>= {ℓ κ} :
    {A : Type ℓ} {B : Type κ} (m : Result ValueError A) (f : A → B)
    → accepted (m >>= λ a. ok (f a)) ≡ accepted m
accepted->>= (ok a) f = refl
accepted->>= (err e) f = refl

module _ (strip : String → String) where
  canonical_items-allowed :
      (idx : ℕ) (xs out : List String)
      → is_allowed_list strip xs ≡ true
      → fresh xs out ≡ true
      → canonical_items strip idx (items_of xs) out ≡ ok (out ++ xs)
  unfolding canonical_items
  canonical_items-allowed idx [] out a f = ap (λ (ys : List String). ok ys) (sym (append-nil out))
  canonical_items-allowed idx (x ∷ xs) out a f =
      let shown : str_eq (strip x) "" ≡ false = ground arith in
      let new : contains x out ≡ false = ground arith in
      rw (shown, new)
        (canonical_items-allowed (suc idx) xs (out ++ x ∷ []) (ground arith)
            (fresh-append_one x xs out (ground arith) (ground arith))
          ∙ ap (λ (ys : List String). ok ys) (append_assoc out (x ∷ []) xs))

  canonical_allowlist_items-allowed :
      (xs : List String)
      → is_allowed_list strip xs ≡ true
      → canonical_allowlist_items strip (arr (items_of xs)) ≡ ok xs
  unfolding canonical_allowlist_items
  canonical_allowlist_items-allowed xs a =
      rw (canonical_items-allowed 0 xs [] a (fresh_nil xs))
        (ap (λ (ys : List String). ok ys) (sort-ascending_self xs (ground arith)))

  document_accepted :
      (xs : List String)
      → is_allowed_list strip xs ≡ true
      → validate_command_allowlist_state strip (allowlist_document xs) ≡ ok xs
  unfolding validate_command_allowlist_state validate_allowlist_fields allowlist_document
      reject_unknown_keys required_items is_version_one get
  document_accepted xs a = canonical_allowlist_items-allowed xs a

  -- A sorted allowlist with no text twice and none blank, put into a configuration, is extracted
  -- again as it was; every other key keeps its value; and after a removal the key is gone.
  pub command_allowlist_in_config :
      (config : Fields) (xs : List String) (key : String)
      → is_allowed_list strip xs ≡ true
      → str_eq "command_allowlist" key ≡ false
      → (extract_command_allowlist_from_config strip (apply_command_allowlist_to_config config xs)
          ≡ ok xs)
        × (get key (apply_command_allowlist_to_config config xs) ≡ get key config)
        × (config_has_command_allowlist
              (remove_command_allowlist_from_config (apply_command_allowlist_to_config config xs)).0
            ≡ false)
        × (get key
              (remove_command_allowlist_from_config (apply_command_allowlist_to_config config xs)).0
            ≡ get key config)
  unfolding extract_command_allowlist_from_config apply_command_allowlist_to_config
      remove_command_allowlist_from_config config_has_command_allowlist
  command_allowlist_in_config config xs key a other =
      let c = put "command_allowlist" (arr (items_of xs)) config in
      let kept = get-put "command_allowlist" key (arr (items_of xs)) config ∙ rw other refl in
      (
        ap (λ (o : Option Json). canonical_allowlist_items strip (or_default null o))
              (get-put "command_allowlist" "command_allowlist" (arr (items_of xs)) config)
            ∙ canonical_allowlist_items-allowed xs a,
        kept,
        ap is_there (get-remove c),
        get-remove_other key c other ∙ kept,
      )

  -- The value of the key: a list of texts, none blank
  abbrev pub is_text_list : Option Json → Bool
  is_text_list (some (arr items)) = shown_items strip items
  is_text_list (some null) = false
  is_text_list (some (bool b)) = false
  is_text_list (some (num n)) = false
  is_text_list (some (str s)) = false
  is_text_list (some (obj fs)) = false
  is_text_list none = false

  accepted-items :
      (items : Items)
      → accepted (canonical_items strip 0 items [] >>= λ out. ok (sort out))
        ≡ shown_items strip items
  accepted-items items =
      accepted->>= (canonical_items strip 0 items []) sort
      ∙ canonical_items_accepts strip 0 items []

  required_items_accepts :
      (o : Option Json) (e : ValueError)
      → accepted (guard (is_there o) e >> required_items strip (or_default null o)) ≡ is_text_list o
  unfolding required_items canonical_allowlist_items
  required_items_accepts none e = refl
  required_items_accepts (some null) e = refl
  required_items_accepts (some (bool b)) e = refl
  required_items_accepts (some (num n)) e = refl
  required_items_accepts (some (str s)) e = refl
  required_items_accepts (some (arr items)) e = accepted-items items
  required_items_accepts (some (obj fs)) e = refl

  -- A mapping is accepted as an allowlist exactly when its version is the integer 1, it has no
  -- other key than the two of the schema, and the list is there, with texts alone, none blank.
  pub validate_command_allowlist_state_accepts :
      (document : Fields)
      → accepted (validate_command_allowlist_state strip (obj document)) ≡ (
          is_version_one (get_or "version" null document)
          && (all
                (λ key. contains key ("version" ∷ "command_allowlist" ∷ []))
                (field_names document)
              && is_text_list (get "command_allowlist" document)))
  unfolding validate_command_allowlist_state validate_allowlist_fields reject_unknown_keys
  validate_command_allowlist_state_accepts document =
      accepted-guard (is_version_one (get_or "version" null document)) _ _
      ∙ ap (λ (b : Bool). is_version_one (get_or "version" null document) && b)
          (accepted-guard
              (all (λ key. contains key ("version" ∷ "command_allowlist" ∷ []))
                (field_names document))
              _ _
            ∙ ap
                (λ (b : Bool).
                  all (λ key. contains key ("version" ∷ "command_allowlist" ∷ []))
                    (field_names document)
                  && b)
                (required_items_accepts (get "command_allowlist" document) _))

  -- Let `loads` undo `dumps` at an allowlist's document and let the dumped text not be blank. A
  -- sorted allowlist with no text twice and none blank is read back as it was from its serialized
  -- text.
  pub command_allowlist_round_trip :
      (dumps : Json → String) (loads : String → Option Json)
      → (xs : List String) (text : String)
      → loads (dumps (allowlist_document xs)) ≡ some (allowlist_document xs)
      → str_eq (strip (dumps (allowlist_document xs))) "" ≡ false
      → is_allowed_list strip xs ≡ true
      → serialize_command_allowlist_state strip dumps (allowlist_document xs) ≡ ok text
      → validate_command_allowlist_state_from_text strip loads text ≡ ok xs
  unfolding serialize_command_allowlist_state validate_command_allowlist_state_from_text
  command_allowlist_round_trip dumps loads xs text inverse shown a written =
      let valid : validate_command_allowlist_state strip (allowlist_document xs) ≡ ok xs =
        document_accepted xs a in
      let is_text : text ≡ dumps (allowlist_document xs) = ground (arith, valid) in
      rw (is_text, shown, inverse) valid
