-- ===== src/Tasknotes/Engine/Checked.antt =====
-- What an accepted argument is (`validate_tags`, `validate_projects` and `validate_custom_fields` of
-- scripts/tasknotes_mcp_core.py).
use josemar_assistente.Base.{
  ℕ, String, Bool, true, false, ◌||◌, Option, none, some, List, [], ◌∷◌, ◌++◌, ◌≡◌, ◌≤◌, refl, sym,
  ap, ◌∙◌, length, contains, contains-append_one, distinct, distinct-append_one, All, ltb, str_eq,
  eq_iff, Bool-cases, inl, inr, if◌then◌else◌, arith,
}
use mathlib.Core.Path.{subst, subst₂}
use josemar_assistente.Base.Json.{Json, Fields, end, field}
use josemar_assistente.Base.Fields.{get, put, get-put}
use josemar_assistente.Base.Result.{Result, ok, >>=-ok}
use josemar_assistente.Tasknotes.Engine.Effects.{EngineError}
use josemar_assistente.Tasknotes.Engine.Services.{UserField, TaskNotesProfile, Texts}
use josemar_assistente.Tasknotes.Engine.Validate.{
  planned_week_key, refuse, field_named, unique_checked, check_tag, validate_tags, check_field,
  custom_fields_checked, validate_custom_fields,
}

-- What is refused when a test holds, does not hold.
refuse-ok : (bad : Bool) (message : String) {u : Unit {0}} → refuse bad message ≡ ok u → bad ≡ false
refuse-ok true message e = grind arith
refuse-ok false message e = refl

-- The list with the next text, where that is new
abbrev with_next : String → List String → List String
with_next x out = if contains x out then out else out ++ x ∷ []

contains-with_next :
    (x : String) (out : List String) (y : String)
    → contains y (with_next x out) ≡ (contains y out || str_eq x y)
contains-with_next x out y = ground (arith, contains-append_one y x out, eq_iff x y)

distinct-with_next :
    (x : String) (out : List String) → distinct out ≡ true → distinct (with_next x out) ≡ true
distinct-with_next x out d = ground (arith, distinct-append_one x out d)

or_false : (b : Bool) → b ≡ (b || false)
or_false true = refl
or_false false = refl

or_assoc : (a b c : Bool) → ((a || b) || c) ≡ (a || (b || c))
or_assoc true b c = refl
or_assoc false b c = refl

module _ (check : String → Result EngineError (Unit {0})) where
  -- Each text passes the check.
  abbrev pub Passes : String → Type 0
  Passes x = check x ≡ ok tt

  unique_checked-exact :
      (xs out result : List String)
      → unique_checked check out xs ≡ ok result
      → distinct out ≡ true
      → (distinct result ≡ true)
        × All Passes xs
        × ((y : String) → contains y result ≡ (contains y out || contains y xs))
  unfolding unique_checked
  unique_checked-exact [] out result e d =
      let same : out ≡ result = grind arith in
      (sym (ap distinct same) ∙ d, tt, λ y. ap (contains y) (sym same) ∙ or_false (contains y out))
  unique_checked-exact (x ∷ xs) out result e d =
      let parts = >>=-ok (check x) (λ u. unique_checked check (with_next x out) xs) result e in
      let rest =
        unique_checked-exact xs (with_next x out) result parts.2 (distinct-with_next x out d) in
      (
        rest.0,
        (parts.1, rest.1),
        λ y.
            rest.2 y
            ∙ ap (λ b. b || contains y xs) (contains-with_next x out y)
            ∙ or_assoc (contains y out) (str_eq x y) (contains y xs),
      )

module _ (texts : Texts) where
  -- Where `validate_tags` accepts a list, there are at most 50 tags in it, each has passed the check
  -- of one tag, and the answer has the same tags, none of them twice and the archive tag not among
  -- them.
  pub validate_tags-exact :
      (profile : TaskNotesProfile) (value out : List String)
      → validate_tags texts profile value ≡ ok out
      → (length value ≤ 50)
        × All (Passes (check_tag texts)) value
        × (distinct out ≡ true)
        × (contains profile.archive_tag out ≡ false)
        × ((tag : String) → contains tag out ≡ contains tag value)
  unfolding validate_tags
  validate_tags-exact profile value out e =
      let counted = >>=-ok (refuse (ltb 50 (length value)) _) _ out e in
      let walked = >>=-ok (unique_checked (check_tag texts) [] value) _ out counted.2 in
      let tested = >>=-ok (refuse (contains profile.archive_tag walked.0) _) _ out walked.2 in
      let exact = unique_checked-exact (check_tag texts) value [] walked.0 walked.1 refl in
      let same : walked.0 ≡ out = grind arith in
      (
        bounded (length value) (refuse-ok _ _ counted.1),
        exact.1,
        sym (ap distinct same) ∙ exact.0,
        sym (ap (contains profile.archive_tag) same) ∙ refuse-ok _ _ tested.1,
        λ tag. sym (ap (contains tag) same) ∙ exact.2 tag,
      )
    where
      bounded : (n : ℕ) → ltb 50 n ≡ false → n ≤ 50
      bounded n h = ground arith

  -- What an accepted custom field is
  abbrev pub Defined : List UserField → String → Json → Type 0
  Defined ufs name value =
      (str_eq name planned_week_key ≡ false)
      × (check_field texts (field_named name ufs) value ≡ ok tt)

  AllDefined : List UserField → Fields → Type 0
  AllDefined ufs out =
      (name : String) (value : Json) → get name out ≡ some value → Defined ufs name value

  put-AllDefined :
      (ufs : List UserField) (name : String) (value : Json) (out : Fields)
      → Defined ufs name value
      → AllDefined ufs out
      → AllDefined ufs (put name value out)
  unfolding AllDefined
  put-AllDefined ufs name value out new old other found e = elim (Bool-cases (str_eq name other)) [
    | inl b ↦
        let names : name ≡ other = (eq_iff name other).0 b in
        let found_there =
          sym (get-put name other value out ∙ ap (λ c. if c then some value else get other out) b)
          ∙ e in
        let values : value ≡ found = grind arith in subst₂ (λ n v. Defined ufs n v) names values new
    | inr b ↦ old other found (
        sym (get-put name other value out ∙ ap (λ c. if c then some value else get other out) b)
        ∙ e)
  ]

  no_field : (ufs : List UserField) → AllDefined ufs end
  unfolding AllDefined get
  no_field ufs name value e = grind arith

  custom_fields_checked-AllDefined :
      (ufs : List UserField) (fields out result : Fields)
      → custom_fields_checked texts ufs out fields ≡ ok result
      → AllDefined ufs out
      → AllDefined ufs result
  unfolding custom_fields_checked
  custom_fields_checked-AllDefined ufs end out result e h =
      let same : out ≡ result = grind arith in subst (λ fs. AllDefined ufs fs) same h
  custom_fields_checked-AllDefined ufs (field name value rest) out result e h =
      let named = >>=-ok (refuse (str_eq name "") _) _ result e in
      let open_key = >>=-ok (refuse (str_eq name planned_week_key) _) _ result named.2 in
      let checked = >>=-ok (check_field texts (field_named name ufs) value) _ result open_key.2 in
      custom_fields_checked-AllDefined ufs rest (put name value out) result checked.2
        (put-AllDefined ufs name value out (refuse-ok _ _ open_key.1, checked.1) h)

  -- Where `validate_custom_fields` accepts the fields, each field of the answer has passed the check
  -- of the field that the profile defines under its key, and no key is that of the planned week.
  pub validate_custom_fields-Defined :
      (profile : TaskNotesProfile) (given : Option Fields) (out : Fields)
      → validate_custom_fields texts profile given ≡ ok out
      → (name : String) (value : Json) → get name out ≡ some value
      → Defined profile.user_fields name value
  unfolding validate_custom_fields AllDefined get
  validate_custom_fields-Defined profile none out e name value found =
      let same : end ≡ out = grind arith in
      let absent : get name out ≡ none = sym (ap (get name) same) in grind arith
  validate_custom_fields-Defined profile (some fields) out e name value found =
      custom_fields_checked-AllDefined profile.user_fields fields end out e
        (no_field profile.user_fields) name value found
