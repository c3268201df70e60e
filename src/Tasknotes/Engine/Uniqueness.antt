-- ===== src/Tasknotes/Engine/Uniqueness.antt =====
-- What the checks of the plugin's lists refuse: choices and user fields that are there twice
-- (`_validate_statuses`, `_validate_priorities` and `_validate_user_fields` of
-- scripts/tasknotes_mcp_core.py).
use josemar_assistente.Base.{
  String, Bool, true, false, not, Option, none, some, List, [], ◌∷◌, ◌≡◌, refl, sym, ap, ◌∙◌, any,
  map, keep_if, contains, distinct, str_eq, eq_iff, arith,
}
use mathlib.Core.Path.{subst}
use josemar_assistente.Base.Fields.{get}
use josemar_assistente.Base.Json.{Json, null, bool, num, str, arr, obj, Items, nil, cons, Fields}
use josemar_assistente.Base.Result.{Result, ok, >>=-ok}
use josemar_assistente.Tasknotes.Engine.Effects.{EngineError}
use josemar_assistente.Tasknotes.Engine.Services.{UserField}
use josemar_assistente.Tasknotes.Engine.Profile.{
  incompatible, required_text, items_in, fields_of, Choice, status_of, priority_of, choices_of,
  values_of, unique_choices, sole_completed, Statuses, validate_statuses, validate_priorities,
  reserved_frontmatter_keys, options_of, user_field_types, check_label, user_field_of,
  user_fields_of, validate_user_fields,
}
use josemar_assistente.Tasknotes.Engine.Loaded.{incompatible-ok, ok-same, not-false, str_eq-sym}

-- The choices that a document gives under a key, read by `read`: no id and no value is there twice.
abbrev pub Choices :
    (Json → Result EngineError Choice) → String → Option Json → List Choice → Type 0
Choices read message given choices =
    ((items : Items) × (items_in message given ≡ ok items) × (choices_of read items ≡ ok choices))
    × (distinct (map (λ c. c.id) choices) ≡ true)
    × (distinct (values_of choices) ≡ true)

unique_choices-ok :
    (choices : List Choice) {u : Unit {0}}
    → unique_choices choices ≡ ok u
    → (distinct (map (λ c. c.id) choices) ≡ true) × (distinct (values_of choices) ≡ true)
unfolding unique_choices
unique_choices-ok choices {u} e =
    let ids = >>=-ok (incompatible (not (distinct (map (λ c. c.id) choices))) _) _ u e in
    (not-false _ (incompatible-ok _ _ ids.1), not-false _ (incompatible-ok _ _ ids.2))

sole_completed-ok :
    (choices : List Choice) (out : String)
    → sole_completed choices ≡ ok out
    → values_of choices ≡ out ∷ []
sole_completed-ok [] out e = grind arith
sole_completed-ok (c ∷ []) out e = ap (λ v. v ∷ []) (ok-same c.value out e)
sole_completed-ok (c ∷ d ∷ cs) out e = grind arith

-- The statuses are the values of the document's choices, all different, and exactly one choice is
-- marked as completed: that of the completed status.
abbrev pub SoundStatuses : Option Json → List String → String → Type 0
SoundStatuses given statuses completed =
    (choices : List Choice) × Choices status_of "customStatuses must be a non-empty list" given
      choices
    × (statuses ≡ values_of choices)
    × (values_of (keep_if (λ c. c.is_completed) choices) ≡ completed ∷ [])

pub validate_statuses-SoundStatuses :
    (given : Option Json) (out : Statuses)
    → validate_statuses given ≡ ok out
    → SoundStatuses given out.values out.completed
unfolding validate_statuses
validate_statuses-SoundStatuses given out e =
    let items = >>=-ok (items_in _ given) _ out e in
    let choices = >>=-ok (choices_of status_of items.0) _ out items.2 in
    let unique = >>=-ok (unique_choices choices.0) _ out choices.2 in
    let completed =
      >>=-ok (sole_completed (keep_if (λ c. c.is_completed) choices.0)) _ out unique.2 in
    let apart = unique_choices-ok choices.0 unique.1 in
    let same = ok-same _ out completed.2 in
    (
      choices.0,
      ((items.0, items.1, choices.1), apart.0, apart.1),
      sym (ap (λ s. s.values) same),
      sole_completed-ok _ completed.0 completed.1 ∙ ap (λ s. s.completed ∷ []) same,
    )

-- The priorities are the values of the document's choices, all different.
abbrev pub SoundPriorities : Option Json → List String → Type 0
SoundPriorities given priorities =
    (choices : List Choice) × Choices priority_of "customPriorities must be a non-empty list" given
      choices
    × (priorities ≡ values_of choices)

pub validate_priorities-SoundPriorities :
    (given : Option Json) (out : List String)
    → validate_priorities given ≡ ok out
    → SoundPriorities given out
unfolding validate_priorities
validate_priorities-SoundPriorities given out e =
    let items = >>=-ok (items_in _ given) _ out e in
    let choices = >>=-ok (choices_of priority_of items.0) _ out items.2 in
    let unique = >>=-ok (unique_choices choices.0) _ out choices.2 in
    let apart = unique_choices-ok choices.0 unique.1 in
    (choices.0, ((items.0, items.1, choices.1), apart.0, apart.1), sym (ok-same _ out unique.2))

-- No text of the second list is in the first.
abbrev apart_from : List String → List String → Bool
apart_from seen xs = not (any (λ x. contains x seen) xs)

-- No user field has the key or the id of another, none has a reserved key, and the kinds are known.
abbrev pub SoundFields : List UserField → Type 0
SoundFields fields =
    (distinct (map (λ uf. uf.key) fields) ≡ true)
    × (distinct (map (λ uf. uf.id) fields) ≡ true)
    × (any (λ uf. contains uf.key reserved_frontmatter_keys) fields ≡ false)
    × (any (λ uf. not (contains uf.kind user_field_types)) fields ≡ false)

apart-cons :
    (x : String) (seen xs : List String)
    → apart_from (x ∷ seen) xs ≡ true
    → (contains x xs ≡ false) × (apart_from seen xs ≡ true)
apart-cons x seen [] h = (refl, refl)
apart-cons x seen (y ∷ ys) h =
    ground (arith, apart-cons x seen ys, str_eq-sym x y, eq_iff x y, eq_iff y x)

distinct-cons :
    (x : String) (xs : List String)
    → contains x xs ≡ false
    → distinct xs ≡ true
    → distinct (x ∷ xs) ≡ true
distinct-cons x xs n d = ground arith

apart-first :
    (x : String) (seen xs : List String)
    → contains x seen ≡ false
    → apart_from seen xs ≡ true
    → apart_from seen (x ∷ xs) ≡ true
apart-first x seen xs n d = ground arith

any-cons :
    {A : Type 0} (bad : A → Bool) (x : A) (xs : List A)
    → bad x ≡ false
    → any bad xs ≡ false
    → any bad (x ∷ xs) ≡ false
any-cons bad x xs h hs = ground arith

-- What the reading of one field checks
user_field_of-ok :
    (keys ids : List String) (entry : Fields) (out : UserField)
    → user_field_of keys ids entry ≡ ok out
    → (contains out.key keys ≡ false)
      × (contains out.id ids ≡ false)
      × (contains out.key reserved_frontmatter_keys ≡ false)
      × (not (contains out.kind user_field_types) ≡ false)
unfolding user_field_of
user_field_of-ok keys ids entry out e =
    let id = >>=-ok (required_text _ (get "id" entry)) _ out e in
    let name = >>=-ok (required_text _ (get "key" entry)) _ out id.2 in
    let kind = >>=-ok (required_text _ (get "type" entry)) _ out name.2 in
    let known = >>=-ok (incompatible (not (contains kind.0 user_field_types)) _) _ out kind.2 in
    let label = >>=-ok (check_label (get "label" entry)) _ out known.2 in
    let options = >>=-ok (options_of (str_eq kind.0 "enum") (get "options" entry)) _ out label.2 in
    let new_key = >>=-ok (incompatible (contains name.0 keys) _) _ out options.2 in
    let new_id = >>=-ok (incompatible (contains id.0 ids) _) _ out new_key.2 in
    let open_key =
      >>=-ok (incompatible (contains name.0 reserved_frontmatter_keys) _) _ out new_id.2 in
    subst
      (λ uf.
        (contains uf.key keys ≡ false)
        × (contains uf.id ids ≡ false)
        × (contains uf.key reserved_frontmatter_keys ≡ false)
        × (not (contains uf.kind user_field_types) ≡ false))
      (ok-same _ out open_key.2)
      (
        incompatible-ok _ _ new_key.1,
        incompatible-ok _ _ new_id.1,
        incompatible-ok _ _ open_key.1,
        incompatible-ok _ _ known.1,
      )

user_fields_of-ok :
    (keys ids : List String) (items : Items) (out : List UserField)
    → user_fields_of keys ids items ≡ ok out
    → (apart_from keys (map (λ uf. uf.key) out) ≡ true)
      × (apart_from ids (map (λ uf. uf.id) out) ≡ true)
      × SoundFields out
unfolding user_fields_of
user_fields_of-ok keys ids nil out e =
    subst
      (λ ufs.
        (apart_from keys (map (λ uf. uf.key) ufs) ≡ true)
        × (apart_from ids (map (λ uf. uf.id) ufs) ≡ true)
        × SoundFields ufs)
      (ok-same [] out e) (refl, refl, (refl, refl, refl, refl))
user_fields_of-ok keys ids (cons item items) out e =
    let entry = >>=-ok (fields_of _ item) _ out e in
    let read = >>=-ok (user_field_of keys ids entry.0) _ out entry.2 in
    let rest = >>=-ok (user_fields_of (read.0.key ∷ keys) (read.0.id ∷ ids) items) _ out read.2 in
    let (own_key, own_id, open_key, known) = user_field_of-ok keys ids entry.0 read.0 read.1 in
    let (later_keys, later_ids, sound) =
      user_fields_of-ok (read.0.key ∷ keys) (read.0.id ∷ ids) items rest.0 rest.1 in
    let (apart_keys, apart_ids, open_keys, known_kinds) = sound in
    let (new_key, old_keys) = apart-cons read.0.key keys _ later_keys in
    let (new_id, old_ids) = apart-cons read.0.id ids _ later_ids in
    subst
      (λ ufs.
        (apart_from keys (map (λ uf. uf.key) ufs) ≡ true)
        × (apart_from ids (map (λ uf. uf.id) ufs) ≡ true)
        × SoundFields ufs)
      (ok-same (read.0 ∷ rest.0) out rest.2)
      (
        apart-first read.0.key keys _ own_key old_keys,
        apart-first read.0.id ids _ own_id old_ids,
        (
          distinct-cons read.0.key _ new_key apart_keys,
          distinct-cons read.0.id _ new_id apart_ids,
          any-cons (λ uf. contains uf.key reserved_frontmatter_keys) read.0 rest.0 open_key
              open_keys,
          any-cons (λ uf. not (contains uf.kind user_field_types)) read.0 rest.0 known known_kinds,
        ),
      )

pub validate_user_fields-SoundFields :
    (given : Option Json) (out : List UserField)
    → validate_user_fields given ≡ ok out
    → SoundFields out
unfolding validate_user_fields
validate_user_fields-SoundFields none out e =
    subst SoundFields (ok-same [] out e) (refl, refl, refl, refl)
validate_user_fields-SoundFields (some null) out e =
    subst SoundFields (ok-same [] out e) (refl, refl, refl, refl)
validate_user_fields-SoundFields (some (arr items)) out e =
    let (k, i, sound) = user_fields_of-ok [] [] items out e in sound
validate_user_fields-SoundFields (some (bool b)) out e = grind arith
validate_user_fields-SoundFields (some (num n)) out e = grind arith
validate_user_fields-SoundFields (some (str s)) out e = grind arith
validate_user_fields-SoundFields (some (obj fs)) out e = grind arith
