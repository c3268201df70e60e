-- ===== src/Tasknotes/Engine/Distinct.antt =====
-- What the checks of the mapped properties refuse: a property that is reserved, or that two fields
-- share (`_validate_mappings` of scripts/tasknotes_mcp_core.py).
use josemar_assistente.Base.{
  String, Bool, true, false, not, ◌&&◌, ◌||◌, Option, some, List, [], ◌∷◌, ◌≡◌, refl, sym, ap, ◌∙◌,
  any, map, contains, distinct, str_eq, eq_iff, arith,
}
use josemar_assistente.Base.Dict.{Dict, lookup, insert}
use josemar_assistente.Base.Fields.{get}
use josemar_assistente.Base.Json.{Json, Fields}
use josemar_assistente.Base.Result.{ok, >>=-ok}
use josemar_assistente.Tasknotes.Engine.Profile.{
  incompatible, required_text, or_null, fields_of, required_mappings, read_mappings, check_reserved,
  reserved_frontmatter_keys, with_recurrence, validate_tag, validate_mappings,
}
use josemar_assistente.Tasknotes.Engine.Loaded.{
  incompatible-ok, ok-same, not-false, str_eq-sym, lookup-accepted,
}

-- Each required field has a property; no two have the same, none has a reserved one, and none but
-- the title has `title`.
abbrev pub SoundMappings : Dict String → Type 0
SoundMappings mappings =
    (required : Dict String) × (map (λ m. m.0) required ≡ required_mappings)
    × (map (λ m. lookup m.0 mappings) required ≡ map (λ m. some m.1) required)
    × (distinct (map (λ m. m.1) required) ≡ true)
    × (any (λ m. contains m.1 reserved_frontmatter_keys) required ≡ false)
    × (any (λ m. str_eq m.1 "title" && not (str_eq m.0 "title")) required ≡ false)

keys-read_mappings :
    (logicals : List String) (value : Fields) (out : Dict String)
    → read_mappings logicals value ≡ ok out
    → map (λ m. m.0) out ≡ logicals
unfolding read_mappings
keys-read_mappings [] value out e = sym (ap (map (λ m. m.0)) (ok-same [] out e))
keys-read_mappings (logical ∷ logicals) value out e =
    let read = >>=-ok (required_text _ (get logical value)) _ out e in
    let later = >>=-ok (read_mappings logicals value) _ out read.2 in
    sym (ap (map (λ m. m.0)) (ok-same ((logical, read.0) ∷ later.0) out later.2))
    ∙ ap (λ keys. logical ∷ keys) (keys-read_mappings logicals value later.0 later.1)

check_reserved-ok :
    (mappings : Dict String) {u : Unit {0}}
    → check_reserved mappings ≡ ok u
    → (any (λ m. contains m.1 reserved_frontmatter_keys) mappings ≡ false)
      × (any (λ m. str_eq m.1 "title" && not (str_eq m.0 "title")) mappings ≡ false)
unfolding check_reserved
check_reserved-ok [] e = (refl, refl)
check_reserved-ok ((logical, prop) ∷ rest) {u} e =
    let open_key = >>=-ok (incompatible (contains prop reserved_frontmatter_keys) _) _ u e in
    let titled =
      >>=-ok (incompatible (str_eq prop "title" && not (str_eq logical "title")) _) _ u
        open_key.2 in
    let (open_keys, titles) = check_reserved-ok rest titled.2 in
    (
      ap (λ b. b || any (λ m. contains m.1 reserved_frontmatter_keys) rest)
            (incompatible-ok _ _ open_key.1)
          ∙ open_keys,
      ap (λ b. b || any (λ m. str_eq m.1 "title" && not (str_eq m.0 "title")) rest)
            (incompatible-ok _ _ titled.1)
          ∙ titles,
    )

cons-same : {A : Type 0} (x y : A) (xs ys : List A) → x ≡ y → xs ≡ ys → x ∷ xs ≡ y ∷ ys
cons-same x y xs ys p q = cc

-- An entry whose key no entry of the list has is not found by them.
lookups-skip :
    (k v : String) (all_of ms : Dict String)
    → contains k (map (λ m. m.0) ms) ≡ false
    → map (λ m. lookup m.0 ((k, v) ∷ all_of)) ms ≡ map (λ m. lookup m.0 all_of) ms
unfolding lookup
lookups-skip k v all_of [] h = refl
lookups-skip k v all_of (m ∷ ms) h =
    cons-same _ _ _ _ (ground (arith, str_eq-sym m.0 k)) (lookups-skip k v all_of ms (ground arith))

-- Every entry finds its own property.
lookups-own :
    (ms : Dict String)
    → distinct (map (λ m. m.0) ms) ≡ true
    → map (λ m. lookup m.0 ms) ms ≡ map (λ m. some m.1) ms
unfolding lookup
lookups-own [] d = refl
lookups-own ((k, v) ∷ ms) d =
    cons-same _ _ _ _ (ground (arith, eq_iff k k))
      (lookups-skip k v ms ms (ground arith) ∙ lookups-own ms (ground arith))

-- The archive tag and the recurrence touch no other field.
lookups-accepted :
    (archive_tag : String) (given : Option Json) (mappings ms : Dict String)
    → contains "recurrence" (map (λ m. m.0) ms) ≡ false
    → contains "archiveTag" (map (λ m. m.0) ms) ≡ false
    → map (λ m. lookup m.0 (with_recurrence given (insert "archiveTag" archive_tag mappings))) ms
      ≡ map (λ m. lookup m.0 mappings) ms
lookups-accepted archive_tag given mappings [] h g = refl
lookups-accepted archive_tag given mappings (m ∷ ms) h g =
    cons-same _ _ _ _
      (lookup-accepted m.0 archive_tag given mappings (str_eq-sym _ _ (ground arith))
        (str_eq-sym _ _ (ground arith)))
      (lookups-accepted archive_tag given mappings ms (ground arith) (ground arith))

pub validate_mappings-SoundMappings :
    (is_tag : String → Bool) (given : Option Json) (mappings : Dict String)
    → validate_mappings is_tag given ≡ ok mappings
    → SoundMappings mappings
unfolding validate_mappings
validate_mappings-SoundMappings is_tag given out e =
    let value = >>=-ok (fields_of _ (or_null given)) _ out e in
    let read = >>=-ok (read_mappings required_mappings value.0) _ out value.2 in
    let unique = >>=-ok (incompatible (not (distinct (map (λ m. m.1) read.0))) _) _ out read.2 in
    let reserved = >>=-ok (check_reserved read.0) _ out unique.2 in
    let tag = >>=-ok (validate_tag is_tag _ (get "archiveTag" value.0)) _ out reserved.2 in
    let keys = keys-read_mappings required_mappings value.0 read.0 read.1 in
    let checked = check_reserved-ok read.0 reserved.1 in
    (
      read.0,
      keys,
      ap (λ ms. map (λ m. lookup m.0 ms) read.0) (sym (ok-same _ out tag.2))
          ∙ lookups-accepted tag.0 (get "recurrence" value.0) read.0 read.0
              (ap (contains "recurrence") keys) (ap (contains "archiveTag") keys)
          ∙ lookups-own read.0 (ap distinct keys),
      not-false _ (incompatible-ok _ _ unique.1),
      checked.0,
      checked.1,
    )
