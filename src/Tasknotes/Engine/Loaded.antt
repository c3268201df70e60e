-- ===== src/Tasknotes/Engine/Loaded.antt =====
-- What an accepted profile promises to the rewriting of a note (`_validate_mappings`, `load_profile`
-- and `reconstruct_markdown` of scripts/tasknotes_mcp_core.py).
use josemar_assistente.Base.{
  String, Bool, true, false, not, ◌&&◌, ◌||◌, Option, none, some, List, [], ◌∷◌, ◌≡◌, refl, sym, ap,
  ◌∙◌, inl, inr, Bool-cases, map, contains, distinct, str_eq, eq_iff, if◌then◌else◌, arith,
}
use mathlib.Core.Path.{subst₂}
use josemar_assistente.Base.Dict.{Dict, lookup, insert, lookup-insert}
use josemar_assistente.Base.Json.{Json, null, bool, num, str, arr, obj, Fields}
use josemar_assistente.Base.Fields.{get, has_key}
use josemar_assistente.Base.Result.{Result, ok, >>=-ok}
use josemar_assistente.Tasknotes.Engine.Effects.{EngineError}
use josemar_assistente.Tasknotes.Engine.Services.{TaskNotesProfile}
use josemar_assistente.Tasknotes.Engine.Validate.{planned_week_key}
use josemar_assistente.Tasknotes.Engine.Page.{Page, mapped, or_empty, rewrite_frontmatter}
use josemar_assistente.Tasknotes.Engine.Profile.{
  incompatible, required_text, or_null, fields_of, required_mappings, read_mappings, check_reserved,
  reserved_frontmatter_keys, with_recurrence, validate_tag, validate_mappings,
}
use josemar_assistente.Tasknotes.Engine.Planning.{rewrite_frontmatter-exclusive}

pub incompatible-ok :
    (bad : Bool) (message : String) {u : Unit {0}} → incompatible bad message ≡ ok u → bad ≡ false
incompatible-ok true message e = grind arith
incompatible-ok false message e = refl

pub ok-same : {A : Type 0} (x y : A) → ◌≡◌ {A = Result EngineError A} (ok x) (ok y) → x ≡ y
ok-same x y e = grind arith

some-same : {A : Type 0} (x y : A) → some x ≡ some y → x ≡ y
some-same x y e = grind arith

-- A key that is read is in the dictionary.
lookup-read_mappings :
    (name : String) (logicals : List String) (value : Fields) (out : Dict String)
    → read_mappings logicals value ≡ ok out
    → contains name logicals ≡ true
    → (prop : String) × (lookup name out ≡ some prop)
unfolding read_mappings lookup
lookup-read_mappings name [] value out e h = grind arith
lookup-read_mappings name (logical ∷ logicals) value out e h =
    let read = >>=-ok (required_text _ (get logical value)) _ out e in
    let later = >>=-ok (read_mappings logicals value) _ out read.2 in
    let same = ok-same _ out later.2 in
    let met : Bool → Option String = λ c. if c then some read.0 else lookup name later.0 in
    elim (Bool-cases (str_eq logical name)) [
      | inl b ↦ (read.0, ap (lookup name) (sym same) ∙ ap met b)
      | inr b ↦
          let rest =
            lookup-read_mappings name logicals value later.0 later.1
              (sym (ap (λ c. c || contains name logicals) b) ∙ h) in
          (rest.0, ap (lookup name) (sym same) ∙ ap met b ∙ rest.1)
    ]

-- A property that has passed the check is not reserved, and it is `title` only for the title.
check_reserved-lookup :
    (name prop : String) (mappings : Dict String) {u : Unit {0}}
    → check_reserved mappings ≡ ok u
    → lookup name mappings ≡ some prop
    → (contains prop reserved_frontmatter_keys ≡ false)
      × ((str_eq prop "title" && not (str_eq name "title")) ≡ false)
unfolding check_reserved lookup
check_reserved-lookup name prop [] e h = grind arith
check_reserved-lookup name prop ((logical, found) ∷ rest) {u} e h =
    let open_key = >>=-ok (incompatible (contains found reserved_frontmatter_keys) _) _ u e in
    let titled =
      >>=-ok (incompatible (str_eq found "title" && not (str_eq logical "title")) _) _ u
        open_key.2 in
    let met : Bool → Option String = λ c. if c then some found else lookup name rest in
    elim (Bool-cases (str_eq logical name)) [
      | inl b ↦
          let props : found ≡ prop = some-same found prop (sym (ap met b) ∙ h) in
          subst₂
            (λ n p.
              (contains p reserved_frontmatter_keys ≡ false)
              × ((str_eq p "title" && not (str_eq n "title")) ≡ false))
            ((eq_iff logical name).0 b) props
            (incompatible-ok _ _ open_key.1, incompatible-ok _ _ titled.1)
      | inr b ↦ check_reserved-lookup name prop rest titled.2 (sym (ap met b) ∙ h)
    ]

-- A property that stands in the dictionary is among its values.
contains-lookup :
    (name prop : String) (mappings : Dict String)
    → lookup name mappings ≡ some prop
    → contains prop (map (λ m. m.1) mappings) ≡ true
unfolding lookup
contains-lookup name prop [] h = grind arith
contains-lookup name prop (entry ∷ rest) h =
    ground (arith, contains-lookup name prop rest, eq_iff entry.1 prop)

-- Two keys of a dictionary with different values have different values.
distinct-lookup :
    (a b p q : String) (mappings : Dict String)
    → distinct (map (λ m. m.1) mappings) ≡ true
    → str_eq a b ≡ false
    → lookup a mappings ≡ some p
    → lookup b mappings ≡ some q
    → str_eq p q ≡ false
unfolding lookup
distinct-lookup a b p q [] d n ha hb = grind arith
distinct-lookup a b p q (entry ∷ rest) d n ha hb = ground (
  arith,
  distinct-lookup a b p q rest,
  contains-lookup a p rest,
  contains-lookup b q rest,
  eq_iff entry.0 a,
  eq_iff entry.0 b,
  eq_iff a b,
  eq_iff p q,
  eq_iff entry.1 p,
  eq_iff entry.1 q,
)

-- The property of a field that the rest of the dictionary does not touch
lookup-with_recurrence :
    (name : String) (given : Option Json) (mappings : Dict String)
    → str_eq "recurrence" name ≡ false
    → lookup name (with_recurrence given mappings) ≡ lookup name mappings
unfolding with_recurrence
lookup-with_recurrence name none mappings e = refl
lookup-with_recurrence name (some (str s)) mappings e =
    ground (arith, lookup-insert "recurrence" name s mappings)
lookup-with_recurrence name (some null) mappings e = refl
lookup-with_recurrence name (some (bool b)) mappings e = refl
lookup-with_recurrence name (some (num n)) mappings e = refl
lookup-with_recurrence name (some (arr items)) mappings e = refl
lookup-with_recurrence name (some (obj fs)) mappings e = refl

pub lookup-accepted :
    (name archive_tag : String) (given : Option Json) (mappings : Dict String)
    → str_eq "recurrence" name ≡ false
    → str_eq "archiveTag" name ≡ false
    → lookup name (with_recurrence given (insert "archiveTag" archive_tag mappings))
      ≡ lookup name mappings
lookup-accepted name archive_tag given mappings e f =
    lookup-with_recurrence name given _ e
    ∙ lookup-insert "archiveTag" name archive_tag mappings
    ∙ ap (λ c. if c then some archive_tag else lookup name mappings) f

first_false : (a b : Bool) → (a || b) ≡ false → a ≡ false
first_false true b e = e
first_false false b e = refl

rest_false : (a b : Bool) → (a || b) ≡ false → b ≡ false
rest_false true b e = grind arith
rest_false false b e = e

pub str_eq-sym : (a b : String) → str_eq a b ≡ false → str_eq b a ≡ false
str_eq-sym a b e = ground (arith, eq_iff a b, eq_iff b a)

and_true : (b : Bool) → (b && true) ≡ false → b ≡ false
and_true true e = e
and_true false e = e

pub not-false : (b : Bool) → not b ≡ false → b ≡ true
not-false true e = refl
not-false false e = grind arith

-- What an accepted dictionary of properties promises of the scheduled day and the title
pub validate_mappings-apart :
    (is_tag : String → Bool) (given : Option Json) (mappings : Dict String)
    → validate_mappings is_tag given ≡ ok mappings
    → (scheduled : String) × (title : String) × (lookup "scheduled" mappings ≡ some scheduled)
      × (lookup "title" mappings ≡ some title)
      × (contains scheduled reserved_frontmatter_keys ≡ false)
      × (str_eq scheduled "title" ≡ false)
      × (str_eq title scheduled ≡ false)
unfolding validate_mappings
validate_mappings-apart is_tag given out e =
    let value = >>=-ok (fields_of _ (or_null given)) _ out e in
    let read = >>=-ok (read_mappings required_mappings value.0) _ out value.2 in
    let unique = >>=-ok (incompatible (not (distinct (map (λ m. m.1) read.0))) _) _ out read.2 in
    let reserved = >>=-ok (check_reserved read.0) _ out unique.2 in
    let tag = >>=-ok (validate_tag is_tag _ (get "archiveTag" value.0)) _ out reserved.2 in
    let same = ok-same _ out tag.2 in
    let day = lookup-read_mappings "scheduled" required_mappings value.0 read.0 read.1 refl in
    let title = lookup-read_mappings "title" required_mappings value.0 read.0 read.1 refl in
    let free = check_reserved-lookup "scheduled" day.0 read.0 reserved.1 day.1 in
    (
      day.0,
      title.0,
      ap (lookup "scheduled") (sym same)
          ∙ lookup-accepted "scheduled" tag.0 (get "recurrence" value.0) read.0 refl refl
          ∙ day.1,
      ap (lookup "title") (sym same)
          ∙ lookup-accepted "title" tag.0 (get "recurrence" value.0) read.0 refl refl
          ∙ title.1,
      free.0,
      and_true _ free.1,
      distinct-lookup "title" "scheduled" title.0 day.0 read.0
          (not-false _ (incompatible-ok _ _ unique.1)) refl title.1 day.1,
    )

-- In a note that is rewritten under an accepted dictionary of properties, the planned week and the
-- scheduled day never stand together, whatever the page held and whatever the updates are, unless the
-- property of the title is that of the planned week.
pub rewrite_frontmatter-plans :
    (is_tag : String → Bool) (given : Option Json) (denormalize : String → String)
    (ends_line : String → Bool) (profile : TaskNotesProfile) (page : Page) (updates : Fields)
    → validate_mappings is_tag given ≡ ok profile.mappings
    → str_eq (mapped profile "title") planned_week_key ≡ false
    → (has_key planned_week_key (rewrite_frontmatter denormalize ends_line profile page updates)
        && has_key
            (mapped profile "scheduled")
            (rewrite_frontmatter denormalize ends_line profile page updates))
      ≡ false
rewrite_frontmatter-plans is_tag given denormalize ends_line profile page updates accepted e =
    let apart = validate_mappings-apart is_tag given profile.mappings accepted in
    let day : apart.0 ≡ mapped profile "scheduled" = sym (ap or_empty apart.2) in
    let title : apart.1 ≡ mapped profile "title" = sym (ap or_empty apart.3) in
    rewrite_frontmatter-exclusive denormalize ends_line profile page updates
      (ap (str_eq "type") (sym day) ∙ first_false _ _ apart.4)
      (ap (str_eq "title") (sym day) ∙ str_eq-sym _ _ apart.5)
      (ap (str_eq "tags") (sym day) ∙ first_false _ _ (rest_false _ _ apart.4))
      (ap (λ t. str_eq t (mapped profile "scheduled")) (sym title)
        ∙ ap (str_eq apart.1) (sym day)
        ∙ apart.6)
      e
