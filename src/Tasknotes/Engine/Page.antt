-- ===== src/Tasknotes/Engine/Page.antt =====
-- A page of gbrain and the rewriting of its note (`decode_page`, `reconstruct_markdown`, `_daily_scheduled_date` and
-- `_date_valued_frontmatter_keys` of scripts/tasknotes_mcp_core.py). `serialize_frontmatter` and the
-- tests on texts are arguments.
use josemar_assistente.Base.{
  zero, String, Bool, true, false, ◌&&◌, ◌||◌, Option, none, some, List, [], ◌∷◌, contains, str_eq,
  if◌then◌else◌,
}
use Prim.Native.String.{◌++◌ as ◌<>◌}
use josemar_assistente.Base.Dict.{lookup}
use josemar_assistente.Base.Fields.{get, put, delete, has_key}
use josemar_assistente.Base.Result.{Result, ok, err, ◌>>=◌}
use josemar_assistente.Base.Json.{
  Json, null, bool, num, str, arr, obj, Items, nil, cons, Fields, end, field,
}
use josemar_assistente.Tasknotes.Engine.Effects.{EngineError, gbrain_error}
use josemar_assistente.Tasknotes.Engine.Services.{UserField, TaskNotesProfile}
use josemar_assistente.Tasknotes.Engine.Validate.{planned_week_key}

pub record Page : Type 0 where
  pub kind : String
  pub title : String
  pub tags : List String
  pub frontmatter : Fields
  pub compiled_truth : String
  pub timeline : String

-- `page.get(key, default)`, which is to be a text
abbrev pub text_or : String → String → Option Json → Result EngineError String
text_or default message none = ok default
text_or default message (some (str s)) = ok s
text_or default message (some value) = err (gbrain_error message)

-- The same where `None` is the default as well
abbrev pub text_or_null : String → Option Json → Result EngineError String
text_or_null message (some null) = ok ""
text_or_null message value = text_or "" message value

abbrev cons_text : Json → Result EngineError (List String) → Result EngineError (List String)
cons_text (str s) (ok rest) = ok (s ∷ rest)
cons_text item rest = err (gbrain_error "get_page tags must be a list of strings")

abbrev texts_of : Items → Result EngineError (List String)
texts_of nil = ok []
texts_of (cons item items) = cons_text item (texts_of items)

abbrev pub tags_of : Option Json → Result EngineError (List String)
tags_of none = ok []
tags_of (some (arr items)) = texts_of items
tags_of (some value) = err (gbrain_error "get_page tags must be a list of strings")

-- `page.get("frontmatter", {}) or {}`, which is to be a mapping
abbrev pub frontmatter_of : Option Json → Result EngineError Fields
frontmatter_of none = ok end
frontmatter_of (some null) = ok end
frontmatter_of (some (bool false)) = ok end
frontmatter_of (some (num zero)) = ok end
frontmatter_of (some (arr nil)) = ok end
frontmatter_of (some (str s)) =
    if str_eq s "" then ok end else err (gbrain_error "get_page frontmatter must be a mapping")
frontmatter_of (some (obj fs)) = ok fs
frontmatter_of (some value) = err (gbrain_error "get_page frontmatter must be a mapping")

abbrev pub structural_keys : List String
structural_keys = "type" ∷ "title" ∷ "tags" ∷ "slug" ∷ []

-- `{k: v for k, v in frontmatter.items() if k not in (...)}`
unfoldable pub without_structural : Fields → Fields
without_structural end = end
without_structural (field k v fs) =
    let rest = without_structural fs in if contains k structural_keys then rest else field k v rest

unfoldable pub decode_page : Fields → Result EngineError Page
decode_page page = do
  kind ← text_or "note" "get_page type must be a string" (get "type" page)
  title ← text_or "" "get_page title must be a string" (get "title" page)
  tags ← tags_of (get "tags" page)
  frontmatter ← frontmatter_of (get "frontmatter" page)
  compiled ← text_or_null "get_page compiled_truth must be a string" (get "compiled_truth" page)
  timeline ← text_or_null "get_page timeline must be a string" (get "timeline" page)
  ok (record {
    kind = kind;
    title = title;
    tags = tags;
    frontmatter = without_structural frontmatter;
    compiled_truth = compiled;
    timeline = timeline;
  })

abbrev pub or_empty : Option String → String
or_empty none = ""
or_empty (some s) = s

-- `profile.mappings[logical]`, of a field that every profile maps
abbrev pub mapped : TaskNotesProfile → String → String
mapped profile logical = or_empty (lookup logical profile.mappings)

abbrev is_mapped : Option String → Bool
is_mapped none = false
is_mapped (some s) = true

-- `logical in profile.mappings or logical in ("tags", "title")`
abbrev pub is_modeled : TaskNotesProfile → String → Bool
is_modeled profile logical =
    is_mapped (lookup logical profile.mappings) || str_eq logical "tags" || str_eq logical "title"

abbrev pub key_of : TaskNotesProfile → String → String
key_of profile logical = if str_eq logical "tags" then "tags" else mapped profile logical

-- `None` takes the key away.
unfoldable pub set_or_pop : String → Json → Fields → Fields
set_or_pop key null fm = delete key fm
set_or_pop key value fm = put key value fm

unfoldable pub apply_modeled : TaskNotesProfile → Fields → Fields → Fields
apply_modeled profile end fm = fm
apply_modeled profile (field logical value updates) fm =
    apply_modeled profile updates
      (if is_modeled profile logical then set_or_pop (key_of profile logical) value fm else fm)

unfoldable pub apply_custom : TaskNotesProfile → Fields → Fields → Fields
apply_custom profile end fm = fm
apply_custom profile (field name value updates) fm =
    apply_custom profile updates (if is_modeled profile name then fm else set_or_pop name value fm)

-- `scheduled` wins over week planning.
unfoldable pub settle_planning : String → Fields → Fields
settle_planning scheduled fm =
    if has_key planned_week_key fm && has_key scheduled fm then delete planned_week_key fm else fm

abbrev pub items_of : List String → Items
items_of [] = nil
items_of (x ∷ xs) = cons (str x) (items_of xs)

-- `fm.setdefault(key, value)`
abbrev pub set_default : String → Json → Fields → Fields
set_default key value fm = if has_key key fm then fm else put key value fm

unfoldable pub rehydrate : TaskNotesProfile → Page → Bool → Fields → Fields
rehydrate profile page tags_updated fm =
    let typed = put "title" (str page.title) (put "type" (str page.kind) fm) in
    let titled =
      if str_eq (mapped profile "title") "title"
      then typed
      else set_default (mapped profile "title") (str page.title) typed in
    if tags_updated then titled else put "tags" (arr (items_of page.tags)) titled

abbrev date_fields : List UserField → List String
date_fields [] = []
date_fields (uf ∷ ufs) =
    let rest = date_fields ufs in if str_eq uf.kind "date" then uf.key ∷ rest else rest

abbrev pub date_valued_frontmatter_keys : TaskNotesProfile → List String
date_valued_frontmatter_keys profile =
    mapped profile "due"
    ∷ mapped profile "scheduled"
    ∷ mapped profile "completedDate"
    ∷ planned_week_key
    ∷ date_fields profile.user_fields

module _ (denormalize_bare_date : String → String) (ends_line : String → Bool) where
  abbrev pub denormalized : Json → Json
  denormalized (str s) = str (denormalize_bare_date s)
  denormalized value = value

  abbrev pub collapse : String → Option Json → Fields → Fields
  collapse key none fm = fm
  collapse key (some value) fm = put key (denormalized value) fm

  unfoldable pub collapse_dates : List String → Fields → Fields
  collapse_dates [] fm = fm
  collapse_dates (key ∷ keys) fm = collapse_dates keys (collapse key (get key fm) fm)

  -- A page comes as JSON, so a date is a text.
  unfoldable pub daily_scheduled_date : (String → Bool) → Option Json → Option String
  daily_scheduled_date is_date (some (str s)) =
      if is_date (denormalize_bare_date s) then some (denormalize_bare_date s) else none
  daily_scheduled_date is_date value = none

  -- The frontmatter of the rewritten note
  unfoldable pub rewrite_frontmatter : TaskNotesProfile → Page → Fields → Fields
  rewrite_frontmatter profile page updates = collapse_dates (date_valued_frontmatter_keys profile) (
      rehydrate profile page (has_key "tags" updates) (
        settle_planning (mapped profile "scheduled")
          (apply_custom profile updates (apply_modeled profile updates page.frontmatter))))

  -- A text, and the end of its line where it has none; nothing for an empty text
  abbrev pub with_line_end : String → String → String
  with_line_end before text =
      if str_eq text "" then "" else before <> text <> (if ends_line text then "" else "\n")

  abbrev pub or_body : Option String → String → String
  or_body none body = body
  or_body (some override) body = override

  unfoldable pub reconstruct_markdown :
      (Fields → Result EngineError String)
      → Fields
      → TaskNotesProfile
      → Fields
      → Option String
      → Result EngineError String
  reconstruct_markdown serialize_frontmatter page profile updates body_override = do
    decoded ← decode_page page
    head ← serialize_frontmatter (rewrite_frontmatter profile decoded updates)
    ok (
        head
        <> with_line_end "" (or_body body_override decoded.compiled_truth)
        <> with_line_end "\n<!-- timeline -->\n" decoded.timeline)
