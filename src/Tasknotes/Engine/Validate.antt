-- ===== src/Tasknotes/Engine/Validate.antt =====
-- The checks of an operation's arguments (`validate_title` to `validate_custom_fields`,
-- `validate_slug` and `_require_planned_week_user_field` of scripts/tasknotes_mcp_core.py). An
-- argument that may be `None` is an option, and a check that an argument has its type is left to the
-- types. Messages are shortened, and a date has one message.
use josemar_assistente.Base.{
  ℕ, suc, String, Bool, true, not, Option, none, some, List, [], ◌∷◌, ◌++◌, length, contains, ltb,
  str_eq, if◌then◌else◌,
}
use text.Mathlib.Text.{starts_with}
use josemar_assistente.Base.Result.{Result, ok, err, ◌>>=◌, ◌>>◌}
use josemar_assistente.Base.Json.{
  Json, null, bool, num, str, arr, Items, nil, cons, Fields, end, field,
}
use josemar_assistente.Base.Fields.{put}
use josemar_assistente.Tasknotes.Engine.Effects.{EngineError, path_error, validation_error}
use josemar_assistente.Tasknotes.Engine.Services.{UserField, TaskNotesProfile, Texts}

abbrev pub planned_week_key : String
planned_week_key = "planned_week"

-- `if bad: raise ValidationError(message)`
abbrev pub refuse : Bool → String → Result EngineError (Unit {0})
refuse bad message = if bad then err (validation_error message) else ok tt

abbrev refuse_path : Bool → String → Result EngineError (Unit {0})
refuse_path bad message = if bad then err (path_error message) else ok tt

-- `check(value) if value is not None else None`
abbrev pub if_given :
    {A B : Type 0} → (A → Result EngineError B) → Option A → Result EngineError (Option B)
if_given check none = ok none
if_given check (some value) = do checked ← check value; ok (some checked)

unfoldable pub validate_status_value : TaskNotesProfile → String → Result EngineError String
validate_status_value profile value = do
  refuse (not (contains value profile.statuses)) "status not in status set"
  ok value

unfoldable pub validate_priority_value : TaskNotesProfile → String → Result EngineError String
validate_priority_value profile value = do
  refuse (not (contains value profile.priorities)) "priority not in priority set"
  ok value

unfoldable pub require_planned_week_user_field : List UserField → Result EngineError UserField
require_planned_week_user_field [] =
    err (validation_error "profile must define a user field of type 'date' to set week planning")
require_planned_week_user_field (uf ∷ ufs) =
    let later = require_planned_week_user_field ufs in
    if str_eq uf.key planned_week_key
    then (do refuse (not (str_eq uf.kind "date")) "profile user field must have type 'date'"; ok uf)
    else later

-- `{uf["key"]: uf for uf in profile.user_fields}.get(key)`: the last one
unfoldable pub field_named : String → List UserField → Option UserField
field_named name [] = none
field_named name (uf ∷ ufs) =
    first_of (field_named name ufs) (if str_eq uf.key name then some uf else none)
  where
    first_of : Option UserField → Option UserField → Option UserField
    first_of none other = other
    first_of (some found) other = some found

-- Each one is checked; a repeated one is dropped.
unfoldable pub unique_checked :
    (String → Result EngineError (Unit {0}))
    → List String
    → List String
    → Result EngineError (List String)
unique_checked check out [] = ok out
unique_checked check out (x ∷ xs) = do
  check x
  unique_checked check (if contains x out then out else out ++ x ∷ []) xs

module _ (texts : Texts) where
  open texts use {
    strip, lower, text_length, has_control, has_part, is_tag, is_slug, is_date, is_monday,
    utf8_length,
  }

  unfoldable pub validate_slug : String → Result EngineError String
  validate_slug slug = do
    refuse_path (str_eq slug "") "slug must be a non-empty string"
    refuse_path (ltb 200 (text_length slug)) "slug exceeds length bound"
    refuse_path (not (str_eq slug (lower slug))) "slug must be lowercase"
    refuse_path (starts_with slug "/") "slug must be relative (no leading '/')"
    refuse_path (has_part "\\" slug) "slug must not contain backslash"
    refuse_path (has_part "/" slug) "slug must not contain '/' (single segment only)"
    refuse_path (has_part ".." slug) "slug must not contain traversal segments"
    refuse_path (has_control slug) "slug must not contain control characters"
    refuse_path (not (is_slug slug)) "slug is invalid"
    ok slug

  unfoldable pub validate_title : String → Result EngineError String
  validate_title given = do
    refuse (str_eq (strip given) "") "title must be non-empty"
    refuse (ltb 500 (text_length (strip given))) "title exceeds length bound"
    refuse (has_control (strip given)) "title must not contain control characters"
    ok (strip given)

  unfoldable pub validate_body : String → Result EngineError String
  validate_body body = do
    refuse (ltb 100000 (text_length body)) "body exceeds length bound"
    ok body

  unfoldable pub validate_markdown_bound : String → Result EngineError (Unit {0})
  validate_markdown_bound markdown =
      refuse (ltb 200000 (utf8_length markdown)) "constructed markdown exceeds length bound"

  unfoldable pub validate_date : String → Result EngineError String
  validate_date value = do refuse (not (is_date value)) "must be a YYYY-MM-DD date string"; ok value

  unfoldable pub validate_planned_week : String → Result EngineError String
  validate_planned_week value = do
    date ← validate_date value
    refuse (not (is_monday date)) "planned_week must be a Monday (ISO week start)"
    ok date

  unfoldable pub validate_recurrence : String → Result EngineError String
  validate_recurrence value = do
    refuse (str_eq value "") "recurrence must be a non-empty string"
    refuse (ltb 500 (text_length value)) "recurrence exceeds length bound"
    refuse (has_control value) "recurrence must not contain control characters"
    ok value

  -- The checks of one tag
  unfoldable pub check_tag : String → Result EngineError (Unit {0})
  check_tag tag = do
    refuse (str_eq tag "") "each tag must be a non-empty string"
    refuse (ltb 100 (text_length tag)) "tag exceeds length bound"
    refuse (not (is_tag tag)) "tag contains whitespace or control characters"

  -- `_validate_tag_value`
  unfoldable pub validate_tag_value : String → Result EngineError String
  validate_tag_value tag = do check_tag tag; ok tag

  -- `allow_archive` is false at the one call.
  unfoldable pub validate_tags : TaskNotesProfile → List String → Result EngineError (List String)
  validate_tags profile value = do
    refuse (ltb 50 (length value)) "tags exceed count bound"
    out ← unique_checked check_tag [] value
    refuse (contains profile.archive_tag out) "archive tag is not allowed here"
    ok out

  unfoldable pub check_project : String → Result EngineError (Unit {0})
  check_project project = do
    refuse (str_eq project "") "each project must be a non-empty string"
    refuse (ltb 200 (text_length project)) "project exceeds length bound"
    refuse (has_control project) "project must not contain control characters"

  unfoldable pub validate_projects : List String → Result EngineError (List String)
  validate_projects value = do
    refuse (ltb 50 (length value)) "projects exceed count bound"
    unique_checked check_project [] value

  unfoldable pub check_text : ℕ → Json → Result EngineError (Unit {0})
  check_text bound (str s) = refuse (ltb bound (text_length s)) "custom field exceeds its length"
  check_text bound value = refuse true "custom field must be a string"

  abbrev size_items : Items → ℕ
  size_items nil = 0
  size_items (cons item items) = suc (size_items items)

  unfoldable pub check_items : Items → Result EngineError (Unit {0})
  check_items nil = ok tt
  check_items (cons item items) = do check_text 200 item; check_items items

  unfoldable pub check_list : Json → Result EngineError (Unit {0})
  check_list (arr items) = do
    refuse (ltb 50 (size_items items)) "custom field exceeds 50 items"
    check_items items
  check_list value = refuse true "custom field must be a list"

  unfoldable pub check_day : Json → Result EngineError (Unit {0})
  check_day (str s) = refuse (not (is_date s)) "custom field must be a YYYY-MM-DD string"
  check_day value = refuse true "custom field must be a YYYY-MM-DD string"

  unfoldable pub check_number : Json → Result EngineError (Unit {0})
  check_number (num n) = ok tt
  check_number value = refuse true "custom field must be a number"

  unfoldable pub check_bool : Json → Result EngineError (Unit {0})
  check_bool (bool b) = ok tt
  check_bool value = refuse true "custom field must be a bool"

  unfoldable pub check_option : List String → Json → Result EngineError (Unit {0})
  check_option options (str s) = refuse (not (contains s options)) "custom field not in its options"
  check_option options value = refuse true "custom field must be a string"

  unfoldable pub check_kind : UserField → Json → Result EngineError (Unit {0})
  check_kind uf value =
      if str_eq uf.kind "text"
      then check_text 500 value
      else if str_eq uf.kind "list"
      then check_list value
      else if str_eq uf.kind "date"
      then check_day value
      else if str_eq uf.kind "number"
      then check_number value
      else if str_eq uf.kind "boolean"
      then check_bool value
      else if str_eq uf.kind "link"
      then check_text 500 value
      else if str_eq uf.kind "enum"
      then check_option uf.options value
      else refuse true "custom field has unknown type"

  -- `None` clears the field.
  unfoldable pub check_field : Option UserField → Json → Result EngineError (Unit {0})
  check_field none value = refuse true "custom field is not defined in profile"
  check_field (some uf) null = ok tt
  check_field (some uf) value = check_kind uf value

  unfoldable pub custom_fields_checked :
      List UserField → Fields → Fields → Result EngineError Fields
  custom_fields_checked ufs out end = ok out
  custom_fields_checked ufs out (field name value rest) = do
    refuse (str_eq name "") "custom_fields keys must be non-empty strings"
    refuse (str_eq name planned_week_key) "custom field is reserved"
    check_field (field_named name ufs) value
    custom_fields_checked ufs (put name value out) rest

  unfoldable pub validate_custom_fields :
      TaskNotesProfile → Option Fields → Result EngineError Fields
  validate_custom_fields profile none = ok end
  validate_custom_fields profile (some fields) =
      custom_fields_checked profile.user_fields end fields
