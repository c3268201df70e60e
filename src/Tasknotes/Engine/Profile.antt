-- ===== src/Tasknotes/Engine/Profile.antt =====
-- The profile of the TaskNotes plugin (`_validate_tag`, `_validate_statuses`, `_validate_priorities`,
-- `_validate_mappings`, `_validate_user_fields` and `load_profile` of scripts/tasknotes_mcp_core.py),
-- from the two documents that the code has read. What looks at the directories is an argument, and
-- messages are shortened.
use josemar_assistente.Base.{
  zero, String, Bool, true, false, not, ◌&&◌, Option, none, some, List, [], ◌∷◌, map, keep_if,
  contains, distinct, any, str_eq, if◌then◌else◌,
}
use josemar_assistente.Base.Dict.{Dict, lookup, insert}
use josemar_assistente.Base.Fields.{get}
use josemar_assistente.Base.Result.{Result, ok, err, ◌>>=◌, ◌>>◌}
use josemar_assistente.Base.Json.{
  Json, null, bool, num, str, arr, obj, Items, nil, cons, Fields, end,
}
use josemar_assistente.Tasknotes.Engine.Effects.{EngineError, profile_incompatible}
use josemar_assistente.Tasknotes.Engine.Services.{UserField, TaskNotesProfile}
use josemar_assistente.Tasknotes.Engine.Page.{or_empty}

abbrev pub tasknotes_required_version : String
tasknotes_required_version = "4.11.1"

-- `if bad: raise ProfileIncompatible(message)`
abbrev pub incompatible : Bool → String → Result EngineError (Unit {0})
incompatible bad message = if bad then err (profile_incompatible message) else ok tt

-- A text that is there and not empty
unfoldable pub required_text : String → Option Json → Result EngineError String
required_text message (some (str s)) =
    if str_eq s "" then err (profile_incompatible message) else ok s
required_text message value = err (profile_incompatible message)

-- `d.get(key)` as a value
abbrev pub or_null : Option Json → Json
or_null none = null
or_null (some value) = value

abbrev pub fields_of : String → Json → Result EngineError Fields
fields_of message (obj fs) = ok fs
fields_of message value = err (profile_incompatible message)

-- A list that is there and not empty
abbrev pub items_in : String → Option Json → Result EngineError Items
items_in message (some (arr (cons item items))) = ok (cons item items)
items_in message value = err (profile_incompatible message)

-- `d.get(key, False)`, which is to be a Boolean
abbrev pub flag_of : String → Option Json → Result EngineError Bool
flag_of message none = ok false
flag_of message (some (bool b)) = ok b
flag_of message (some value) = err (profile_incompatible message)

-- An entry of `customStatuses` or `customPriorities`
pub record Choice : Type 0 where
  pub id : String
  pub value : String
  pub is_completed : Bool

unfoldable pub status_of : Json → Result EngineError Choice
status_of entry = do
  fs ← fields_of "each customStatus must be an object" entry
  id ← required_text "each customStatus must have a non-empty id" (get "id" fs)
  value ← required_text "each customStatus must have a non-empty value" (get "value" fs)
  is_completed ← flag_of "customStatus isCompleted must be a boolean" (get "isCompleted" fs)
  ok (record { id = id; value = value; is_completed = is_completed })

unfoldable pub priority_of : Json → Result EngineError Choice
priority_of entry = do
  fs ← fields_of "each customPriority must be an object" entry
  id ← required_text "each customPriority must have a non-empty id" (get "id" fs)
  value ← required_text "each customPriority must have a non-empty value" (get "value" fs)
  ok (record { id = id; value = value; is_completed = false })

unfoldable pub choices_of :
    (Json → Result EngineError Choice) → Items → Result EngineError (List Choice)
choices_of read nil = ok []
choices_of read (cons item items) = do
  choice ← read item
  choices ← choices_of read items
  ok (choice ∷ choices)

abbrev pub values_of : List Choice → List String
values_of choices = map (λ c. c.value) choices

-- No id and no value is there twice.
unfoldable pub unique_choices : List Choice → Result EngineError (Unit {0})
unique_choices choices = do
  incompatible (not (distinct (map (λ c. c.id) choices))) "ids must be unique"
  incompatible (not (distinct (values_of choices))) "values must be unique"

abbrev pub sole_completed : List Choice → Result EngineError String
sole_completed (c ∷ []) = ok c.value
sole_completed choices = err (profile_incompatible "exactly one customStatus must be isCompleted")

-- The values, and the completed one
pub record Statuses : Type 0 where
  pub values : List String
  pub completed : String

unfoldable pub validate_statuses : Option Json → Result EngineError Statuses
validate_statuses given = do
  items ← items_in "customStatuses must be a non-empty list" given
  choices ← choices_of status_of items
  unique_choices choices
  completed ← sole_completed (keep_if (λ c. c.is_completed) choices)
  ok (record { values = values_of choices; completed = completed })

unfoldable pub validate_priorities : Option Json → Result EngineError (List String)
validate_priorities given = do
  items ← items_in "customPriorities must be a non-empty list" given
  choices ← choices_of priority_of items
  unique_choices choices
  ok (values_of choices)

abbrev pub required_mappings : List String
required_mappings =
    "title" ∷ "status" ∷ "priority" ∷ "due" ∷ "scheduled" ∷ "projects" ∷ "completedDate" ∷ []

abbrev pub reserved_frontmatter_keys : List String
reserved_frontmatter_keys =
    "type" ∷ "tags" ∷ "slug" ∷ "ingested_via" ∷ "ingested_at" ∷ "source_kind" ∷ "captured_via"
    ∷ "captured_at" ∷ []

-- The keys are different, so the dictionary has them in this order.
unfoldable pub read_mappings : List String → Fields → Result EngineError (Dict String)
read_mappings [] value = ok []
read_mappings (logical ∷ logicals) value = do
  prop ← required_text "fieldMapping must be a non-empty string" (get logical value)
  rest ← read_mappings logicals value
  ok ((logical, prop) ∷ rest)

-- No reserved key, and no other field than the title at `title`
unfoldable pub check_reserved : Dict String → Result EngineError (Unit {0})
check_reserved [] = ok tt
check_reserved ((logical, prop) ∷ rest) = do
  incompatible (contains prop reserved_frontmatter_keys) "fieldMapping collides with reserved key"
  incompatible (str_eq prop "title" && not (str_eq logical "title"))
      "fieldMapping collides with canonical title"
  check_reserved rest

-- The optional recurrence: a text that is not empty
unfoldable pub with_recurrence : Option Json → Dict String → Dict String
with_recurrence (some (str s)) mappings =
    if str_eq s "" then mappings else insert "recurrence" s mappings
with_recurrence value mappings = mappings

unfoldable pub option_texts : Items → Result EngineError (List String)
option_texts nil = ok []
option_texts (cons item items) = do
  text ← required_text "'options' must be non-empty strings" (some item)
  rest ← option_texts items
  ok (text ∷ rest)

-- The options of an enumeration; another kind has none.
unfoldable pub options_of : Bool → Option Json → Result EngineError (List String)
options_of false given = ok []
options_of true given = do
  items ← items_in "(enum) must have a non-empty 'options' list" given
  texts ← option_texts items
  incompatible (not (distinct texts)) "'options' must be unique"
  ok texts

-- `_USER_FIELD_TYPES`
abbrev pub user_field_types : List String
user_field_types = "text" ∷ "list" ∷ "date" ∷ "number" ∷ "boolean" ∷ "link" ∷ "enum" ∷ []

-- The label, which is to be a text
abbrev pub check_label : Option Json → Result EngineError (Unit {0})
check_label none = ok tt
check_label (some (str s)) = ok tt
check_label (some value) = err (profile_incompatible "userField label must be a string")

-- An entry of `userFields`, with the keys and the ids before it
unfoldable pub user_field_of : List String → List String → Fields → Result EngineError UserField
user_field_of keys ids entry = do
  id ← required_text "each userField must have a non-empty id" (get "id" entry)
  name ← required_text "each userField must have a non-empty key" (get "key" entry)
  kind ← required_text "userField type not in allowed set" (get "type" entry)
  incompatible (not (contains kind user_field_types)) "userField type not in allowed set"
  check_label (get "label" entry)
  options ← options_of (str_eq kind "enum") (get "options" entry)
  incompatible (contains name keys) "userField key must be unique"
  incompatible (contains id ids) "userField id must be unique"
  incompatible (contains name reserved_frontmatter_keys) "userField key collides with reserved key"
  ok (record { id = id; key = name; kind = kind; options = options })

unfoldable pub user_fields_of :
    List String → List String → Items → Result EngineError (List UserField)
user_fields_of keys ids nil = ok []
user_fields_of keys ids (cons item items) = do
  entry ← fields_of "each userField must be an object" item
  read ← user_field_of keys ids entry
  rest ← user_fields_of (read.key ∷ keys) (read.id ∷ ids) items
  ok (read ∷ rest)

unfoldable pub validate_user_fields : Option Json → Result EngineError (List UserField)
validate_user_fields none = ok []
validate_user_fields (some null) = ok []
validate_user_fields (some (arr items)) = user_fields_of [] [] items
validate_user_fields (some value) = err (profile_incompatible "userFields must be a list")

-- `bool(value)`
abbrev pub is_true : Option Json → Bool
is_true none = false
is_true (some null) = false
is_true (some (bool b)) = b
is_true (some (num zero)) = false
is_true (some (arr nil)) = false
is_true (some (obj end)) = false
is_true (some (str s)) = not (str_eq s "")
is_true (some value) = true

-- `value == text`
abbrev pub equals_text : Option Json → String → Bool
equals_text (some (str s)) text = str_eq s text
equals_text value text = false

-- A default that belongs to the set
unfoldable pub default_in : List String → Option Json → Result EngineError String
default_in values (some (str s)) = do
  incompatible (not (contains s values)) "the default must belong to the set"
  ok s
default_in values given = err (profile_incompatible "the default must belong to the set")

module _ (is_tag : String → Bool) where
  unfoldable pub validate_tag : String → Option Json → Result EngineError String
  validate_tag message given = do
    tag ← required_text message given
    incompatible (not (is_tag tag)) "contains whitespace or control characters"
    ok tag

  unfoldable pub validate_mappings : Option Json → Result EngineError (Dict String)
  validate_mappings given = do
    value ← fields_of "fieldMapping must be an object" (or_null given)
    mappings ← read_mappings required_mappings value
    incompatible (not (distinct (map (λ m. m.1) mappings))) "fieldMapping values must be unique"
    check_reserved mappings
    archive_tag ←
        validate_tag "fieldMapping.archiveTag must be a non-empty string" (get "archiveTag" value)
    ok (with_recurrence (get "recurrence" value) (insert "archiveTag" archive_tag mappings))

  -- What looks at the disk are arguments: the two folders, the configured repository with
  -- the state of git, and the hash of the documents.
  module _ (tasks_folder_of : String → Result EngineError String)
      (archive_folder_of : String → Result EngineError String)
      (repository : Result EngineError (Unit {0}))
      (compute_profile_hash : Fields → Fields → String) where
    unfoldable pub read_archive_folder : Bool → Option Json → Result EngineError (Option String)
    read_archive_folder false given = ok none
    read_archive_folder true given = do
      raw ← required_text "moveArchivedTasks is true but archiveFolder is not set" given
      folder ← archive_folder_of raw
      ok (some folder)

    unfoldable pub load_profile : Fields → Fields → Result EngineError TaskNotesProfile
    load_profile manifest data_ = do
      incompatible (not (equals_text (get "version" manifest) tasknotes_required_version))
          "TaskNotes version"
      incompatible (not (equals_text (get "taskIdentificationMethod" data_) "tag"))
          "taskIdentificationMethod must be 'tag'"
      task_tag ← validate_tag "taskTag must be a non-empty string" (get "taskTag" data_)
      raw_folder ← required_text "tasksFolder must be a non-empty string" (get "tasksFolder" data_)
      tasks_folder ← tasks_folder_of raw_folder
      archive_folder ←
          read_archive_folder (is_true (get "moveArchivedTasks" data_)) (get "archiveFolder" data_)
      statuses ← validate_statuses (get "customStatuses" data_)
      default_status ← default_in statuses.values (get "defaultTaskStatus" data_)
      priorities ← validate_priorities (get "customPriorities" data_)
      default_priority ← default_in priorities (get "defaultTaskPriority" data_)
      mappings ← validate_mappings (get "fieldMapping" data_)
      incompatible (str_eq (or_empty (lookup "archiveTag" mappings)) task_tag)
          "archiveTag must differ from taskTag"
      user_fields ← validate_user_fields (get "userFields" data_)
      incompatible (any (λ uf. contains uf.key (map (λ m. m.1) mappings)) user_fields)
          "userField key collides with a fieldMapping value"
      repository
      ok (record {
        tasks_folder = tasks_folder;
        task_tag = task_tag;
        archive_tag = or_empty (lookup "archiveTag" mappings);
        statuses = statuses.values;
        completed_status = statuses.completed;
        default_status = default_status;
        priorities = priorities;
        default_priority = default_priority;
        mappings = mappings;
        profile_hash = compute_profile_hash manifest data_;
        source_id = none;
        move_archived_tasks = is_true (get "moveArchivedTasks" data_);
        archive_folder = archive_folder;
        user_fields = user_fields;
      })
