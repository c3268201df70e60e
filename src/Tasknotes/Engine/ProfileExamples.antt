-- ===== src/Tasknotes/Engine/ProfileExamples.antt =====
-- A profile that `load_profile` accepts, and a note rewritten under it
-- (scripts/tasknotes_mcp_core.py).
use josemar_assistente.Base.{String, Bool, true, false, ◌&&◌, none, some, [], ◌∷◌, ◌≡◌, refl}
use josemar_assistente.Base.Dict.{Dict, lookup, insert}
use josemar_assistente.Base.Fields.{get, has_key}
use josemar_assistente.Base.Result.{Result, ok}
use josemar_assistente.Base.Json.{bool, str, arr, obj, nil, cons, Fields, end, field}
use josemar_assistente.Tasknotes.Engine.Effects.{EngineError}
use josemar_assistente.Tasknotes.Engine.Services.{TaskNotesProfile}
use josemar_assistente.Tasknotes.Engine.Validate.{planned_week_key}
use josemar_assistente.Tasknotes.Engine.Page.{Page, mapped, rewrite_frontmatter}
use josemar_assistente.Tasknotes.Engine.Profile.{
  required_text, status_of, priority_of, choices_of, unique_choices, validate_statuses,
  validate_priorities, read_mappings, check_reserved, with_recurrence, options_of, user_field_of,
  user_fields_of, validate_user_fields, default_in, validate_tag, validate_mappings,
  read_archive_folder, load_profile,
}
use josemar_assistente.Tasknotes.Engine.Loaded.{rewrite_frontmatter-plans}
use josemar_assistente.Tasknotes.Engine.Promised.{IsSound, load_profile-IsSound}

abbrev mapping : Fields
mapping = field "title" (str "title") (
    field "status" (str "state") (
      field "priority" (str "priority") (
        field "due" (str "due") (
          field "scheduled" (str "day") (
            field "projects" (str "projects")
              (field "completedDate" (str "done_on") (field "archiveTag" (str "archived") end)))))))

abbrev accepted : Dict String
accepted =
    ("title", "title")
    ∷ ("status", "state")
    ∷ ("priority", "priority")
    ∷ ("due", "due")
    ∷ ("scheduled", "day")
    ∷ ("projects", "projects")
    ∷ ("completedDate", "done_on")
    ∷ ("archiveTag", "archived")
    ∷ []

abbrev choice : String → Bool → Fields
choice name completed =
    field "id" (str name) (field "value" (str name) (field "isCompleted" (bool completed) end))

abbrev effort : Fields
effort = field "id" (str "f1") (field "key" (str "effort") (field "type" (str "text") end))

abbrev document : Fields
document = field "taskIdentificationMethod" (str "tag") (
    field "taskTag" (str "task") (
      field "tasksFolder" (str "tasks") (
        field "customStatuses"
          (arr (cons (obj (choice "open" false)) (cons (obj (choice "done" true)) nil)))
          (field "defaultTaskStatus" (str "open") (
            field "customPriorities" (arr (cons (obj (choice "normal" false)) nil)) (
              field "defaultTaskPriority" (str "normal") (
                field "fieldMapping" (obj mapping)
                  (field "userFields" (arr (cons (obj effort) nil)) end))))))))

abbrev manifest : Fields
manifest = field "version" (str "4.11.1") end

abbrev profile : TaskNotesProfile
profile = record {
  tasks_folder = "tasks";
  task_tag = "task";
  archive_tag = "archived";
  statuses = "open" ∷ "done" ∷ [];
  completed_status = "done";
  default_status = "open";
  priorities = "normal" ∷ [];
  default_priority = "normal";
  mappings = accepted;
  profile_hash = "hash";
  source_id = none;
  move_archived_tasks = false;
  archive_folder = none;
  user_fields = record { id = "f1"; key = "effort"; kind = "text"; options = [] } ∷ [];
}

abbrev every_tag : String → Bool
every_tag tag = true

abbrev any_folder : String → Result EngineError String
any_folder folder = ok folder

abbrev hash : Fields → Fields → String
hash a b = "hash"

mappings_accepted : validate_mappings every_tag (some (obj mapping)) ≡ ok accepted
unfolding validate_mappings required_text read_mappings check_reserved validate_tag with_recurrence
    insert get
mappings_accepted = refl

abbrev page : Page
page = record {
  kind = "note";
  title = "water the plants";
  tags = "task" ∷ [];
  frontmatter = field planned_week_key (str "2026-01-05") end;
  compiled_truth = "";
  timeline = "";
}

abbrev rewritten : Fields
rewritten =
    rewrite_frontmatter (λ s. s) (λ s. false) profile page
      (field "scheduled" (str "2026-01-07") end)

rewrite_frontmatter-plans_example :
    (has_key planned_week_key rewritten && has_key (mapped profile "scheduled") rewritten) ≡ false
unfolding lookup
rewrite_frontmatter-plans_example =
    rewrite_frontmatter-plans every_tag (some (obj mapping)) (λ s. s) (λ s. false) profile page
      (field "scheduled" (str "2026-01-07") end) mappings_accepted refl

profile_loaded :
    load_profile every_tag any_folder any_folder (ok tt) hash manifest document ≡ ok profile
unfolding load_profile required_text status_of priority_of choices_of unique_choices
    validate_statuses validate_priorities read_mappings check_reserved with_recurrence options_of
    user_field_of user_fields_of validate_user_fields default_in validate_tag validate_mappings
    read_archive_folder insert lookup get
profile_loaded = refl

load_profile-IsSound_example : IsSound every_tag any_folder any_folder (ok tt) hash document profile
load_profile-IsSound_example =
    load_profile-IsSound every_tag any_folder any_folder (ok tt) hash manifest document profile
      profile_loaded
