-- ===== src/Tasknotes/Engine/Requests.antt =====
-- The arguments of `create` and `update` of `TaskNotesEngine` and their checks, and the changes that
-- `update` writes (scripts/tasknotes_mcp_core.py).
use josemar_assistente.Base.{String, Bool, true, false, ◌&&◌, Option, none, some, List, str_eq}
use josemar_assistente.Base.Json.{Json, null, str, arr, Fields, end, field}
use josemar_assistente.Base.Fields.{put}
use josemar_assistente.Base.Result.{Result, ok, ◌>>=◌, ◌>>◌}
use josemar_assistente.Tasknotes.Engine.Effects.{EngineError}
use josemar_assistente.Tasknotes.Engine.Services.{TaskNotesProfile, NewTask, Texts}
use josemar_assistente.Tasknotes.Engine.Page.{items_of}
use josemar_assistente.Tasknotes.Engine.Validate.{
  planned_week_key, refuse, if_given, require_planned_week_user_field, validate_title,
  validate_body, validate_date, validate_planned_week, validate_recurrence, validate_status_value,
  validate_priority_value, validate_tags, validate_projects, validate_custom_fields,
}

pub record CreateRequest : Type 0 where
  pub title : String
  pub status : Option String
  pub priority : Option String
  pub due : Option String
  pub scheduled : Option String
  pub projects : Option (List String)
  pub tags : Option (List String)
  pub body : String
  pub custom_fields : Option Fields
  pub recurrence : Option String
  pub planned_week : Option String

pub record UpdateRequest : Type 0 where
  pub status : Option String
  pub priority : Option String
  pub due : Option String
  pub scheduled : Option String
  pub projects : Option (List String)
  pub clear_due : Bool
  pub clear_scheduled : Bool
  pub clear_projects : Bool
  pub custom_fields : Option Fields
  pub body : Option String
  pub planned_week : Option String
  pub clear_planned_week : Bool

-- `value if value is not None else default`
abbrev pub or_default : Option String → String → String
or_default none default = default
or_default (some value) default = value

-- `value is not None`
abbrev pub given : {A : Type 0} → Option A → Bool
given none = false
given (some value) = true

unfoldable pub require_field_for_week :
    TaskNotesProfile → Option String → Result EngineError (Unit {0})
require_field_for_week profile none = ok tt
require_field_for_week profile (some week) = do
  require_planned_week_user_field profile.user_fields
  ok tt

-- A status that is the completed one is refused before it is looked up.
unfoldable pub open_status : TaskNotesProfile → String → Result EngineError String
open_status profile status = do
  refuse (str_eq status profile.completed_status) "completed status is rejected"
  validate_status_value profile status

-- `if clear: updates[key] = None`, and `elif value is not None: updates[key] = value`
unfoldable pub set_or_clear : String → Bool → Option Json → Fields → Fields
set_or_clear name true value fs = put name null fs
set_or_clear name false none fs = fs
set_or_clear name false (some value) fs = put name value fs

unfoldable pub plan_updates : Option String → Option String → Bool → Bool → Fields → Fields
plan_updates (some date) week clear_scheduled clear_week fs =
    put planned_week_key null (put "scheduled" (str date) fs)
plan_updates none (some week) clear_scheduled clear_week fs =
    put "scheduled" null (put planned_week_key (str week) fs)
plan_updates none none true clear_week fs = put planned_week_key null (put "scheduled" null fs)
plan_updates none none false true fs = put planned_week_key null fs
plan_updates none none false false fs = fs

-- `for key, value in custom_fields_v.items(): updates[key] = value`
unfoldable pub put_all : Fields → Fields → Fields
put_all end fs = fs
put_all (field name value rest) fs = put_all rest (put name value fs)

abbrev as_text : Option String → Option Json
as_text none = none
as_text (some s) = some (str s)

abbrev as_texts : Option (List String) → Option Json
as_texts none = none
as_texts (some xs) = some (arr (items_of xs))

-- The changes of a checked request
unfoldable pub updates_of : UpdateRequest → Fields → Fields
updates_of request custom_fields = put_all custom_fields (
    set_or_clear "projects" request.clear_projects (as_texts request.projects) (
      plan_updates request.scheduled request.planned_week request.clear_scheduled
        request.clear_planned_week
        (set_or_clear "due" request.clear_due (as_text request.due) (
          set_or_clear "priority" false (as_text request.priority)
            (set_or_clear "status" false (as_text request.status) end)))))

module _ (texts : Texts) where
  -- Before the lock, the title, body, recurrence and planned week are checked.
  unfoldable pub checked_create : CreateRequest → Result EngineError CreateRequest
  checked_create request = do
    title ← validate_title texts request.title
    body ← validate_body texts request.body
    recurrence ← if_given (validate_recurrence texts) request.recurrence
    planned_week ← if_given (validate_planned_week texts) request.planned_week
    refuse (given request.scheduled && given planned_week)
        "scheduled and planned_week are mutually exclusive; choose one planning target"
    ok (record request {
      title = title;
      body = body;
      recurrence = recurrence;
      planned_week = planned_week;
    })

  -- The rest is checked against the profile.
  unfoldable pub new_task : TaskNotesProfile → CreateRequest → Result EngineError NewTask
  new_task profile request = do
    require_field_for_week profile request.planned_week
    status ← open_status profile (or_default request.status profile.default_status)
    priority ←
        validate_priority_value profile (or_default request.priority profile.default_priority)
    due ← if_given (validate_date texts) request.due
    scheduled ← if_given (validate_date texts) request.scheduled
    projects ← if_given (validate_projects texts) request.projects
    tags ← if_given (validate_tags texts profile) request.tags
    custom_fields ← validate_custom_fields texts profile request.custom_fields
    ok (record {
      title = request.title;
      status = status;
      priority = priority;
      due = due;
      scheduled = scheduled;
      projects = projects;
      tags = tags;
      body = request.body;
      custom_fields = custom_fields;
      recurrence = request.recurrence;
      planned_week = request.planned_week;
    })

  unfoldable pub checked_update : UpdateRequest → Result EngineError UpdateRequest
  checked_update request = do
    body ← if_given (validate_body texts) request.body
    due ← if_given (validate_date texts) request.due
    scheduled ← if_given (validate_date texts) request.scheduled
    planned_week ← if_given (validate_planned_week texts) request.planned_week
    projects ← if_given (validate_projects texts) request.projects
    refuse (given due && request.clear_due) "due and clear_due are mutually exclusive"
    refuse (given scheduled && request.clear_scheduled)
        "scheduled and clear_scheduled are mutually exclusive"
    refuse (given projects && request.clear_projects)
        "projects and clear_projects are mutually exclusive"
    refuse (given planned_week && request.clear_planned_week)
        "planned_week and clear_planned_week are mutually exclusive"
    refuse (given scheduled && given planned_week)
        "scheduled and planned_week are mutually exclusive; set one planning target"
    refuse (request.clear_scheduled && given planned_week)
        "clear_scheduled cannot be combined with planned_week; set the desired target only"
    refuse (request.clear_planned_week && given scheduled)
        "clear_planned_week cannot be combined with scheduled; set the desired target only"
    ok (record request {
      body = body;
      due = due;
      scheduled = scheduled;
      planned_week = planned_week;
      projects = projects;
    })

  -- Against the profile: the updates
  unfoldable pub checked_updates : TaskNotesProfile → UpdateRequest → Result EngineError Fields
  checked_updates profile request = do
    if_given (open_status profile) request.status
    if_given (validate_priority_value profile) request.priority
    require_field_for_week profile request.planned_week
    custom_fields ← validate_custom_fields texts profile request.custom_fields
    ok (updates_of request custom_fields)
