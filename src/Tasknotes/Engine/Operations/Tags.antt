-- ===== src/Tasknotes/Engine/Operations/Tags.antt =====
-- `complete`, `archive`, `add_tag` and `remove_tag` of `TaskNotesEngine`
-- (scripts/tasknotes_mcp_core.py). Messages are shortened.
use josemar_assistente.Base.{
  String, Bool, false, not, Option, none, some, List, [], ◌∷◌, keep_if, length, contains, ltb,
  str_eq, if◌then◌else◌,
}
use josemar_assistente.Base.Order.{sort}
use josemar_assistente.Base.Json.{Json, str, arr, Fields, end, field}
use josemar_assistente.Base.Fields.{get}
use josemar_assistente.Tasknotes.Engine.Effects.{
  EngineError, gbrain_error, page_not_found, validation_error, untagged, M, pure, raise, lift, call,
  attempt, ◌>>=◌, ◌>>◌, guard, on_ok, observe,
}
use josemar_assistente.Tasknotes.Engine.Services.{
  TaskNotesProfile, MutationResult, not_applied, Texts, Services,
}
use josemar_assistente.Tasknotes.Engine.Validate.{
  refuse, if_given, validate_slug, validate_date, validate_tag_value,
}
use josemar_assistente.Tasknotes.Engine.Page.{items_of, mapped}
use josemar_assistente.Tasknotes.Engine.Publish.{result_of, resolve_gbrain_slug}
use josemar_assistente.Tasknotes.Engine.Prepare.{Settings, begin, settle}
use josemar_assistente.Tasknotes.Engine.Operations.{
  Current, settled_profile, read_page, guarded_change, capture_change, rewrite_task,
}

-- `value == status`, where the value may be absent
abbrev pub is_text : Option Json → String → Bool
is_text (some (str s)) text = str_eq s text
is_text value text = false

-- `set(xs)` as the elements without repetition
unfoldable pub unique : List String → List String
unique [] = []
unique (x ∷ xs) = let rest = unique xs in if contains x rest then rest else x ∷ rest

-- `sorted(set(tags) | {tag})` and `sorted(set(tags) - {tag})`
abbrev pub with_tag : String → List String → List String
with_tag tag tags = sort (unique (tag ∷ tags))

abbrev pub without_tag : String → List String → List String
without_tag tag tags = sort (keep_if (λ x. not (str_eq x tag)) (unique tags))

abbrev pub tags_update : List String → Fields
tags_update tags = field "tags" (arr (items_of tags)) end

-- `except GbrainError: pass`
abbrev pub passes_gbrain_error : {W : Type 0} → EngineError → M W (Unit {0})
passes_gbrain_error (gbrain_error s) = pure tt
passes_gbrain_error (page_not_found s) = pure tt
passes_gbrain_error e = raise e

module _ {W Document Plan Projection : Type 0} (services : Services W Document Plan Projection)
    (texts : Texts) (settings : Settings) where
  open services use {today_in_tz, gbrain_untag, verify_gbrain_source}

  unfoldable pub final_date : Option String → M W String
  final_date none = call today_in_tz
  final_date (some date) = pure date

  unfoldable pub complete_current :
      TaskNotesProfile → String → Option String → Current → M W MutationResult
  complete_current profile slug date current =
      if is_text (get (mapped profile "status") current.page.frontmatter) profile.completed_status
      then pure (result_of not_applied slug)
      else (do
        day ← final_date date
        rewrite_task services texts settings profile slug current
            (field "status" (str profile.completed_status) (field "completedDate" (str day) end)))

  unfoldable pub complete : String → Option String → M W MutationResult
  complete slug completion_date = do
    lift (validate_slug texts slug)
    date ← lift (if_given (validate_date texts) completion_date)
    profile ← settled_profile services texts settings
    current ← read_page services texts settings profile slug
    complete_current profile slug date current

  unfoldable pub archive_current : TaskNotesProfile → String → Current → M W MutationResult
  archive_current profile slug current =
      if contains profile.archive_tag current.page.tags
      then pure (result_of not_applied slug)
      else rewrite_task services texts settings profile slug current
          (tags_update (with_tag profile.archive_tag current.page.tags))

  unfoldable pub archive : String → M W MutationResult
  archive slug = do
    lift (validate_slug texts slug)
    profile ← settled_profile services texts settings
    current ← read_page services texts settings profile slug
    archive_current profile slug current

  -- The start of `add_tag` and `remove_tag`: the task tag and the archive tag are refused.
  unfoldable pub settled_for_tag : String → M W TaskNotesProfile
  settled_for_tag tag = do
    profile ← begin services
    guard (not (str_eq tag profile.task_tag))
        (validation_error "cannot change the task-identification tag")
    guard (not (str_eq tag profile.archive_tag)) (validation_error "cannot change the archive tag")
    verified ← call (verify_gbrain_source profile)
    settle services settings verified

  unfoldable pub add_to_current : TaskNotesProfile → String → String → Current → M W MutationResult
  add_to_current profile slug tag current =
      if contains tag current.page.tags then pure (result_of not_applied slug) else (do
        lift (
            refuse (ltb 50 (length (tag ∷ current.page.tags)))
              "adding the tag would exceed the tag count bound")
        rewrite_task services texts settings profile slug current
            (tags_update (with_tag tag current.page.tags)))

  unfoldable pub add_tag : String → String → M W MutationResult
  add_tag slug given = do
    lift (validate_slug texts slug)
    tag ← lift (validate_tag_value texts given)
    profile ← settled_for_tag tag
    current ← read_page services texts settings profile slug
    add_to_current profile slug tag current

  -- gbrain's own tag goes first, as well as it can.
  unfoldable pub untag : TaskNotesProfile → String → String → M W (Unit {0})
  untag profile slug tag =
      attempt
        (observe (on_ok untagged)
          (λ name. gbrain_untag (resolve_gbrain_slug profile slug) name profile.source_id) tag)
        passes_gbrain_error (λ u. pure tt)

  unfoldable pub remove_from_current :
      TaskNotesProfile → String → String → Current → M W MutationResult
  remove_from_current profile slug tag current =
      if contains tag current.page.tags
      then (do
        change ←
            guarded_change services texts settings profile slug current
              (tags_update (without_tag tag current.page.tags)) none
        untag profile slug tag
        capture_change services texts settings profile slug change)
      else pure (result_of not_applied slug)

  unfoldable pub remove_tag : String → String → M W MutationResult
  remove_tag slug given = do
    lift (validate_slug texts slug)
    tag ← lift (validate_tag_value texts given)
    profile ← settled_for_tag tag
    current ← read_page services texts settings profile slug
    remove_from_current profile slug tag current
