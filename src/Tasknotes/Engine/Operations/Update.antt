-- ===== src/Tasknotes/Engine/Operations/Update.antt =====
-- `update` of `TaskNotesEngine` (scripts/tasknotes_mcp_core.py).
use josemar_assistente.Base.{
  String, Bool, true, false, ◌&&◌, not, Option, none, some, List, if◌then◌else◌,
}
use josemar_assistente.Base.Fields.{get, has_key}
use josemar_assistente.Base.Json.{Json, Fields, end}
use josemar_assistente.Tasknotes.Engine.Effects.{
  validation_error, M, pure, lift, call, ◌>>=◌, ◌>>◌, guard,
}
use josemar_assistente.Tasknotes.Engine.Services.{
  TaskNotesProfile, MutationResult, not_applied, Texts, Services,
}
use josemar_assistente.Tasknotes.Engine.Validate.{validate_slug}
use josemar_assistente.Tasknotes.Engine.Page.{mapped, daily_scheduled_date}
use josemar_assistente.Tasknotes.Engine.Requests.{
  UpdateRequest, given, checked_update, checked_updates,
}
use josemar_assistente.Tasknotes.Engine.Publish.{result_of}
use josemar_assistente.Tasknotes.Engine.Prepare.{Settings, begin, settle}
use josemar_assistente.Tasknotes.Engine.Links.{Step, daily_link_plan, finish_with_daily_links}
use josemar_assistente.Tasknotes.Engine.Operations.{
  Current, Prepared, unprepared, read_page, guarded_change, capture_change, prepare_steps,
}
use josemar_assistente.Tasknotes.Engine.Operations.Tags.{is_text}

abbrev pub is_empty : Fields → Bool
is_empty end = true
is_empty fs = false

module _ {W Document Plan Projection : Type 0} (services : Services W Document Plan Projection)
    (texts : Texts) (settings : Settings) where
  open services use {verify_gbrain_source}

  abbrev scheduled_date : Option Json → Option String
  scheduled_date value =
      daily_scheduled_date texts.denormalize_bare_date texts.ends_line texts.is_date value

  unfoldable pub prepare_plan :
      TaskNotesProfile → String → Option (List Step) → M W (Prepared Projection)
  prepare_plan profile slug none = pure unprepared
  prepare_plan profile slug (some steps) = prepare_steps services texts settings profile slug steps

  -- Only an update of `scheduled` has daily notes follow it.
  unfoldable pub prepare_update :
      TaskNotesProfile → String → Current → Fields → M W (Prepared Projection)
  prepare_update profile slug current updates =
      if settings.daily_links_enabled && has_key "scheduled" updates
      then prepare_plan profile slug (
          daily_link_plan
            (scheduled_date (get (mapped profile "scheduled") current.page.frontmatter))
            (scheduled_date (get "scheduled" updates)))
      else pure unprepared

  unfoldable pub write_update :
      TaskNotesProfile → String → Option String → Current → Fields → M W MutationResult
  write_update profile slug body current updates = do
    prepared ← prepare_update profile slug current updates
    change ← guarded_change services texts settings profile slug current updates body
    capture_change services texts settings profile slug change
        >>= finish_with_daily_links services settings profile prepared.projections prepared.config

  unfoldable pub update_current :
      TaskNotesProfile → String → Option String → Fields → Current → M W MutationResult
  update_current profile slug body updates current = do
    guard
        (not (
          is_text (get (mapped profile "status") current.page.frontmatter)
            profile.completed_status))
        (validation_error "cannot update a completed task")
    (if is_empty updates && not (given body)
        then pure (result_of not_applied slug)
        else write_update profile slug body current updates)

  unfoldable pub update : String → UpdateRequest → M W MutationResult
  update slug request = do
    lift (validate_slug texts slug)
    checked ← lift (checked_update texts request)
    profile ← begin services
    updates ← lift (checked_updates texts profile checked)
    verified ← call (verify_gbrain_source profile)
    settled ← settle services settings verified
    current ← read_page services texts settings settled slug
    update_current settled slug checked.body updates current
