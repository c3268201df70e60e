-- ===== src/Tasknotes/Engine/Operations/Delete.antt =====
-- `delete` of `TaskNotesEngine` (scripts/tasknotes_mcp_core.py).
use josemar_assistente.Base.{String, Option, none, some, if◌then◌else◌}
use josemar_assistente.Base.Fields.{get}
use josemar_assistente.Tasknotes.Engine.Effects.{
  EngineError, core_error, git_error, page_not_found, validation_error, target_clean, page_deleted,
  file_removed, page_gone, M, pure, raise, lift, call, attempt, ◌>>=◌, ◌>>◌, guard, on_ok, if_true,
  if_absent, observe,
}
use josemar_assistente.Tasknotes.Engine.Services.{
  TaskNotesProfile, MutationState, not_applied, applied_and_committed, applied_uncommitted,
  recovery_required, MutationResult, Texts, Services,
}
use josemar_assistente.Tasknotes.Engine.Validate.{validate_slug}
use josemar_assistente.Tasknotes.Engine.Page.{mapped, daily_scheduled_date}
use josemar_assistente.Tasknotes.Engine.Publish.{
  result_of, resolve_gbrain_slug, get_page, resolve_task_path_any,
}
use josemar_assistente.Tasknotes.Engine.Prepare.{Settings, begin, settle}
use josemar_assistente.Tasknotes.Engine.Links.{daily_link_plan, steps_of, finish_with_daily_links}
use josemar_assistente.Tasknotes.Engine.Operations.{Prepared, unprepared, read_page, prepare_steps}

abbrev pub detailed : MutationState → String → String → MutationResult
detailed state slug detail = record (result_of state slug) { detail = some detail }

module _ {W Document Plan Projection : Type 0} (services : Services W Document Plan Projection)
    (texts : Texts) (settings : Settings) where
  open services use {
    verify_gbrain_source, git_target_clean, git_rm_and_commit, make_parent, git_head_id,
    gbrain_delete, gbrain_get_page,
  }

  -- The file is gone: the page has to be gone as well.
  abbrev pub already_deleted : String → EngineError → M W MutationResult
  already_deleted slug (page_not_found s) = pure (detailed not_applied slug "task already deleted")
  already_deleted slug e = raise e

  unfoldable pub delete_absent : TaskNotesProfile → String → M W MutationResult
  delete_absent profile slug =
      attempt (get_page services profile slug) (already_deleted slug)
        (λ page. raise (core_error "task exists in gbrain but file is missing on disk"))

  unfoldable pub prepare_removal :
      TaskNotesProfile → String → Option String → M W (Prepared Projection)
  prepare_removal profile slug none = pure unprepared
  prepare_removal profile slug (some old) =
      prepare_steps services texts settings profile slug
        (steps_of (daily_link_plan (some old) none))

  unfoldable pub prepare_deletion : TaskNotesProfile → String → M W (Prepared Projection)
  prepare_deletion profile slug =
      if settings.daily_links_enabled
      then (do
        current ← read_page services texts settings profile slug
        prepare_removal profile slug (
            daily_scheduled_date texts.denormalize_bare_date texts.ends_line texts.is_date
              (get (mapped profile "scheduled") current.page.frontmatter)))
      else pure unprepared

  abbrev pub verified_gone :
      TaskNotesProfile
      → String
      → Option String
      → Prepared Projection
      → EngineError
      → M W MutationResult
  verified_gone profile slug commit_id prepared (page_not_found s) =
      finish_with_daily_links services settings profile prepared.projections prepared.config
        (record (result_of applied_and_committed slug) { commit_id = commit_id })
  verified_gone profile slug commit_id prepared e = raise e

  -- gbrain has to say now that the page is not there.
  unfoldable pub verify_gone :
      TaskNotesProfile → String → Prepared Projection → Option String → M W MutationResult
  verify_gone profile slug prepared commit_id =
      attempt
        (observe (if_absent page_gone) (λ page. gbrain_get_page page profile.source_id)
          (resolve_gbrain_slug profile slug))
        (verified_gone profile slug commit_id prepared)
        (λ page. pure (detailed recovery_required slug "gbrain delete did not take effect"))

  abbrev pub not_removed : String → EngineError → M W MutationResult
  not_removed slug (git_error s) =
      pure (detailed recovery_required slug "gbrain deleted but git rm failed")
  not_removed slug e = raise e

  unfoldable pub confirm_removal :
      TaskNotesProfile → String → String → Prepared Projection → M W MutationResult
  confirm_removal profile slug target prepared = do
    call (make_parent target)
    attempt (call git_head_id) (λ e. pure (result_of applied_uncommitted slug))
        (verify_gone profile slug prepared)

  -- From the deletion in gbrain on
  unfoldable pub remove_task :
      TaskNotesProfile → String → String → Prepared Projection → M W MutationResult
  remove_task profile slug target prepared = do
    observe (on_ok page_deleted) (λ page. gbrain_delete page profile.source_id)
        (resolve_gbrain_slug profile slug)
    attempt (observe (on_ok file_removed) git_rm_and_commit target) (not_removed slug)
        (λ u. confirm_removal profile slug target prepared)

  unfoldable pub delete_found : TaskNotesProfile → String → Option String → M W MutationResult
  delete_found verified slug none = delete_absent verified slug
  delete_found verified slug (some target) = do
    is_clean ← observe (if_true target_clean) git_target_clean target
    guard is_clean (validation_error "target has uncommitted changes")
    profile ← settle services settings verified
    prepared ← prepare_deletion profile slug
    remove_task profile slug target prepared

  unfoldable pub delete : String → M W MutationResult
  delete slug = do
    lift (validate_slug texts slug)
    profile ← begin services
    verified ← call (verify_gbrain_source profile)
    target ← resolve_task_path_any services verified slug
    delete_found verified slug target
