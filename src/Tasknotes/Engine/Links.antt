-- ===== src/Tasknotes/Engine/Links.antt =====
-- The links in the daily notes that go with an operation on a task (`_daily_link_plan`,
-- `_compose_daily_link_plan_by_target`, `_reject_daily_projection_collision`, and
-- `_prepare_daily_link_projections`, `_run_daily_link_projection` and `_finish_with_daily_links` of
-- `TaskNotesEngine`, scripts/tasknotes_mcp_core.py).
use josemar_assistente.Base.{
  String, Bool, true, false, not, ◌&&◌, ◌||◌, Option, none, some, List, [], ◌∷◌, ◌++◌, map,
  contains, str_eq, if◌then◌else◌,
}
use Prim.Native.String.{◌++◌ as ◌<>◌}
use text.Mathlib.Text.{starts_with}
use josemar_assistente.Tasknotes.Reconcile.Compose.{DailyNotesConfig, Operation, ensure, remove}
use josemar_assistente.Base.Result.{Result, ok, err}
use josemar_assistente.Tasknotes.Engine.Effects.{
  EngineError, core_error, validation_error, is_core_error, Event, note_written, notes_committed,
  notes_synced, M, pure, raise, call, attempt, ◌>>=◌, ◌>>◌, guard, on_ok, observe,
}
use josemar_assistente.Tasknotes.Engine.Services.{
  TaskNotesProfile, MutationState, applied_and_committed, MutationResult, ProjectionOutcome,
  applied, unapplied, conflict, DailyLinkState, link_applied, link_sync_failed, link_conflict,
  link_write_failed, link_commit_failed, link_not_applicable, link_not_applied, Services,
}
use josemar_assistente.Tasknotes.Engine.Prepare.{Settings}

abbrev pub Step : Type 0
Step = Operation × String

abbrev removal_of : Option String → String → List Step
removal_of none new = []
removal_of (some old) new = if str_eq old new then [] else (remove, old) ∷ []

unfoldable pub daily_link_plan : Option String → Option String → Option (List Step)
daily_link_plan old (some new) = some ((ensure, new) ∷ removal_of old new)
daily_link_plan (some old) none = some ((remove, old) ∷ [])
daily_link_plan none none = none

-- `steps or []`
abbrev pub steps_of : Option (List Step) → List Step
steps_of none = []
steps_of (some steps) = steps

-- `if profile.move_archived_tasks and profile.archive_folder`
abbrev pub archive_protected : Bool → Option String → List String
archive_protected true (some folder) = if str_eq folder "" then [] else folder ∷ []
archive_protected moves folder = []

abbrev pub collides : String → List String → Bool
collides target [] = false
collides target (folder ∷ folders) =
    str_eq target folder || starts_with target (folder <> "/") || collides target folders

abbrev pub protected_folders : TaskNotesProfile → List String
protected_folders profile =
    profile.tasks_folder ∷ archive_protected profile.move_archived_tasks profile.archive_folder

unfoldable pub reject_collision : {W : Type 0} → TaskNotesProfile → String → M W (Unit {0})
reject_collision profile target =
    guard (not (collides target (protected_folders profile)))
      (validation_error "daily note projection target collides with the task or archive folder")

-- `_DAILY_LINK_FAILURE_DETAIL`
abbrev pub failure_detail : DailyLinkState → Option String
failure_detail link_conflict = some "daily note projection conflict"
failure_detail link_write_failed = some "daily note projection write failed"
failure_detail link_commit_failed = some "daily note projection commit failed"
failure_detail link_sync_failed = some "daily note projection committed but sync failed"
failure_detail state = none

-- What `_run_daily_link_projection` returns
pub record LinkReport : Type 0 where
  pub link_state : DailyLinkState
  pub link_detail : Option String
  pub link_dates : Option (List String)

abbrev pub report : DailyLinkState → Option String → List String → LinkReport
report state detail dates = record {
  link_state = state;
  link_detail = detail;
  link_dates = some dates;
}

-- `dates or None`
abbrev or_none : List String → Option (List String)
or_none [] = none
or_none dates = some dates

abbrev pub unchanged_report : Option DailyLinkState → List String → LinkReport
unchanged_report none dates = record {
  link_state = link_not_applied;
  link_detail = none;
  link_dates = or_none dates;
}
unchanged_report (some failure) dates = report failure (failure_detail failure) dates

-- A failed step after the write: `partial` is the detail where an earlier projection has failed.
abbrev pub late_report : DailyLinkState → String → Option DailyLinkState → List String → LinkReport
late_report state partial none dates = report state (failure_detail state) dates
late_report state partial (some failure) dates = report state (some partial) dates

abbrev pub synced_report : Option DailyLinkState → List String → LinkReport
synced_report none dates = report link_applied none dates
synced_report (some failure) dates =
    report failure
      (some "daily note projection partially applied; applied targets committed and synced") dates

-- `except CoreError`: the handler runs, and what is no `CoreError` goes on
abbrev pub on_core_error : {W A : Type 0} → M W A → EngineError → M W A
on_core_error handler e = if is_core_error e then handler else raise e

-- The targets that changed, and the failure that ended the loop
abbrev pub Applied : Type 0
Applied = List String × Option DailyLinkState

-- Where an outcome leads: to the rest with the target, or without it, or to the end
abbrev pub next_projection :
    {W : Type 0} → ProjectionOutcome → M W Applied → M W Applied → M W Applied → M W Applied
next_projection applied written skipped failed = written
next_projection unapplied written skipped failed = skipped
next_projection conflict written skipped failed = failed

abbrev pub is_committed : MutationState → Bool
is_committed applied_and_committed = true
is_committed state = false

abbrev pub with_report : MutationResult → LinkReport → MutationResult
with_report result links = record result {
  daily_link_state = some links.link_state;
  daily_link_detail = links.link_detail;
  daily_link_dates = links.link_dates;
}

-- The targets that a commit has been given
abbrev pub commits : {A : Type 0} → List String → Result EngineError A → List Event
commits targets (ok a) = notes_committed targets ∷ []
commits targets (err e) = []

module _ {W Document Plan Projection : Type 0}
    (services : Services W Document Plan Projection) where
  open services use {
    load_daily_notes_config, resolve_daily_note_path, prepare_daily_note_projection,
    projection_date, projection_target, apply_daily_note_projection,
    git_commit_daily_projection_targets, gbrain_sync_incremental,
  }

  unfoldable pub compose_steps : DailyNotesConfig → List String → List Step → M W (List Step)
  compose_steps config seen [] = pure []
  compose_steps config seen (step ∷ steps) = do
    target ← call (resolve_daily_note_path config step.1)
    rest ← compose_steps config (if contains target seen then seen else target ∷ seen) steps
    pure (if contains target seen then rest else step ∷ rest)

  unfoldable pub compose_daily_link_plan_by_target : DailyNotesConfig → List Step → M W (List Step)
  compose_daily_link_plan_by_target config steps = compose_steps config [] steps

  unfoldable pub prepare_daily_link_projections :
      TaskNotesProfile → DailyNotesConfig → String → List Step → M W (List Projection)
  prepare_daily_link_projections profile config slug [] = pure []
  prepare_daily_link_projections profile config slug (step ∷ steps) = do
    target ← call (resolve_daily_note_path config step.1)
    reject_collision profile target
    projection ← call (prepare_daily_note_projection config step.0 step.1 slug)
    rest ← prepare_daily_link_projections profile config slug steps
    pure (projection ∷ rest)

  -- An applied projection has written its target.
  abbrev pub writes : Projection → Result EngineError ProjectionOutcome → List Event
  writes projection (ok applied) = note_written (projection_target projection) ∷ []
  writes projection (ok unapplied) = []
  writes projection (ok conflict) = []
  writes projection (err e) = []

  unfoldable pub apply_one :
      TaskNotesProfile → DailyNotesConfig → Projection → M W ProjectionOutcome
  apply_one profile config projection =
      reject_collision profile (projection_target projection)
      >> observe writes (apply_daily_note_projection config) projection

  -- The loop over the projections, up to the first failure
  unfoldable pub apply_projections :
      TaskNotesProfile → DailyNotesConfig → List Projection → List String → M W Applied
  apply_projections profile config [] changed = pure (changed, none)
  apply_projections profile config (p ∷ ps) changed =
      attempt (apply_one profile config p) (on_core_error (pure (changed, some link_write_failed)))
        (λ outcome.
          next_projection outcome
            (apply_projections profile config ps (changed ++ projection_target p ∷ []))
            (apply_projections profile config ps changed) (pure (changed, some link_conflict)))

  unfoldable pub sync_notes :
      TaskNotesProfile → Option DailyLinkState → List String → M W LinkReport
  sync_notes profile failure dates =
      attempt (observe (on_ok notes_synced) gbrain_sync_incremental profile.source_id)
        (on_core_error (
          pure (
            late_report link_sync_failed "daily note projection partially applied; sync failed"
              failure dates)))
        (λ u. pure (synced_report failure dates))

  unfoldable pub publish_notes : TaskNotesProfile → List String → Applied → M W LinkReport
  publish_notes profile dates ([], failure) = pure (unchanged_report failure dates)
  publish_notes profile dates (t ∷ ts, failure) =
      attempt (observe commits git_commit_daily_projection_targets (t ∷ ts))
        (on_core_error (
          pure (
            late_report link_commit_failed "daily note projection partially applied; commit failed"
              failure dates)))
        (λ u. sync_notes profile failure dates)

  unfoldable pub run_daily_link_projection :
      TaskNotesProfile → DailyNotesConfig → List Projection → M W LinkReport
  run_daily_link_projection profile config projections =
      apply_projections profile config projections []
      >>= publish_notes profile (map projection_date projections)

  unfoldable pub attach_links :
      TaskNotesProfile
      → MutationResult
      → Option (List Projection)
      → Option DailyNotesConfig
      → M W MutationResult
  attach_links profile result none config =
      pure (record result { daily_link_state = some link_not_applicable })
  attach_links profile result (some projections) none =
      raise (core_error "daily link projection config snapshot missing")
  attach_links profile result (some projections) (some config) = do
    links ← run_daily_link_projection profile config projections
    pure (with_report result links)

  unfoldable pub finish_with_daily_links :
      Settings
      → TaskNotesProfile
      → Option (List Projection)
      → Option DailyNotesConfig
      → MutationResult
      → M W MutationResult
  finish_with_daily_links settings profile projections config result =
      if settings.daily_links_enabled && is_committed result.state
      then attach_links profile result projections config
      else pure result
