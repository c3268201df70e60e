-- ===== src/Tasknotes/Engine/Prepare.antt =====
-- What runs before a capture (`_check_recovery_marker`, `_run_reconciliation`, `_maybe_reconcile`,
-- `_preflight`, `_verify_profile_stable`, `_create_pre_capture_guard` and
-- `_mutation_pre_capture_guard` of `TaskNotesEngine`, scripts/tasknotes_mcp_core.py).
use josemar_assistente.Base.{
  String, Bool, true, false, not, ◌&&◌, Option, none, some, str_eq, if◌then◌else◌,
}
use josemar_assistente.Tasknotes.Reconcile.Compose.{DailyNotesConfig}
use josemar_assistente.Tasknotes.Engine.Effects.{
  EngineError, profile_incompatible, recovery_required, validation_error, page_not_found,
  target_clean, profile_same, file_absent, page_absent, M, pure, raise, call, attempt, ◌>>=◌, ◌>>◌,
  note_if, guard, if_true, if_false, if_absent, observe,
}
use josemar_assistente.Tasknotes.Engine.Services.{TaskNotesProfile, Services}
use josemar_assistente.Tasknotes.Engine.Publish.{
  resolve_gbrain_slug, task_path, resolve_task_path_any,
}

-- The switches of the engine, and what `_reconcile_active` is made of
pub record Settings : Type 0 where
  pub daily_links_enabled : Bool
  pub reconcile_enabled : Bool

abbrev pub reconcile_active : Settings → Bool
reconcile_active settings = settings.daily_links_enabled && settings.reconcile_enabled

-- `a != b` on the source ids
abbrev same_source : Option String → Option String → Bool
same_source none none = true
same_source (some a) (some b) = str_eq a b
same_source a b = false

-- `except GbrainPageNotFound: pass`
abbrev pub passes_not_found : {W : Type 0} → EngineError → M W (Unit {0})
passes_not_found (page_not_found s) = pure tt
passes_not_found e = raise e

module _ {W Document Plan Projection : Type 0}
    (services : Services W Document Plan Projection) where
  open services use {
    marker_exists, load_profile, verify_gbrain_source, check_git_state, git_preflight_commit,
    git_target_clean, lstat_exists, gbrain_get_page, gbrain_sync_incremental,
    load_daily_notes_config, prepare_reconciliation, apply_reconciliation, finalize_reconciliation,
  }

  unfoldable pub check_recovery_marker : M W (Unit {0})
  check_recovery_marker = do
    present ← call marker_exists
    guard (not present)
        (recovery_required "recovery marker present; mutations blocked until operator recovery")

  unfoldable pub run_reconciliation : TaskNotesProfile → M W DailyNotesConfig
  run_reconciliation profile = do
    config ← call load_daily_notes_config
    plan ← call (prepare_reconciliation profile config)
    call (apply_reconciliation profile config plan)
    call (gbrain_sync_incremental profile.source_id)
    call (finalize_reconciliation config)
    pure config

  unfoldable pub maybe_reconcile : Settings → TaskNotesProfile → M W (Unit {0})
  maybe_reconcile settings profile =
      if reconcile_active settings then run_reconciliation profile >> pure tt else pure tt

  unfoldable pub preflight : TaskNotesProfile → M W (Unit {0})
  preflight profile = do
    call check_git_state
    call git_preflight_commit
    call (gbrain_sync_incremental profile.source_id)

  unfoldable pub verify_profile_stable : String → M W TaskNotesProfile
  verify_profile_stable original_hash = do
    current ← call load_profile
    guard (str_eq current.profile_hash original_hash)
        (profile_incompatible "TaskNotes profile drifted during operation")
    pure current

  -- The profile, reread and verified again
  unfoldable pub reread_profile : String → M W TaskNotesProfile
  reread_profile original_hash = do
    stable ← verify_profile_stable original_hash
    call (verify_gbrain_source stable)

  -- From the verified profile to the one after the preflight
  unfoldable pub settle : Settings → TaskNotesProfile → M W TaskNotesProfile
  settle settings profile = do
    maybe_reconcile settings profile
    preflight profile
    reread_profile profile.profile_hash

  -- The start of an operation, under the lock
  unfoldable pub begin : M W TaskNotesProfile
  begin = check_recovery_marker >> call load_profile

  unfoldable pub page_is_absent : TaskNotesProfile → String → M W (Unit {0})
  page_is_absent profile slug =
      attempt
        (observe (if_absent page_absent) (λ page. gbrain_get_page page profile.source_id)
          (resolve_gbrain_slug profile slug))
        passes_not_found
        (λ page. raise (validation_error "create target already exists in gbrain DB"))

  unfoldable pub create_pre_capture_guard : TaskNotesProfile → String → M W (Unit {0})
  create_pre_capture_guard profile slug = do
    there ← observe (if_false file_absent) lstat_exists (task_path profile.tasks_folder slug)
    guard (not there) (validation_error "create target already exists on disk")
    page_is_absent profile slug

  unfoldable pub target_is_clean : Option String → M W (Unit {0})
  target_is_clean none = raise (validation_error "target does not exist on disk")
  target_is_clean (some target) = do
    is_clean ← observe (if_true target_clean) git_target_clean target
    guard is_clean (validation_error "target has uncommitted changes")

  unfoldable pub mutation_pre_capture_guard : TaskNotesProfile → String → M W (Unit {0})
  mutation_pre_capture_guard profile slug = do
    target ← resolve_task_path_any services profile slug
    target_is_clean target
    current ← call load_profile
    guard (str_eq current.profile_hash profile.profile_hash)
        (profile_incompatible "TaskNotes profile drifted before capture")
    verified ← call (verify_gbrain_source current)
    guard (same_source verified.source_id profile.source_id)
        (profile_incompatible "gbrain source routing drifted before capture")
    note_if
        (str_eq current.profile_hash profile.profile_hash
          && same_source verified.source_id profile.source_id)
        profile_same
