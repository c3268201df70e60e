-- ===== src/Tasknotes/Engine/Publish.antt =====
-- From the capture on: the capture itself, the check of what it left, the commit, and the recovery
-- (`_handle_post_capture`, `_recover_from_disk_failure`, `_reconcile_after_capture_failure` and
-- `_verify_readback` of `TaskNotesEngine`, scripts/tasknotes_mcp_core.py).
use josemar_assistente.Base.{
  String, Bool, true, false, not, ◌&&◌, str_eq, Option, none, some, if◌then◌else◌,
}
use Prim.Native.String.{◌++◌ as ◌<>◌}
use josemar_assistente.Base.Fields.{get}
use josemar_assistente.Base.Json.{Json, bool, Fields}
use josemar_assistente.Tasknotes.Engine.Effects.{
  core_error, captured, verified, committed, clean, synced_full, marker_tried, M, pure, lift, call,
  attempt, ◌>>=◌, ◌>>◌, note_if, guard, on_ok, tried, if_true, observe,
}
use josemar_assistente.Tasknotes.Engine.Services.{
  TaskNotesProfile, MutationState, applied_and_committed, applied_uncommitted,
  db_updated_disk_failed, recovery_required, MutationResult, Services,
}

-- `MutationResult(state=state, slug=slug)`
abbrev pub result_of : MutationState → String → MutationResult
result_of state slug = record {
  state = state;
  slug = slug;
  commit_id = none;
  detail = none;
  daily_link_state = none;
  daily_link_detail = none;
  daily_link_dates = none;
}

abbrev pub resolve_gbrain_slug : TaskNotesProfile → String → String
resolve_gbrain_slug profile slug = profile.tasks_folder <> "/" <> slug

-- The path of the task in a folder, relative to the vault
abbrev pub task_path : String → String → String
task_path folder slug = folder <> "/" <> slug <> ".md"

-- `capture_result.get("written", False)`, false unless it is a Boolean
abbrev pub written_flag : Option Json → Bool
written_flag (some (bool b)) = b
written_flag value = false

module _ {W Document Plan Projection : Type 0}
    (services : Services W Document Plan Projection) where
  open services use {
    write_marker, git_target_clean, git_commit_target, git_head_id, target_exists_no_follow,
    gbrain_sync_full, gbrain_get_page, gbrain_capture, semantic_from_gbrain, semantic_from_disk,
    semantic_documents_agree,
  }

  unfoldable pub archived_path : Option String → Bool → String → M W (Option String)
  archived_path (some folder) true slug = do
    there ← call (target_exists_no_follow (task_path folder slug))
    pure (if there && not (str_eq folder "") then some (task_path folder slug) else none)
  archived_path folder moves slug = pure none

  unfoldable pub resolve_task_path_any : TaskNotesProfile → String → M W (Option String)
  resolve_task_path_any profile slug = do
    primary ← call (target_exists_no_follow (task_path profile.tasks_folder slug))
    if primary
        then pure (some (task_path profile.tasks_folder slug))
        else archived_path profile.archive_folder profile.move_archived_tasks slug

  abbrev pub get_page : TaskNotesProfile → String → M W Fields
  get_page profile slug =
      call (gbrain_get_page (resolve_gbrain_slug profile slug) profile.source_id)

  abbrev pub is_expected : TaskNotesProfile → Document → Option Document → Bool
  is_expected profile document none = true
  is_expected profile document (some expected) = semantic_documents_agree document expected profile

  unfoldable pub verify_readback : TaskNotesProfile → String → Option Document → M W (Unit {0})
  verify_readback profile slug expected = do
    page ← get_page profile slug
    document ← lift (semantic_from_gbrain page profile)
    on_disk ← call (semantic_from_disk profile slug)
    guard (semantic_documents_agree document on_disk profile)
        (core_error "read-back semantic mismatch between gbrain and disk")
    guard (is_expected profile document expected)
        (core_error "read-back does not match the intended task document")
    note_if
        (semantic_documents_agree document on_disk profile && is_expected profile document expected)
        verified

  -- A marker that cannot be written is passed over.
  unfoldable pub write_recovery_marker : M W (Unit {0})
  write_recovery_marker =
      attempt (observe (tried marker_tried) (λ u. write_marker) tt) (λ e. pure tt) (λ u. pure tt)

  unfoldable pub require_recovery : String → M W MutationResult
  require_recovery slug = write_recovery_marker >> pure (result_of recovery_required slug)

  unfoldable pub recover_from_disk_failure : TaskNotesProfile → String → M W MutationResult
  recover_from_disk_failure profile slug =
      attempt (observe (on_ok synced_full) gbrain_sync_full profile.source_id)
        (λ e. require_recovery slug)
        (λ u.
          attempt (verify_readback profile slug none) (λ e. require_recovery slug)
            (λ u. pure (result_of db_updated_disk_failed slug)))

  unfoldable pub commit_facts : String → M W (Bool × Option String)
  commit_facts target = do
    is_clean ← observe (if_true clean) git_target_clean target
    commit_id ← call git_head_id
    pure (is_clean, commit_id)

  -- The target after the commit, and the commit's id
  unfoldable pub check_committed : String → String → M W MutationResult
  check_committed slug target =
      attempt (commit_facts target) (λ e. pure (result_of applied_uncommitted slug))
        (λ r.
          if r.0
          then pure (record (result_of applied_and_committed slug) { commit_id = r.1 })
          else pure (result_of applied_uncommitted slug))

  abbrev pub or_primary : TaskNotesProfile → String → Option String → String
  or_primary profile slug none = task_path profile.tasks_folder slug
  or_primary profile slug (some target) = target

  unfoldable pub commit_target : TaskNotesProfile → String → M W MutationResult
  commit_target profile slug = do
    found ← resolve_task_path_any profile slug
    attempt (observe (on_ok committed) git_commit_target (or_primary profile slug found))
        (λ e. pure (result_of applied_uncommitted slug))
        (λ u. check_committed slug (or_primary profile slug found))

  unfoldable pub handle_post_capture :
      TaskNotesProfile → String → Fields → Option Document → M W MutationResult
  handle_post_capture profile slug capture_result expected =
      if written_flag (get "written" capture_result)
      then attempt (verify_readback profile slug expected)
          (λ e. recover_from_disk_failure profile slug) (λ u. commit_target profile slug)
      else recover_from_disk_failure profile slug

  unfoldable pub reconcile_after_capture_failure :
      TaskNotesProfile → String → Document → M W MutationResult
  reconcile_after_capture_failure profile slug expected =
      attempt (verify_readback profile slug (some expected))
        (λ e.
          write_recovery_marker
          >> pure (record (result_of recovery_required slug) {
            detail = some "capture invocation failed";
          }))
        (λ u. pure (result_of applied_uncommitted slug))

  -- `gbrain_capture` within its `try`, and what follows it
  unfoldable pub capture_task : TaskNotesProfile → String → String → Document → M W MutationResult
  capture_task profile slug markdown expected =
      attempt
        (observe (tried captured)
          (gbrain_capture (resolve_gbrain_slug profile slug) profile.source_id) markdown)
        (λ e. reconcile_after_capture_failure profile slug expected)
        (λ capture_result. handle_post_capture profile slug capture_result (some expected))
