-- ===== src/Tasknotes/Engine/Deleted.antt =====
-- Every deletion ends in an answer that its record of events explains (`delete` of
-- `TaskNotesEngine`, scripts/tasknotes_mcp_core.py).
use josemar_assistente.Base.{
  String, true, Option, none, some, List, [], ◌∷◌, ◌++◌, ◌≡◌, refl, arith,
}
use josemar_assistente.Base.Json.{Fields}
use josemar_assistente.Base.Result.{err}
use josemar_assistente.Tasknotes.Engine.Effects.{
  EngineError, core_error, profile_incompatible, path_error, git_error, gbrain_error,
  page_not_found, recovery_required, validation_error, other_error, Event, target_clean,
  page_deleted, file_removed, page_gone, if_absent,
}
use josemar_assistente.Tasknotes.Engine.Marks.{
  Silent, Ends, silent_rules, bind-Marks, call-Silent, lift-Silent, pure-Silent, if-Marks,
  attempt-Ends, bind-Ends, pure-Ends, raise-Ends,
}
use josemar_assistente.Tasknotes.Engine.Observed.{
  on_ok-Marks, observe-attempt-Ends, observe-bind-Ends, if_true-Ends,
}
use josemar_assistente.Tasknotes.Engine.Services.{
  TaskNotesProfile, applied_and_committed, Texts, Services,
}
use josemar_assistente.Tasknotes.Engine.Prepare.{Settings}
use josemar_assistente.Tasknotes.Engine.Operations.{Prepared}
use josemar_assistente.Tasknotes.Engine.Operations.Delete.{
  already_deleted, delete_absent, prepare_removal, prepare_deletion, verified_gone, verify_gone,
  not_removed, confirm_removal, remove_task, delete_found, delete,
}
use josemar_assistente.Tasknotes.Engine.Silent.{
  begin-Silent, settle-Silent, resolve_task_path_any-Silent,
}
use josemar_assistente.Tasknotes.Engine.Account.{
  explains_deletion, raised_deletion, deletion_accounted,
}
use josemar_assistente.Tasknotes.Engine.Publish.{resolve_gbrain_slug}
use josemar_assistente.Tasknotes.Engine.Linked.{finish_with_daily_links-Ends}
use josemar_assistente.Tasknotes.Engine.Accounted.{read_page-Silent}
use josemar_assistente.Tasknotes.Engine.Written.{prepare_steps-Silent}

removed_raised :
    (l : List Event) → explains_deletion applied_and_committed l ≡ true → raised_deletion l ≡ true
removed_raised (page_gone ∷ file_removed ∷ page_deleted ∷ target_clean ∷ []) h = refl
removed_raised l h = ground arith

-- The page is deleted and the file removed.
abbrev gone : List Event
gone = file_removed ∷ page_deleted ∷ target_clean ∷ []

module _ {W Document Plan Projection : Type 0} (services : Services W Document Plan Projection)
    (texts : Texts) (settings : Settings) where
  already_deleted-Ends :
      (slug : String) (e : EngineError)
      → Ends deletion_accounted [] (already_deleted services texts settings slug e)
  already_deleted-Ends slug (page_not_found s) = pure-Ends _ refl
  already_deleted-Ends slug (core_error s) = raise-Ends _ refl
  already_deleted-Ends slug (profile_incompatible s) = raise-Ends _ refl
  already_deleted-Ends slug (path_error s) = raise-Ends _ refl
  already_deleted-Ends slug (git_error s) = raise-Ends _ refl
  already_deleted-Ends slug (gbrain_error s) = raise-Ends _ refl
  already_deleted-Ends slug (recovery_required s) = raise-Ends _ refl
  already_deleted-Ends slug (validation_error s) = raise-Ends _ refl
  already_deleted-Ends slug (other_error s) = raise-Ends _ refl

  not_removed-Ends :
      (slug : String) (e : EngineError)
      → Ends deletion_accounted
          (page_deleted ∷ target_clean ∷ [])
          (not_removed services texts settings slug e)
  not_removed-Ends slug (git_error s) = pure-Ends _ refl
  not_removed-Ends slug (core_error s) = raise-Ends _ refl
  not_removed-Ends slug (profile_incompatible s) = raise-Ends _ refl
  not_removed-Ends slug (path_error s) = raise-Ends _ refl
  not_removed-Ends slug (page_not_found s) = raise-Ends _ refl
  not_removed-Ends slug (gbrain_error s) = raise-Ends _ refl
  not_removed-Ends slug (recovery_required s) = raise-Ends _ refl
  not_removed-Ends slug (validation_error s) = raise-Ends _ refl
  not_removed-Ends slug (other_error s) = raise-Ends _ refl

  module _ (profile : TaskNotesProfile) (slug : String) where
    delete_absent-Ends :
        Ends deletion_accounted [] (delete_absent services texts settings profile slug)
    unfolding delete_absent
    delete_absent-Ends =
        attempt-Ends (call-Silent _) (already_deleted-Ends slug) (λ page. raise-Ends _ refl)

    prepare_removal-Silent :
        (old : Option String) → Silent (prepare_removal services texts settings profile slug old)
    unfolding prepare_removal
    prepare_removal-Silent none = search silent_rules
    prepare_removal-Silent (some old) = prepare_steps-Silent services texts settings profile slug _

    prepare_deletion-Silent : Silent (prepare_deletion services texts settings profile slug)
    unfolding prepare_deletion
    prepare_deletion-Silent =
        if-Marks settings.daily_links_enabled
          (bind-Marks (read_page-Silent services texts settings profile slug)
            (λ current. prepare_removal-Silent _))
          (pure-Silent _)

    verified_gone-Ends :
        (commit_id : Option String) (prepared : Prepared Projection) (e : EngineError)
        → Ends deletion_accounted
            (if_absent {A = Fields} page_gone (resolve_gbrain_slug profile slug) (err e) ++ gone)
            (verified_gone services texts settings profile slug commit_id prepared e)
    verified_gone-Ends commit_id prepared (page_not_found s) =
        finish_with_daily_links-Ends services profile explains_deletion raised_deletion
          removed_raised settings prepared.projections prepared.config _ (page_gone ∷ gone) refl
    verified_gone-Ends commit_id prepared (core_error s) = raise-Ends _ refl
    verified_gone-Ends commit_id prepared (profile_incompatible s) = raise-Ends _ refl
    verified_gone-Ends commit_id prepared (path_error s) = raise-Ends _ refl
    verified_gone-Ends commit_id prepared (git_error s) = raise-Ends _ refl
    verified_gone-Ends commit_id prepared (gbrain_error s) = raise-Ends _ refl
    verified_gone-Ends commit_id prepared (recovery_required s) = raise-Ends _ refl
    verified_gone-Ends commit_id prepared (validation_error s) = raise-Ends _ refl
    verified_gone-Ends commit_id prepared (other_error s) = raise-Ends _ refl

    verify_gone-Ends :
        (prepared : Prepared Projection) (commit_id : Option String)
        → Ends deletion_accounted gone
            (verify_gone services texts settings profile slug prepared commit_id)
    unfolding verify_gone
    verify_gone-Ends prepared commit_id =
        observe-attempt-Ends _ _ _ _ (verified_gone-Ends commit_id prepared)
          (λ page. pure-Ends _ refl)

    remove_task-Ends :
        (target : String) (prepared : Prepared Projection)
        → Ends deletion_accounted
            (target_clean ∷ [])
            (remove_task services texts settings profile slug target prepared)
    unfolding remove_task confirm_removal
    remove_task-Ends target prepared =
        bind-Ends (on_ok-Marks page_deleted _ _) (λ e. refl)
          (λ u. attempt-Ends (on_ok-Marks file_removed _ _) (not_removed-Ends slug) (λ v.
            bind-Ends (call-Silent _) (λ e. refl)
              (λ x.
                attempt-Ends (call-Silent _) (λ e. pure-Ends _ refl) (verify_gone-Ends prepared))))

  delete_found-Ends :
      (verified : TaskNotesProfile) (slug : String) (target : Option String)
      → Ends deletion_accounted [] (delete_found services texts settings verified slug target)
  unfolding delete_found
  delete_found-Ends verified slug none = delete_absent-Ends verified slug
  delete_found-Ends verified slug (some target) =
      observe-bind-Ends _ _ _ _ (λ e. refl)
        (λ is_clean. if_true-Ends target_clean target is_clean _ refl (
          bind-Ends (settle-Silent services settings verified) (λ e. refl)
            (λ profile.
              bind-Ends (prepare_deletion-Silent profile slug) (λ e. refl)
                (λ prepared. remove_task-Ends profile slug target prepared))))

  pub delete-Ends :
      (slug : String) → Ends deletion_accounted [] (delete services texts settings slug)
  unfolding delete
  delete-Ends slug =
      bind-Ends (lift-Silent _) (λ e. refl)
        (λ u.
          bind-Ends (begin-Silent services) (λ e. refl)
            (λ profile.
              bind-Ends (call-Silent _) (λ e. refl)
                (λ verified.
                  bind-Ends (resolve_task_path_any-Silent services verified slug) (λ e. refl)
                    (λ target. delete_found-Ends verified slug target))))
