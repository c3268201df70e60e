-- ===== src/Tasknotes/Engine/Accounted.antt =====
-- Every operation ends in an answer that its record of events explains (`complete`,
-- `archive`, `add_tag` and `remove_tag` of `TaskNotesEngine`, scripts/tasknotes_mcp_core.py).
use josemar_assistente.Base.{String, true, Option, none, some, List, [], ◌∷◌, ◌≡◌, refl, arith}
use josemar_assistente.Base.Json.{Fields}
use josemar_assistente.Tasknotes.Engine.Effects.{
  EngineError, core_error, profile_incompatible, path_error, git_error, gbrain_error,
  page_not_found, recovery_required, validation_error, other_error, Event, target_clean,
  profile_same, file_absent, page_absent, untagged,
}
use josemar_assistente.Tasknotes.Engine.Marks.{
  Account, Silent, Ends, silent_rules, lift-Silent, attempt-Ends, bind-Ends, if-Ends, pure-Ends,
  raise-Ends, then-Ends,
}
use josemar_assistente.Tasknotes.Engine.Observed.{on_ok-Marks}
use josemar_assistente.Tasknotes.Engine.Services.{TaskNotesProfile, Texts, Services}
use josemar_assistente.Tasknotes.Engine.Prepare.{Settings}
use josemar_assistente.Tasknotes.Engine.Operations.{
  Current, settled_profile, read_page, check_markdown, guarded_change, rewrite_task,
}
use josemar_assistente.Tasknotes.Engine.Operations.Tags.{
  final_date, complete_current, complete, archive_current, archive, settled_for_tag, add_to_current,
  add_tag, passes_gbrain_error, untag, remove_from_current, remove_tag,
}
use josemar_assistente.Tasknotes.Engine.Silent.{begin-Silent, settle-Silent}
use josemar_assistente.Tasknotes.Engine.Account.{
  task_events, is_guarded, is_ready, is_raised, guard_account, accounted,
}
use josemar_assistente.Tasknotes.Engine.Guards.{guarded_ready, mutation_pre_capture_guard-Ends}
use josemar_assistente.Tasknotes.Engine.Captured.{capture_task-Ends}

module _ {W Document Plan Projection : Type 0} (services : Services W Document Plan Projection)
    (texts : Texts) (settings : Settings) where
  pub settled_profile-Silent : Silent (settled_profile services texts settings)
  unfolding settled_profile
  settled_profile-Silent = search (silent_rules, begin-Silent, settle-Silent)

  pub read_page-Silent :
      (profile : TaskNotesProfile) (slug : String)
      → Silent (read_page services texts settings profile slug)
  unfolding read_page
  read_page-Silent profile slug = search silent_rules

  pub check_markdown-Silent :
      (profile : TaskNotesProfile) (markdown : String)
      → Silent (check_markdown services texts settings profile markdown)
  unfolding check_markdown
  check_markdown-Silent profile markdown = search silent_rules

  pub guarded_change-Ends :
      (profile : TaskNotesProfile) (slug : String) (current : Current) (updates : Fields)
      (body : Option String)
      → Ends guard_account []
          (guarded_change services texts settings profile slug current updates body)
  unfolding guarded_change
  guarded_change-Ends profile slug current updates body =
      bind-Ends (lift-Silent _) (λ e. refl)
        (λ markdown.
          bind-Ends (check_markdown-Silent profile markdown) (λ e. refl)
            (λ change.
              then-Ends (mutation_pre_capture_guard-Ends services profile slug) (λ e l h. h)
                (λ u l h. pure-Ends _ h)))

  rewrite_task-Ends :
      (profile : TaskNotesProfile) (slug : String) (current : Current) (updates : Fields)
      → Ends accounted [] (rewrite_task services texts settings profile slug current updates)
  unfolding rewrite_task
  rewrite_task-Ends profile slug current updates =
      then-Ends (guarded_change-Ends profile slug current updates none) (λ e l h. h)
        (λ change l h. capture_task-Ends services profile slug l (guarded_ready l h) _ _)

  final_date-Silent : (date : Option String) → Silent (final_date services texts settings date)
  unfolding final_date
  final_date-Silent none = search silent_rules
  final_date-Silent (some date) = search silent_rules

  -- What `complete` answers is explained by the events of its run, whatever the world does.
  pub complete-Ends :
      (slug : String) (date : Option String)
      → Ends accounted [] (complete services texts settings slug date)
  unfolding complete complete_current
  complete-Ends slug date =
      bind-Ends (lift-Silent _) (λ e. refl)
        (λ u.
          bind-Ends (lift-Silent _) (λ e. refl)
            (λ day.
              bind-Ends settled_profile-Silent (λ e. refl)
                (λ profile.
                  bind-Ends (read_page-Silent profile slug) (λ e. refl)
                    (λ current. if-Ends _ (pure-Ends _ refl) (
                      bind-Ends (final_date-Silent day) (λ e. refl)
                        (λ d. rewrite_task-Ends profile slug current _))))))

  pub archive-Ends : (slug : String) → Ends accounted [] (archive services texts settings slug)
  unfolding archive archive_current
  archive-Ends slug =
      bind-Ends (lift-Silent _) (λ e. refl)
        (λ u.
          bind-Ends settled_profile-Silent (λ e. refl)
            (λ profile.
              bind-Ends (read_page-Silent profile slug) (λ e. refl)
                (λ current.
                  if-Ends _ (pure-Ends _ refl) (rewrite_task-Ends profile slug current _))))

  settled_for_tag-Silent : (tag : String) → Silent (settled_for_tag services texts settings tag)
  unfolding settled_for_tag
  settled_for_tag-Silent tag = search (silent_rules, begin-Silent, settle-Silent) depth 8

  add_to_current-Ends :
      (profile : TaskNotesProfile) (slug tag : String) (current : Current)
      → Ends accounted [] (add_to_current services texts settings profile slug tag current)
  unfolding add_to_current
  add_to_current-Ends profile slug tag current =
      if-Ends _ (pure-Ends _ refl)
        (bind-Ends (lift-Silent _) (λ e. refl) (λ u. rewrite_task-Ends profile slug current _))

  pub add_tag-Ends :
      (slug tag : String) → Ends accounted [] (add_tag services texts settings slug tag)
  unfolding add_tag
  add_tag-Ends slug tag =
      bind-Ends (lift-Silent _) (λ e. refl)
        (λ u.
          bind-Ends (lift-Silent _) (λ e. refl)
            (λ name.
              bind-Ends (settled_for_tag-Silent name) (λ e. refl)
                (λ profile.
                  bind-Ends (read_page-Silent profile slug) (λ e. refl)
                    (λ current. add_to_current-Ends profile slug name current))))

  abbrev ready_account : {A : Type 0} → Account A
  ready_account r log = is_ready log

  passes_gbrain_error-Ends :
      (log : List Event)
      → is_ready log ≡ true
      → (e : EngineError) → Ends {W = W} ready_account log (passes_gbrain_error e)
  passes_gbrain_error-Ends log h (core_error s) = raise-Ends _ h
  passes_gbrain_error-Ends log h (profile_incompatible s) = raise-Ends _ h
  passes_gbrain_error-Ends log h (path_error s) = raise-Ends _ h
  passes_gbrain_error-Ends log h (git_error s) = raise-Ends _ h
  passes_gbrain_error-Ends log h (gbrain_error s) = pure-Ends _ h
  passes_gbrain_error-Ends log h (page_not_found s) = pure-Ends _ h
  passes_gbrain_error-Ends log h (recovery_required s) = raise-Ends _ h
  passes_gbrain_error-Ends log h (validation_error s) = raise-Ends _ h
  passes_gbrain_error-Ends log h (other_error s) = raise-Ends _ h

  untag-Ends :
      (profile : TaskNotesProfile) (slug tag : String) (log : List Event)
      → is_guarded log ≡ true
      → Ends ready_account log (untag services texts settings profile slug tag)
  unfolding untag
  untag-Ends profile slug tag log h =
      attempt-Ends (on_ok-Marks untagged _ _) (passes_gbrain_error-Ends log (guarded_ready log h))
        (λ u. pure-Ends _ h)

  pub ready_raised : (l : List Event) → is_ready l ≡ true → is_raised (task_events l) ≡ true
  ready_raised (profile_same ∷ target_clean ∷ []) h = refl
  ready_raised (page_absent ∷ file_absent ∷ []) h = refl
  ready_raised (untagged ∷ profile_same ∷ target_clean ∷ []) h = refl
  ready_raised (untagged ∷ page_absent ∷ file_absent ∷ []) h = refl
  ready_raised l h = ground arith

  remove_from_current-Ends :
      (profile : TaskNotesProfile) (slug tag : String) (current : Current)
      → Ends accounted [] (remove_from_current services texts settings profile slug tag current)
  unfolding remove_from_current
  remove_from_current-Ends profile slug tag current =
      if-Ends _
        (then-Ends (guarded_change-Ends profile slug current _ none) (λ e l h. h)
          (λ change log h.
            then-Ends (untag-Ends profile slug tag log h) (λ e l h. ready_raised l h)
              (λ u l h. capture_task-Ends services profile slug l h _ _)))
        (pure-Ends _ refl)

  pub remove_tag-Ends :
      (slug tag : String) → Ends accounted [] (remove_tag services texts settings slug tag)
  unfolding remove_tag
  remove_tag-Ends slug tag =
      bind-Ends (lift-Silent _) (λ e. refl)
        (λ u.
          bind-Ends (lift-Silent _) (λ e. refl)
            (λ name.
              bind-Ends (settled_for_tag-Silent name) (λ e. refl)
                (λ profile.
                  bind-Ends (read_page-Silent profile slug) (λ e. refl)
                    (λ current. remove_from_current-Ends profile slug name current))))
