-- ===== src/Tasknotes/Engine/Written.antt =====
-- The same for `create` and `update`, which daily notes may follow (`TaskNotesEngine`,
-- scripts/tasknotes_mcp_core.py).
use josemar_assistente.Base.{String, true, Option, none, some, List, [], ◌∷◌, ◌≡◌, refl, arith}
use josemar_assistente.Base.Json.{Fields}
use josemar_assistente.Tasknotes.Engine.Effects.{Event, clean, ◌>>=◌}
use josemar_assistente.Tasknotes.Engine.Marks.{
  if-Marks, Silent, Ends, silent_rules, bind-Marks, call-Silent, guard-Silent, lift-Silent,
  pure-Silent, bind-Ends, if-Ends, pure-Ends, then-Ends, Marks-Ends,
}
use josemar_assistente.Tasknotes.Engine.Services.{
  TaskNotesProfile, applied_and_committed, NewTask, Texts, Services,
}
use josemar_assistente.Tasknotes.Engine.Requests.{CreateRequest, UpdateRequest}
use josemar_assistente.Tasknotes.Engine.Prepare.{Settings}
use josemar_assistente.Tasknotes.Engine.Links.{
  Step, compose_daily_link_plan_by_target, finish_with_daily_links,
}
use josemar_assistente.Tasknotes.Engine.Operations.{
  Current, Change, Prepared, capture_change, prepare_steps,
}
use josemar_assistente.Tasknotes.Engine.Operations.Create.{
  slug_for, prepare_new, guarded_profile, write_new, create,
}
use josemar_assistente.Tasknotes.Engine.Operations.Update.{
  prepare_plan, prepare_update, write_update, update_current, update,
}
use josemar_assistente.Tasknotes.Engine.Silent.{begin-Silent, settle-Silent, reread_profile-Silent}
use josemar_assistente.Tasknotes.Engine.Account.{
  is_ready, explains, is_raised, guard_account, accounted,
}
use josemar_assistente.Tasknotes.Engine.Guards.{guarded_ready, create_pre_capture_guard-Ends}
use josemar_assistente.Tasknotes.Engine.Captured.{capture_task-Ends}
use josemar_assistente.Tasknotes.Engine.Linked.{
  compose_steps-Silent, prepare_daily_link_projections-Silent, finish_with_daily_links-Ends,
}
use josemar_assistente.Tasknotes.Engine.Accounted.{
  check_markdown-Silent, guarded_change-Ends, ready_raised, read_page-Silent,
}

module _ {W Document Plan Projection : Type 0} (services : Services W Document Plan Projection)
    (texts : Texts) (settings : Settings) where
  -- After the capture: the daily notes
  raised_after_clean :
      (l : List Event) → explains applied_and_committed l ≡ true → is_raised l ≡ true
  raised_after_clean (clean ∷ l) h = h
  raised_after_clean l h = ground arith

  pub prepare_steps-Silent :
      (profile : TaskNotesProfile) (slug : String) (steps : List Step)
      → Silent (prepare_steps services texts settings profile slug steps)
  unfolding prepare_steps compose_daily_link_plan_by_target
  prepare_steps-Silent profile slug steps = bind-Marks (call-Silent _) (λ config.
      bind-Marks (compose_steps-Silent services profile config steps []) (λ date_steps.
        bind-Marks (prepare_daily_link_projections-Silent services profile config slug date_steps)
          (λ ps. pure-Silent _)))

  -- The capture and the daily notes after it
  capture_and_finish-Ends :
      (profile : TaskNotesProfile) (slug : String) (change : Change Document)
      (prepared : Prepared Projection) (log : List Event)
      → is_ready log ≡ true
      → Ends accounted log (
          capture_change services texts settings profile slug change
          >>= finish_with_daily_links services settings profile prepared.projections
              prepared.config)
  capture_and_finish-Ends profile slug change prepared log ready =
      then-Ends (capture_task-Ends services profile slug log ready _ _) (λ e l h. h)
        (λ result l h.
          finish_with_daily_links-Ends services profile explains is_raised raised_after_clean
            settings prepared.projections prepared.config result l h)

  prepare_new-Silent :
      (profile : TaskNotesProfile) (slug : String) (scheduled : Option String)
      → Silent (prepare_new services texts settings profile slug scheduled)
  unfolding prepare_new
  prepare_new-Silent profile slug scheduled = search (if-Marks, prepare_steps-Silent, pure-Silent)

  slug_for-Silent :
      (given : Option String) (title : String)
      → Silent (slug_for services texts settings given title)
  unfolding slug_for
  slug_for-Silent none title = search silent_rules
  slug_for-Silent (some slug) title = search silent_rules

  write_new-Ends :
      (slug : String) (new : NewTask) (profile : TaskNotesProfile) (log : List Event)
      → is_ready log ≡ true
      → Ends accounted log (write_new services texts settings slug new profile)
  unfolding write_new
  write_new-Ends slug new profile log ready =
      bind-Ends (lift-Silent _) (λ e. ready_raised services texts settings log ready)
        (λ markdown.
          bind-Ends (check_markdown-Silent services texts settings profile markdown)
            (λ e. ready_raised services texts settings log ready)
            (λ change.
              bind-Ends (prepare_new-Silent profile slug new.scheduled)
                (λ e. ready_raised services texts settings log ready)
                (λ prepared. capture_and_finish-Ends profile slug change prepared log ready)))

  guarded_profile-Ends :
      (slug : String) (profile : TaskNotesProfile)
      → Ends guard_account [] (guarded_profile services texts settings slug profile)
  unfolding guarded_profile
  guarded_profile-Ends slug profile =
      bind-Ends (call-Silent _) (λ e. refl)
        (λ verified.
          bind-Ends (settle-Silent services settings verified) (λ e. refl)
            (λ settled.
              then-Ends (create_pre_capture_guard-Ends services settled slug) (λ e l h. h)
                (λ u l h.
                  Marks-Ends (reread_profile-Silent services _)
                    (λ e. ready_raised services texts settings l (guarded_ready l h))
                    (λ stable. h))))

  pub create-Ends :
      (given : Option String) (request : CreateRequest)
      → Ends accounted [] (create services texts settings given request)
  unfolding create
  create-Ends given request =
      bind-Ends (slug_for-Silent given request.title) (λ e. refl)
        (λ slug.
          bind-Ends (lift-Silent _) (λ e. refl)
            (λ u.
              bind-Ends (lift-Silent _) (λ e. refl)
                (λ checked.
                  bind-Ends (begin-Silent services) (λ e. refl)
                    (λ profile.
                      bind-Ends (lift-Silent _) (λ e. refl)
                        (λ new.
                          then-Ends (guarded_profile-Ends slug profile) (λ e l h. h)
                            (λ stable l h.
                              write_new-Ends slug new stable l (guarded_ready l h)))))))

  prepare_plan-Silent :
      (profile : TaskNotesProfile) (slug : String) (plan : Option (List Step))
      → Silent (prepare_plan services texts settings profile slug plan)
  unfolding prepare_plan
  prepare_plan-Silent profile slug none = search silent_rules
  prepare_plan-Silent profile slug (some steps) = prepare_steps-Silent profile slug steps

  prepare_update-Silent :
      (profile : TaskNotesProfile) (slug : String) (current : Current) (updates : Fields)
      → Silent (prepare_update services texts settings profile slug current updates)
  unfolding prepare_update
  prepare_update-Silent profile slug current updates =
      if-Marks _ (prepare_plan-Silent profile slug _) (pure-Silent _)

  write_update-Ends :
      (profile : TaskNotesProfile) (slug : String) (body : Option String) (current : Current)
      (updates : Fields)
      → Ends accounted [] (write_update services texts settings profile slug body current updates)
  unfolding write_update
  write_update-Ends profile slug body current updates =
      bind-Ends (prepare_update-Silent profile slug current updates) (λ e. refl)
        (λ prepared.
          then-Ends (guarded_change-Ends services texts settings profile slug current updates body)
            (λ e l h. h)
            (λ change l h.
              capture_and_finish-Ends profile slug change prepared l (guarded_ready l h)))

  update_current-Ends :
      (profile : TaskNotesProfile) (slug : String) (body : Option String) (updates : Fields)
      (current : Current)
      → Ends accounted [] (update_current services texts settings profile slug body updates current)
  unfolding update_current
  update_current-Ends profile slug body updates current =
      bind-Ends (guard-Silent _ _) (λ e. refl)
        (λ u. if-Ends _ (pure-Ends _ refl) (write_update-Ends profile slug body current updates))

  pub update-Ends :
      (slug : String) (request : UpdateRequest)
      → Ends accounted [] (update services texts settings slug request)
  unfolding update
  update-Ends slug request =
      bind-Ends (lift-Silent _) (λ e. refl)
        (λ u.
          bind-Ends (lift-Silent _) (λ e. refl)
            (λ checked.
              bind-Ends (begin-Silent services) (λ e. refl)
                (λ profile.
                  bind-Ends (lift-Silent _) (λ e. refl)
                    (λ updates.
                      bind-Ends (call-Silent _) (λ e. refl)
                        (λ verified.
                          bind-Ends (settle-Silent services settings verified) (λ e. refl)
                            (λ settled.
                              bind-Ends (read_page-Silent services texts settings settled slug)
                                (λ e. refl)
                                (λ current.
                                  update_current-Ends settled slug checked.body updates
                                    current)))))))
