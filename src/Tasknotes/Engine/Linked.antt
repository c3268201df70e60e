-- ===== src/Tasknotes/Engine/Linked.antt =====
-- The daily notes that follow an operation leave its outcome as it is (`_run_daily_link_projection`
-- and `_finish_with_daily_links`, scripts/tasknotes_mcp_core.py).
use josemar_assistente.Base.{
  String, Bool, true, false, ◌&&◌, Option, none, some, List, [], ◌∷◌, ◌++◌, ◌≡◌, ◌⊎◌, inl, inr,
  refl, sym, ap, ◌∙◌, if◌then◌else◌, arith,
}
use josemar_assistente.Base.Result.{ok, err}
use josemar_assistente.Tasknotes.Reconcile.Compose.{DailyNotesConfig}
use josemar_assistente.Tasknotes.Engine.Effects.{
  EngineError, Event, is_core_error, note_written, notes_committed, notes_synced, M, attempt,
}
use josemar_assistente.Tasknotes.Engine.Marks.{
  Account, Silent, Ends, silent_rules, bind-Marks, pure-Silent, call-Silent, attempt-Ends, if-Ends,
  pure-Ends, raise-Ends, then-Ends,
}
use josemar_assistente.Tasknotes.Engine.Observed.{
  on_ok-Marks, observe-attempt-Ends, guarded_observe-attempt-Ends,
}
use josemar_assistente.Tasknotes.Engine.Services.{
  TaskNotesProfile, MutationState, not_applied, applied_and_committed, applied_uncommitted,
  db_updated_disk_failed, recovery_required, MutationResult, ProjectionOutcome, applied, unapplied,
  conflict, DailyLinkState, Services,
}
use josemar_assistente.Tasknotes.Engine.Prepare.{Settings}
use josemar_assistente.Tasknotes.Engine.Links.{
  Step, Applied, writes, on_core_error, next_projection, reject_collision, apply_one,
  apply_projections, sync_notes, publish_notes, run_daily_link_projection, attach_links,
  is_committed, finish_with_daily_links, compose_steps, prepare_daily_link_projections,
}
use josemar_assistente.Tasknotes.Engine.Account.{task_events, by_state}

-- What holds of the events of the task, after any result
abbrev pub kept : {A : Type 0} → (List Event → Bool) → Account A
kept good r log = good (task_events log)

module _ {W A : Type 0} {test : Account A} {log : List Event} where
  on_core_error-Ends :
      (m : M W A) (e : EngineError)
      → Ends test log m
      → test (err e) log ≡ true
      → Ends test log (on_core_error m e)
  on_core_error-Ends m e hm he = if-Ends (is_core_error e) hm (raise-Ends e he)

  if_not-Ends :
      (b c : Bool) (m : M W A) {k : M W A}
      → c ≡ false
      → Ends test log k
      → Ends test log (if b && c then m else k)
  if_not-Ends false c m e h = h
  if_not-Ends true false m e h = h
  if_not-Ends true true m e h = grind arith

committed-cases :
    (state : MutationState) → (state ≡ applied_and_committed) ⊎ (is_committed state ≡ false)
committed-cases applied_and_committed = inl refl
committed-cases not_applied = inr refl
committed-cases applied_uncommitted = inr refl
committed-cases db_updated_disk_failed = inr refl
committed-cases recovery_required = inr refl

module _ {W Document Plan Projection : Type 0} (services : Services W Document Plan Projection)
    (profile : TaskNotesProfile) where
  reject_collision-Silent : (target : String) → Silent {W = W} (reject_collision profile target)
  unfolding reject_collision
  reject_collision-Silent target = search silent_rules

  pub compose_steps-Silent :
      (config : DailyNotesConfig) (steps : List Step) (seen : List String)
      → Silent (compose_steps services config seen steps)
  unfolding compose_steps
  compose_steps-Silent config [] seen = search silent_rules
  compose_steps-Silent config (step ∷ steps) seen =
      bind-Marks (call-Silent _)
        (λ target. bind-Marks (compose_steps-Silent config steps _) (λ rest. pure-Silent _))

  pub prepare_daily_link_projections-Silent :
      (config : DailyNotesConfig) (slug : String) (steps : List Step)
      → Silent (prepare_daily_link_projections services profile config slug steps)
  unfolding prepare_daily_link_projections
  prepare_daily_link_projections-Silent config slug [] = search silent_rules
  prepare_daily_link_projections-Silent config slug (step ∷ steps) =
      bind-Marks (call-Silent _) (λ target. bind-Marks (reject_collision-Silent target) (λ u.
        bind-Marks (call-Silent _) (λ p.
          bind-Marks (prepare_daily_link_projections-Silent config slug steps)
            (λ rest. pure-Silent _))))

  -- Where the outcome of a projection leads, with what it has written
  pub next_projection-Ends :
      {test : Account Applied} {log : List Event} (p : Projection) (outcome : ProjectionOutcome)
      {written skipped failed : M W Applied}
      → Ends test (note_written (services.projection_target p) ∷ log) written
      → Ends test log skipped
      → Ends test log failed
      → Ends test
          (writes services p (ok outcome) ++ log)
          (next_projection outcome written skipped failed)
  next_projection-Ends p applied hw hs hf = hw
  next_projection-Ends p unapplied hw hs hf = hs
  next_projection-Ends p conflict hw hs hf = hf

  pub apply_one-Ends :
      {test : Account Applied} (log : List Event) (config : DailyNotesConfig) (p : Projection)
      {h : EngineError → M W Applied} {k : ProjectionOutcome → M W Applied}
      → ((e : EngineError) → Ends test log (h e))
      → ((outcome : ProjectionOutcome)
          → Ends test (writes services p (ok outcome) ++ log) (k outcome))
      → Ends test log (attempt (apply_one services profile config p) h k)
  unfolding apply_one reject_collision
  apply_one-Ends log config p hh hk = guarded_observe-attempt-Ends _ _ _ _ _ _ hh hh hk

  module _ (good : List Event → Bool) where
    apply_projections-Ends :
        (config : DailyNotesConfig) (ps : List Projection) (changed : List String)
        (log : List Event)
        → good (task_events log) ≡ true
        → Ends (kept good) log (apply_projections services profile config ps changed)
    unfolding apply_projections
    apply_projections-Ends config [] changed log h = pure-Ends _ h
    apply_projections-Ends config (p ∷ ps) changed log h =
        apply_one-Ends log config p (λ e. on_core_error-Ends _ e (pure-Ends _ h) h)
          (λ outcome.
            next_projection-Ends p outcome
              (apply_projections-Ends config ps _
                (note_written (services.projection_target p) ∷ log) h)
              (apply_projections-Ends config ps changed log h) (pure-Ends _ h))

    sync_notes-Ends :
        (failure : Option DailyLinkState) (dates : List String) (log : List Event)
        → good (task_events log) ≡ true
        → Ends (kept good) log (sync_notes services profile failure dates)
    unfolding sync_notes
    sync_notes-Ends failure dates log h =
        attempt-Ends (on_ok-Marks notes_synced _ _) (λ e. on_core_error-Ends _ e (pure-Ends _ h) h)
          (λ u. pure-Ends _ h)

    publish_notes-Ends :
        (dates : List String) (changes : Applied) (log : List Event)
        → good (task_events log) ≡ true
        → Ends (kept good) log (publish_notes services profile dates changes)
    unfolding publish_notes
    publish_notes-Ends dates ([], failure) log h = pure-Ends _ h
    publish_notes-Ends dates (t ∷ ts, failure) log h =
        observe-attempt-Ends _ _ _ _ (λ e. on_core_error-Ends _ e (pure-Ends _ h) h)
          (λ u. sync_notes-Ends failure dates (notes_committed (t ∷ ts) ∷ log) h)

    run_daily_link_projection-Ends :
        (config : DailyNotesConfig) (ps : List Projection) (log : List Event)
        → good (task_events log) ≡ true
        → Ends (kept good) log (run_daily_link_projection services profile config ps)
    unfolding run_daily_link_projection
    run_daily_link_projection-Ends config ps log h =
        then-Ends (apply_projections-Ends config ps [] log h) (λ e l hl. hl)
          (λ changes l hl. publish_notes-Ends _ changes l hl)

  -- Where the code may raise after a good record
  module _ (explains : MutationState → List Event → Bool) (raised : List Event → Bool)
      (raised_lem : (l : List Event)
        → explains applied_and_committed l ≡ true
        → raised l ≡ true) where
    attach_links-Ends :
        (result : MutationResult) (ps : Option (List Projection)) (config : Option DailyNotesConfig)
        (log : List Event)
        → result.state ≡ applied_and_committed
        → explains applied_and_committed (task_events log) ≡ true
        → Ends (by_state explains raised) log (attach_links services profile result ps config)
    unfolding attach_links
    attach_links-Ends result none config log e h =
        pure-Ends _ (ap (λ st. explains st (task_events log)) e ∙ h)
    attach_links-Ends result (some ps) none log e h = raise-Ends _ (raised_lem (task_events log) h)
    attach_links-Ends result (some ps) (some config) log e h =
        then-Ends (run_daily_link_projection-Ends (explains applied_and_committed) config ps log h)
          (λ x l hl. raised_lem (task_events l) hl)
          (λ links l hl. pure-Ends _ (ap (λ st. explains st (task_events l)) e ∙ hl))

    pub finish_with_daily_links-Ends :
        (settings : Settings) (ps : Option (List Projection)) (config : Option DailyNotesConfig)
        (result : MutationResult) (log : List Event)
        → explains result.state (task_events log) ≡ true
        → Ends
            (by_state explains raised)
            log
            (finish_with_daily_links services settings profile ps config result)
    unfolding finish_with_daily_links
    finish_with_daily_links-Ends settings ps config result log h =
        elim (committed-cases result.state) [
          | inl e ↦
              if-Ends (settings.daily_links_enabled && is_committed result.state)
                (attach_links-Ends result ps config log e
                  (sym (ap (λ st. explains st (task_events log)) e) ∙ h))
                (pure-Ends _ h)
          | inr e ↦
              if_not-Ends settings.daily_links_enabled (is_committed result.state) _ e
                (pure-Ends _ h)
        ]
