-- ===== src/Tasknotes/Engine/Guards.antt =====
-- What the guards before a capture have shown where they return (`_create_pre_capture_guard` and
-- `_mutation_pre_capture_guard` of `TaskNotesEngine`, scripts/tasknotes_mcp_core.py).
use josemar_assistente.Base.{
  String, Bool, true, false, ◌&&◌, Option, none, some, List, [], ◌∷◌, ◌++◌, ◌≡◌, refl, arith,
}
use josemar_assistente.Base.Json.{Fields}
use josemar_assistente.Base.Result.{ok, err}
use josemar_assistente.Tasknotes.Engine.Effects.{
  EngineError, core_error, profile_incompatible, path_error, git_error, gbrain_error,
  page_not_found, recovery_required, validation_error, other_error, Event, target_clean,
  profile_same, file_absent, page_absent, if_absent, continue, M, note_if, guard, ◌>>=◌, ◌>>◌,
}
use josemar_assistente.Tasknotes.Engine.Marks.{
  Account, Ends, call-Silent, bind-Ends, pure-Ends, raise-Ends, then-Ends, moved-Ends,
}
use josemar_assistente.Tasknotes.Engine.Observed.{
  observe-attempt-Ends, observe-bind-Ends, if_false-Ends, guard-Ends,
}
use josemar_assistente.Tasknotes.Engine.Services.{TaskNotesProfile, Services}
use josemar_assistente.Tasknotes.Engine.Publish.{resolve_gbrain_slug, task_path}
use josemar_assistente.Tasknotes.Engine.Prepare.{
  passes_not_found, page_is_absent, create_pre_capture_guard, target_is_clean,
  mutation_pre_capture_guard,
}
use josemar_assistente.Tasknotes.Engine.Silent.{resolve_task_path_any-Silent}
use josemar_assistente.Tasknotes.Engine.Account.{
  task_events, is_guarded, is_ready, is_raised, guard_account,
}

module _ {W B : Type 0} {test : Account B} {log : List Event} where
  -- What follows a guard may use what it tests.
  passed-Ends :
      (b : Bool) (e : EngineError) {m : M W B}
      → test (err e) log ≡ true
      → (b ≡ true → Ends test log m)
      → Ends test log (guard b e >> m)
  unfolding guard ◌>>=◌ continue
  passed-Ends true e he hm = record { end_of = λ w. (hm refl).end_of w }
  passed-Ends false e he hm = record { end_of = λ w. he }

note_if-Ends :
    {W : Type 0} {test : Account (Unit {0})} {log : List Event} (b : Bool) (event : Event)
    → b ≡ true
    → test (ok tt) (event ∷ log) ≡ true
    → Ends {W = W} test log (note_if b event)
unfolding note_if
note_if-Ends true event e h = record { end_of = λ w. h }
note_if-Ends false event e h = grind arith

both_true : (a b : Bool) → a ≡ true → b ≡ true → (a && b) ≡ true
both_true a b p q = ground arith

-- What the test of the target leaves
abbrev is_target : List Event → Bool
is_target (target_clean ∷ []) = true
is_target log = false

target_account : Account (Unit {0})
target_account (ok u) log = is_target log
target_account (err e) log = is_raised (task_events log)

target_only : (l : List Event) → is_target l ≡ true → l ≡ target_clean ∷ []
target_only (target_clean ∷ []) h = refl
target_only l h = ground arith

pub guarded_ready : (l : List Event) → is_guarded l ≡ true → is_ready l ≡ true
guarded_ready (profile_same ∷ target_clean ∷ []) h = refl
guarded_ready (page_absent ∷ file_absent ∷ []) h = refl
guarded_ready l h = ground arith

module _ {W Document Plan Projection : Type 0}
    (services : Services W Document Plan Projection) where
  passes_not_found-Ends :
      (slug : String) (e : EngineError)
      → Ends {W = W} guard_account
          (if_absent {A = Fields} page_absent slug (err e) ++ file_absent ∷ [])
          (passes_not_found e)
  passes_not_found-Ends slug (page_not_found s) = pure-Ends _ refl
  passes_not_found-Ends slug (core_error s) = raise-Ends _ refl
  passes_not_found-Ends slug (profile_incompatible s) = raise-Ends _ refl
  passes_not_found-Ends slug (path_error s) = raise-Ends _ refl
  passes_not_found-Ends slug (git_error s) = raise-Ends _ refl
  passes_not_found-Ends slug (gbrain_error s) = raise-Ends _ refl
  passes_not_found-Ends slug (recovery_required s) = raise-Ends _ refl
  passes_not_found-Ends slug (validation_error s) = raise-Ends _ refl
  passes_not_found-Ends slug (other_error s) = raise-Ends _ refl

  page_is_absent-Ends :
      (profile : TaskNotesProfile) (slug : String)
      → Ends guard_account (file_absent ∷ []) (page_is_absent services profile slug)
  unfolding page_is_absent
  page_is_absent-Ends profile slug =
      observe-attempt-Ends _ _ _ _ (passes_not_found-Ends (resolve_gbrain_slug profile slug))
        (λ page. raise-Ends _ refl)

  -- A creation is guarded: there was no file, and then no page.
  pub create_pre_capture_guard-Ends :
      (profile : TaskNotesProfile) (slug : String)
      → Ends guard_account [] (create_pre_capture_guard services profile slug)
  unfolding create_pre_capture_guard
  create_pre_capture_guard-Ends profile slug =
      observe-bind-Ends _ _ _ _ (λ e. refl)
        (λ there.
          if_false-Ends file_absent (task_path profile.tasks_folder slug) there _ refl
            (page_is_absent-Ends profile slug))

  target_is_clean-Ends :
      (target : Option String) → Ends target_account [] (target_is_clean services target)
  unfolding target_is_clean target_account
  target_is_clean-Ends none = raise-Ends _ refl
  target_is_clean-Ends (some target) =
      observe-bind-Ends _ _ _ _ (λ e. refl)
        (λ is_clean. guard-Ends [] target_clean target is_clean _ refl refl)

  -- A change is guarded: the target was clean, and then the profile and the source the same.
  pub mutation_pre_capture_guard-Ends :
      (profile : TaskNotesProfile) (slug : String)
      → Ends guard_account [] (mutation_pre_capture_guard services profile slug)
  unfolding mutation_pre_capture_guard target_account
  mutation_pre_capture_guard-Ends profile slug =
      bind-Ends (resolve_task_path_any-Silent services profile slug) (λ e. refl)
        (λ target.
          then-Ends (target_is_clean-Ends target) (λ e l h. h)
            (λ u l h. moved-Ends (target_only l h) (
              bind-Ends (call-Silent _) (λ e. refl)
                (λ current. passed-Ends _ _ refl (λ p.
                  bind-Ends (call-Silent _) (λ e. refl)
                    (λ verified.
                      passed-Ends _ _ refl
                        (λ q. note_if-Ends _ profile_same (both_true _ _ p q) refl)))))))
