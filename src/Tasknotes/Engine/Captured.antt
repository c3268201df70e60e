-- ===== src/Tasknotes/Engine/Captured.antt =====
-- Every end of a capture is accounted for (`_handle_post_capture`, `_recover_from_disk_failure` and
-- `_reconcile_after_capture_failure`, scripts/tasknotes_mcp_core.py).
use josemar_assistente.Base.{
  String, Bool, true, false, Option, none, some, List, ◌∷◌, ◌++◌, ◌≡◌, if◌then◌else◌,
}
use josemar_assistente.Base.Json.{Fields}
use josemar_assistente.Base.Fields.{get}
use josemar_assistente.Base.Result.{Result, ok, err}
use josemar_assistente.Tasknotes.Engine.Effects.{
  EngineError, continue, resume, attempt, pure, observe, if_true, Event, captured, verified,
  committed, clean, synced_full, marker_tried, M, call, ◌>>=◌, ◌>>◌,
}
use josemar_assistente.Tasknotes.Engine.Marks.{
  Account, Ends, call-Silent, attempt-Ends, try-Ends, bind-Ends, if-Ends, pure-Ends,
}
use josemar_assistente.Tasknotes.Engine.Observed.{
  on_ok-Marks, observe-attempt-Ends, observe-bind-Ends,
}
use josemar_assistente.Tasknotes.Engine.Services.{
  TaskNotesProfile, applied_and_committed, applied_uncommitted, Services,
}
use josemar_assistente.Tasknotes.Engine.Publish.{
  result_of, commit_facts, written_flag, write_recovery_marker, require_recovery,
  recover_from_disk_failure, check_committed, commit_target, handle_post_capture,
  reconcile_after_capture_failure, capture_task,
}
use josemar_assistente.Tasknotes.Engine.Silent.{resolve_task_path_any-Silent, verify_readback-Marks}
use josemar_assistente.Tasknotes.Engine.Account.{is_ready, facts_account, accounted}

module _ {W Document Plan Projection : Type 0} (services : Services W Document Plan Projection)
    (profile : TaskNotesProfile) (slug : String) where
  -- The writing of the marker is tried, and the code goes on.
  marker-Ends :
      {A : Type 0} {test : Account A} {log : List Event} {m : M W A}
      → Ends test (marker_tried ∷ log) m
      → Ends test log (write_recovery_marker services >> m)
  unfolding write_recovery_marker attempt resume observe pure ◌>>=◌ continue
  marker-Ends {A} {test} {log} {m} h = record { end_of = λ w. by_answer (services.write_marker w) }
    where
      by_answer :
          (r : Result EngineError (Unit {0}) × W)
          → test
              (continue
                (λ u. m)
                (resume (λ e. pure tt) (λ u. pure tt) (r.0, (r.1, marker_tried ∷ log)))).0
              (continue
                (λ u. m)
                (resume (λ e. pure tt) (λ u. pure tt) (r.0, (r.1, marker_tried ∷ log)))).1.1
            ≡ true
      by_answer (ok u, w) = h.end_of w
      by_answer (err e, w) = h.end_of w

  module _ (log : List Event) (ready : is_ready log ≡ true) where
    require_recovery-Ends : Ends accounted (captured ∷ log) (require_recovery services slug)
    unfolding require_recovery
    require_recovery-Ends = marker-Ends (pure-Ends _ ready)

    require_after_sync-Ends :
        Ends accounted (synced_full ∷ captured ∷ log) (require_recovery services slug)
    unfolding require_recovery
    require_after_sync-Ends = marker-Ends (pure-Ends _ ready)

    recover_from_disk_failure-Ends :
        Ends accounted (captured ∷ log) (recover_from_disk_failure services profile slug)
    unfolding recover_from_disk_failure
    recover_from_disk_failure-Ends =
        attempt-Ends (on_ok-Marks synced_full _ _) (λ e. require_recovery-Ends)
          (λ u.
            attempt-Ends (verify_readback-Marks services profile slug none)
              (λ e. require_after_sync-Ends) (λ v. pure-Ends _ ready))

    commit_facts-Ends :
        (target : String)
        → Ends facts_account (committed ∷ verified ∷ captured ∷ log) (commit_facts services target)
    unfolding commit_facts
    commit_facts-Ends target = observe-bind-Ends _ _ _ _ (λ e. ready) after_test
      where
        after_test :
            (is_clean : Bool)
            → Ends {W = W} facts_account
                (if_true clean target (ok is_clean) ++ committed ∷ verified ∷ captured ∷ log)
                (call services.git_head_id >>= λ commit_id. pure (is_clean, commit_id))
        after_test true = bind-Ends (call-Silent _) (λ e. ready) (λ id. pure-Ends _ ready)
        after_test false = bind-Ends (call-Silent _) (λ e. ready) (λ id. pure-Ends _ ready)

    check_committed-Ends :
        (target : String)
        → Ends accounted
            (committed ∷ verified ∷ captured ∷ log)
            (check_committed services slug target)
    unfolding check_committed
    check_committed-Ends target =
        try-Ends (commit_facts-Ends target) (λ e l h. pure-Ends _ h) by_facts
      where
        by_facts :
            (r : Bool × Option String) (l : List Event)
            → facts_account (ok r) l ≡ true
            → Ends {W = W} accounted l (
                if r.0
                then pure (record (result_of applied_and_committed slug) { commit_id = r.1 })
                else pure (result_of applied_uncommitted slug))
        by_facts (true, id) l h = pure-Ends _ h
        by_facts (false, id) l h = pure-Ends _ h

    commit_target-Ends :
        Ends accounted (verified ∷ captured ∷ log) (commit_target services profile slug)
    unfolding commit_target
    commit_target-Ends =
        bind-Ends (resolve_task_path_any-Silent services profile slug) (λ e. ready)
          (λ found.
            attempt-Ends (on_ok-Marks committed _ _) (λ e. pure-Ends _ ready)
              (λ u. check_committed-Ends _))

    handle_post_capture-Ends :
        (answer : Fields) (expected : Option Document)
        → Ends accounted
            (captured ∷ log)
            (handle_post_capture services profile slug answer expected)
    unfolding handle_post_capture
    handle_post_capture-Ends answer expected =
        if-Ends (written_flag (get "written" answer))
          (attempt-Ends (verify_readback-Marks services profile slug expected)
            (λ e. recover_from_disk_failure-Ends) (λ u. commit_target-Ends))
          recover_from_disk_failure-Ends

    reconcile_after_capture_failure-Ends :
        (expected : Document)
        → Ends accounted
            (captured ∷ log)
            (reconcile_after_capture_failure services profile slug expected)
    unfolding reconcile_after_capture_failure
    reconcile_after_capture_failure-Ends expected =
        attempt-Ends (verify_readback-Marks services profile slug (some expected))
          (λ e. marker-Ends (pure-Ends _ ready)) (λ u. pure-Ends _ ready)

    pub capture_task-Ends :
        (markdown : String) (expected : Document)
        → Ends accounted log (capture_task services profile slug markdown expected)
    unfolding capture_task
    capture_task-Ends markdown expected =
        observe-attempt-Ends _ _ _ _ (λ e. reconcile_after_capture_failure-Ends expected)
          (λ answer. handle_post_capture-Ends answer (some expected))
