-- ===== src/AuxMl/Service/Finish.antt =====
-- The end of a job's run: the `finally` of `_run_job_lifecycle`, and the run as a whole
-- (aux-ml/app/service.py).
use josemar_assistente.Base.{
  ℕ, String, ◌≡◌, ◌⊎◌, true, Bool, false, not, ◌&&◌, none, some, arith, Bool-cases, Option-cases,
  inl, inr,
}
use josemar_assistente.Base.Dict.{Dict}
use josemar_assistente.Base.Result.{Result, ok}
use josemar_assistente.AuxMl.Jobs.Record.{JobRecord, same_status}
use josemar_assistente.AuxMl.Jobs.Scheduler
use josemar_assistente.Base.Json.{Json}
use josemar_assistente.AuxMl.Registry.{ModelSpec}
use josemar_assistente.AuxMl.Service.State.{Service, Replies, Raised}
use josemar_assistente.AuxMl.Service.Live.{Live, Marked, Settled, Request, run_job-Live}
use josemar_assistente.AuxMl.Service.Models.{
  opt_eq, unload_target, forget_model, unload_for_cancellation, unload_current_model,
}
use josemar_assistente.AuxMl.Service.Worker.{
  cancelled_early, peek_next_model_key, after_job, run_job, settle, run_and_settle,
  run_job_lifecycle,
}
use josemar_assistente.AuxMl.Service.Settle.{
  Orderly, Unmarked, settle-Ended, finalize_cancellation-Finished,
}

module _ (k : String) (others : ℕ → Service → Service) (served : (n : ℕ) → Request k (others n))
    (replies : Replies) where
  unload_target-Settled :
      (strict : Bool) (target : String) (sv : Service)
      → Settled k sv
      → Settled k (unload_target others replies strict target sv).1
  unfolding unload_target forget_model
  unload_target-Settled strict target sv h = ground (arith, (served 3).keeps_settled sv h)

  unload_current_model-Settled :
      (sv : Service) → Settled k sv → Settled k (unload_current_model others replies false sv).1
  unfolding unload_current_model unload_for_cancellation
  unload_current_model-Settled sv h = elim (Option-cases sv.loaded_model_id) [
    | inr (target, e) ↦
        rw (e, unload_current_model)
          (rw (e, unload_for_cancellation) (unload_target-Settled false target sv h))
    | inl e ↦ elim (Option-cases sv.loading_model_id) [
      | inr (target, l) ↦
          rw (e, unload_current_model)
            (rw l
              (rw (e, unload_for_cancellation) (rw l (unload_target-Settled false target sv h))))
      | inl l ↦ rw (e, unload_current_model) (rw l h)
    ]
  ]

  unload_target-blocked :
      (target : String) (sv : Service)
      → sv.dispatch_blocked ≡ true
      → (unload_target others replies false target sv).1.dispatch_blocked ≡ true
  unfolding unload_target forget_model
  unload_target-blocked target sv h = ground (arith, (served 3).keeps_blocked sv h)

  unload_current_model-blocked :
      (sv : Service)
      → sv.dispatch_blocked ≡ true
      → (unload_current_model others replies false sv).1.dispatch_blocked ≡ true
  unfolding unload_current_model unload_for_cancellation
  unload_current_model-blocked sv h = elim (Option-cases sv.loaded_model_id) [
    | inr (target, e) ↦
        rw (e, unload_current_model)
          (rw (e, unload_for_cancellation) (unload_target-blocked target sv h))
    | inl e ↦ elim (Option-cases sv.loading_model_id) [
      | inr (target, l) ↦
          rw (e, unload_current_model)
            (rw l (rw (e, unload_for_cancellation) (rw l (unload_target-blocked target sv h))))
      | inl l ↦ rw (e, unload_current_model) (rw l h)
    ]
  ]

  pub after_job-blocked :
      (sv : Service)
      → sv.dispatch_blocked ≡ true
      → (after_job others replies sv).dispatch_blocked ≡ true
  unfolding after_job
  after_job-blocked sv h = ground (
    arith,
    unload_current_model-blocked (record sv { running_job_task = none; cancel_event = none }) h,
  )

  pub after_job-Settled : (sv : Service) → Settled k sv → Settled k (after_job others replies sv)
  unfolding after_job
  after_job-Settled sv h =
      elim (Bool-cases (
        not (opt_eq sv.loaded_model_key none)
        && not (
            opt_eq
              (peek_next_model_key (record sv { running_job_task = none; cancel_event = none }))
              sv.loaded_model_key))) [
                | inl other ↦ rw other (
                    unload_current_model-Settled
                      (record sv { running_job_task = none; cancel_event = none }) h)
                | inr same ↦ rw same h
              ]

abbrev publish : String → Service → Service
publish k sv = record sv { running_job_id = some k; cancel_event = some false }

-- The run of the job itself, as `_run_job_lifecycle` starts it
abbrev pub run_of :
    (ℕ → Service → Service)
    → Replies
    → Dict ModelSpec
    → JobRecord
    → Service
    → Result Raised (Dict Json) × Service
run_of others replies registry job sv =
    run_job others replies registry job (record (publish job.id sv) {
      running_job_task = some (record { done = false; cancel_requested = false });
    })

-- The run was interrupted, but the job has not been marked as cancelled.
abbrev pub UnmarkedRun : String → Result Raised (Dict Json) × Service → Type 0
UnmarkedRun k r = Unmarked k r.0 r.1

early-Marked : (k : String) (sv : Service) → cancelled_early k sv ≡ true → Marked k sv
unfolding cancelled_early same_status
early-Marked k sv e = elim (Option-cases (Scheduler.status k sv.scheduler)) [
  | inl missing ↦ ground arith
  | inr (status, there) ↦ ground arith
]

-- The run of a claimed job always comes to an end. Let the job be running or cancelling, let the
-- service not be stopping, let each request that is served at an await keep a live job live, a job
-- that is being cancelled so, a settled job settled, a blocked dispatch blocked and the loaded model
-- as it is, and let the router's unload answer or fail, but not be cancelled. Then, whatever the
-- router and the adapter answer, `_run_job_lifecycle` returns without an exception, and the job has
-- succeeded, or failed, or is cancelled with no model loaded: a job that is being cancelled never
-- stays so, also if the unload fails. There is one exception: if the run was interrupted although
-- the job had not been marked as cancelled, and was still running, the clean-up may leave it
-- unsettled, but then no further job is dispatched.
pub run_job_lifecycle-Settled :
    (cleanup_error : String → String) (others : ℕ → Service → Service) (replies : Replies)
    (registry : Dict ModelSpec) (now : String) (job : JobRecord) (sv : Service)
    → ((n : ℕ) → Request job.id (others n))
    → Orderly replies
    → Live job.id sv
    → ((run_job_lifecycle cleanup_error others replies registry now job sv).0 ≡ ok tt)
      × (Settled job.id (run_job_lifecycle cleanup_error others replies registry now job sv).1
          ⊎ (((run_job_lifecycle cleanup_error others replies registry now job
                  sv).1.dispatch_blocked
                ≡ true)
              × UnmarkedRun job.id (run_of others replies registry job sv)))
unfolding run_job_lifecycle run_and_settle
run_job_lifecycle-Settled cleanup_error others replies registry now job sv served orderly h =
    elim (Bool-cases (cancelled_early job.id (publish job.id sv))) [
      | inl early ↦ rw early (
          finished _ (
            finalize_cancellation-Finished now job.id others served replies orderly cleanup_error
              (publish job.id sv) (early-Marked job.id (publish job.id sv) early) h.1))
      | inr late ↦
          let r = run_of others replies registry job sv in
          let awaited : Service = record r.1 {
            running_job_task = some (record { done = true; cancel_requested = false });
          } in
          rw late (
            ended r (settle cleanup_error others replies now job.id r.0 awaited) (
              settle-Ended now job.id others served replies orderly cleanup_error r.0 awaited
                (run_job-Live job.id others served replies registry job _ h)))
    ]
  where
    finished :
        (u : Result Raised (Unit {0}) × Service)
        → (u.0 ≡ ok tt) × Settled job.id u.1
        → (u.0 ≡ ok tt)
          × (Settled job.id (after_job others replies u.1)
              ⊎ (((after_job others replies u.1).dispatch_blocked ≡ true)
                  × UnmarkedRun job.id (run_of others replies registry job sv)))
    finished u (e, settled) = (e, inl (after_job-Settled job.id others served replies _ settled))

    ended :
        (r : Result Raised (Dict Json) × Service) (u : Result Raised (Unit {0}) × Service)
        → (u.0 ≡ ok tt)
          × (Settled job.id u.1 ⊎ ((u.1.dispatch_blocked ≡ true) × UnmarkedRun job.id r))
        → (u.0 ≡ ok tt)
          × (Settled job.id (after_job others replies u.1)
              ⊎ (((after_job others replies u.1).dispatch_blocked ≡ true) × UnmarkedRun job.id r))
    ended r u (e, inl settled) = (e, inl (after_job-Settled job.id others served replies _ settled))
    ended r u (e, inr (blocked, unmarked)) =
        (e, inr (after_job-blocked job.id others served replies _ blocked, unmarked))
