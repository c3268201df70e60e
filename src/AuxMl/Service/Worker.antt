-- ===== src/AuxMl/Service/Worker.antt =====
-- The worker's side of aux-ml/app/service.py: one job's run, how it is settled, and the clean-up
-- after a cancellation. Requests are served at the awaits: `others` is what they do to the service.
use josemar_assistente.Base.{
  ℕ, String, Bool, true, false, not, ◌&&◌, Option, none, some, str_eq, if◌then◌else◌,
}
use josemar_assistente.Base.Json.{Json}
use josemar_assistente.Base.Dict.{Dict}
use josemar_assistente.Base.Result.{Result, ok, err}
use josemar_assistente.AuxMl.Jobs.Record.{running, cancelling, JobRecord, same_status}
use josemar_assistente.AuxMl.Jobs.Scheduler
use josemar_assistente.AuxMl.Registry
use josemar_assistente.AuxMl.Registry.{ModelSpec}
use josemar_assistente.AuxMl.Service.State.{
  Service, Task, Replies, Raised, job_cancelled, task_cancelled, failure, event_set,
}
use josemar_assistente.AuxMl.Service.Models.{
  opt_eq, unload_for_cancellation, unload_current_model, ensure_model_loaded,
}

-- `except Exception` of `_run_job`: a failure during a cancellation counts as the cancellation.
unfoldable pub as_cancellation :
    Result Raised (Dict Json) → Service → Result Raised (Dict Json) × Service
as_cancellation (err (failure e)) sv =
    if event_set sv.cancel_event then (err job_cancelled, sv) else (err (failure e), sv)
as_cancellation r sv = (r, sv)

-- The adapter's call, by the task of the job.
unfoldable pub call_adapter :
    (ℕ → Service → Service) → Replies → JobRecord → Service → Result Raised (Dict Json) × Service
call_adapter others replies job sv =
    if str_eq job.task "ocr"
    then (replies.run_adapter, others 2 sv)
    else if str_eq job.task "transcribe"
    then (replies.run_adapter, others 2 sv)
    else (err (failure "Unsupported task"), sv)

-- The body of the `try` of `_run_job`.
unfoldable pub try_job :
    (ℕ → Service → Service)
    → Replies
    → Dict ModelSpec
    → JobRecord
    → Service
    → Result Raised (Dict Json) × Service
try_job others replies registry job sv = elim (Registry.get job.model registry) [
  | err e ↦ (err (failure "Unknown model"), sv)
  | ok spec ↦
      let (loaded, sv1) = ensure_model_loaded others replies spec sv in
      elim loaded [
        | err e ↦ (err e, sv1)
        | ok _ ↦
            if event_set sv1.cancel_event
            then (err job_cancelled, sv1)
            else call_adapter others replies job sv1
      ]
]

unfoldable pub run_job :
    (ℕ → Service → Service)
    → Replies
    → Dict ModelSpec
    → JobRecord
    → Service
    → Result Raised (Dict Json) × Service
run_job others replies registry job sv =
    let (r, sv1) = try_job others replies registry job sv in as_cancellation r sv1

-- Whatever the scheduler answered, only its state goes on.
abbrev then_scheduler {ℓ} : {A : Type ℓ} → A × Scheduler.Scheduler → Service → Service
then_scheduler r sv = record sv { scheduler = r.1 }

-- `_finalize_cancellation` from the failed unload on.
unfoldable pub cleanup_failed : String → String → String → Service → Service
cleanup_failed now k cleanup_error sv =
    record (then_scheduler (Scheduler.mark_failed_cleanup now k cleanup_error sv.scheduler) sv) {
      dispatch_blocked = true;
      degraded_reason = some cleanup_error;
    }

-- `_finalize_cancellation` from the confirmed unload on.
unfoldable pub confirm_cancelled : String → String → Service → Service
confirm_cancelled now k sv =
    let sv1 : Service = elim (Scheduler.status k sv.scheduler) [
      | none ↦ sv
      | some status ↦
          if same_status status running
          then then_scheduler (Scheduler.mark_cancelling now k sv.scheduler) sv
          else sv
    ] in
    then_scheduler (Scheduler.mark_cancelled now k sv1.scheduler) sv1

-- The task is awaited until it is done, whatever it raises.
abbrev await_task : Option Task → Option Task
await_task none = none
await_task (some t) = some (if t.done then t else record { done = true; cancel_requested = true })

-- From the unload on. `cleanup_error` makes the text of the clean-up error. A `CancelledError` that
-- comes during the unload (at shutdown) is passed on.
unfoldable pub after_unload :
    (String → String)
    → String
    → String
    → Result Raised (Unit {0}) × Service
    → Result Raised (Unit {0}) × Service
after_unload cleanup_error now k (ok _, sv) = (ok tt, confirm_cancelled now k sv)
after_unload cleanup_error now k (err (failure e), sv) =
    (ok tt, cleanup_failed now k (cleanup_error e) sv)
after_unload cleanup_error now k (err e, sv) = (err e, sv)

unfoldable pub finalize_cancellation :
    (String → String)
    → (ℕ → Service → Service)
    → Replies
    → String
    → String
    → Service
    → Result Raised (Unit {0}) × Service
finalize_cancellation cleanup_error others replies now k sv =
    let unwound = record sv { running_job_task = await_task sv.running_job_task } in
    after_unload cleanup_error now k (unload_for_cancellation others replies true unwound)

-- `ok = await mark_...; if not ok: await self._finalize_cancellation(job_id)`
unfoldable pub finalize_unless :
    (String → String)
    → (ℕ → Service → Service)
    → Replies
    → String
    → String
    → Result Scheduler.JobError Bool × Scheduler.Scheduler
    → Service
    → Result Raised (Unit {0}) × Service
finalize_unless cleanup_error others replies now k (ok true, s) sv =
    (ok tt, record sv { scheduler = s })
finalize_unless cleanup_error others replies now k (ok false, s) sv =
    finalize_cancellation cleanup_error others replies now k (record sv { scheduler = s })
finalize_unless cleanup_error others replies now k (err e, s) sv =
    (err (failure "Invalid transition"), record sv { scheduler = s })

-- The `except` and `else` clauses around the awaited task.
unfoldable pub settle :
    (String → String)
    → (ℕ → Service → Service)
    → Replies
    → String
    → String
    → Result Raised (Dict Json)
    → Service
    → Result Raised (Unit {0}) × Service
settle cleanup_error others replies now k (err job_cancelled) sv =
    finalize_cancellation cleanup_error others replies now k sv
settle cleanup_error others replies now k (err task_cancelled) sv =
    if sv.stopping
    then (err task_cancelled, sv)
    else finalize_cancellation cleanup_error others replies now k sv
settle cleanup_error others replies now k (err (failure e)) sv =
    finalize_unless cleanup_error others replies now k
      (Scheduler.mark_failed now k e running sv.scheduler) sv
settle cleanup_error others replies now k (ok result) sv =
    finalize_unless cleanup_error others replies now k
      (Scheduler.mark_succeeded now k result sv.scheduler) sv

unfoldable pub peek_next_model_key : Service → Option String
peek_next_model_key sv = elim (Scheduler.peek sv.scheduler) [
  | none ↦ none
  | some k ↦ elim (Scheduler.get k sv.scheduler) [ none ↦ none | some job ↦ some job.model ]
]

-- The `finally` clause. Its unload is best-effort.
unfoldable pub after_job : (ℕ → Service → Service) → Replies → Service → Service
after_job others replies sv =
    let sv1 = record sv { running_job_task = none; cancel_event = none } in
    let sv2 =
      if not (opt_eq sv1.loaded_model_key none)
        && not (opt_eq (peek_next_model_key sv1) sv1.loaded_model_key)
      then (unload_current_model others replies false sv1).1
      else sv1 in
    record sv2 { running_job_id = none }

-- The awaited task, and then the clauses around it.
unfoldable pub run_and_settle :
    (String → String)
    → (ℕ → Service → Service)
    → Replies
    → Dict ModelSpec
    → String
    → JobRecord
    → Service
    → Result Raised (Unit {0}) × Service
run_and_settle cleanup_error others replies registry now job sv =
    let (result, sv1) =
      run_job others replies registry job (record sv {
        running_job_task = some (record { done = false; cancel_requested = false });
      }) in
    settle cleanup_error others replies now job.id result
      (record sv1 { running_job_task = some (record { done = true; cancel_requested = false }) })

-- `current == "cancelling"`
unfoldable pub cancelled_early : String → Service → Bool
cancelled_early k sv = elim (Scheduler.status k sv.scheduler) [
  | none ↦ false
  | some status ↦ same_status status cancelling
]

-- `_run_job_lifecycle`, for a job that `claim_next` returned. `cleanup_error` makes the text of a
-- clean-up error.
unfoldable pub run_job_lifecycle :
    (String → String)
    → (ℕ → Service → Service)
    → Replies
    → Dict ModelSpec
    → String
    → JobRecord
    → Service
    → Result Raised (Unit {0}) × Service
run_job_lifecycle cleanup_error others replies registry now job sv =
    let published = record sv { running_job_id = some job.id; cancel_event = some false } in
    let (r, sv1) =
      if cancelled_early job.id published
      then finalize_cancellation cleanup_error others replies now job.id published
      else run_and_settle cleanup_error others replies registry now job published in
    (r, after_job others replies sv1)
