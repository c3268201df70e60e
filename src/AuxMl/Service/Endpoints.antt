-- ===== src/AuxMl/Service/Endpoints.antt =====
-- Submission and cancellation (`submit_job` and `cancel_job` of aux-ml/app/service.py, and the
-- HTTP status of aux-ml/app/main.py). Other coroutines may run at each await of `cancel_job`: what
-- they do to the service there is the argument `others`, by the number of the await.
use josemar_assistente.Base.{
  ℕ, String, Bool, true, false, not, sorted_unique, Option, none, some, List, [], ◌∷◌, ltb, str_eq,
  if◌then◌else◌,
}
use josemar_assistente.Base.Dict.{Dict}
use josemar_assistente.Base.Result.{Result, ok, err}
use josemar_assistente.AuxMl.Jobs.Record.{
  Status, queued, running, cancelling, cancelled, same_status,
}
use josemar_assistente.AuxMl.Jobs.Scheduler
use josemar_assistente.AuxMl.Jobs.Scheduler.{Scheduler, JobError}
use josemar_assistente.AuxMl.Registry
use josemar_assistente.AuxMl.Registry.{ModelSpec, RegistryError}
use josemar_assistente.AuxMl.Service.State.{Service, Task}

pub data ServiceError : Type 0 where
  task_required : ServiceError
  bad_column_split : ServiceError
  wrong_task : String → String → String → ServiceError
  registry_error : RegistryError → ServiceError
  job_error : JobError → ServiceError
  unknown_job : String → ServiceError

-- `_cancelling_response`, `_cancelled_response`, `_not_cancellable_response`: the messages follow
-- from the other fields and from whether the job was queued.
pub data Message : Type 0 where
  queued_job_cancelled already_in_progress already_cancelled not_cancellable : Message

pub record CancelResponse : Type 0 where
  pub job_id : String
  pub status : Status
  pub cancelled_flag : Bool
  pub message : Message

unfoldable pub cancelling_response : String → CancelResponse
cancelling_response k = record {
  job_id = k;
  status = cancelling;
  cancelled_flag = true;
  message = already_in_progress;
}

unfoldable pub cancelled_response : String → CancelResponse
cancelled_response k = record {
  job_id = k;
  status = cancelled;
  cancelled_flag = true;
  message = already_cancelled;
}

unfoldable pub not_cancellable_response : String → Status → CancelResponse
not_cancellable_response k status = record {
  job_id = k;
  status = status;
  cancelled_flag = false;
  message = not_cancellable;
}

abbrev with_scheduler : Scheduler → Service → Service
with_scheduler s sv = record sv { scheduler = s }

-- `event.set()` where there is an event
abbrev set_cancel_event : Option Bool → Option Bool
set_cancel_event none = none
set_cancel_event (some b) = some true

-- `task.cancel()` where there is a task that is not done
abbrev pub cancel_task : Option Task → Option Task
cancel_task none = none
cancel_task (some t) = some (if t.done then t else record t { cancel_requested = true })

-- The answer to a caller that lost the race for `mark_cancelling`.
unfoldable pub lost_response : String → Option Status → Result ServiceError CancelResponse
lost_response k none = err (unknown_job k)
lost_response k (some cancelling) = ok (cancelling_response k)
lost_response k (some cancelled) = ok (cancelled_response k)
lost_response k (some status) = ok (not_cancellable_response k status)

-- The branch for a running job, from the answer of `mark_cancelling` on.
unfoldable pub after_mark :
    (ℕ → Service → Service)
    → String
    → Result JobError Bool × Scheduler
    → Service
    → Result ServiceError CancelResponse × Service
after_mark others k (err e, s) sv = (err (job_error e), with_scheduler s sv)
after_mark others k (ok true, s) sv = (
  ok (cancelling_response k),
  record sv {
    scheduler = s;
    cancel_event = set_cancel_event sv.cancel_event;
    running_job_task = cancel_task sv.running_job_task;
  },
)
after_mark others k (ok false, s) sv =
    let sv1 = others 3 (with_scheduler s sv) in
    (lost_response k (Scheduler.status k sv1.scheduler), sv1)

unfoldable pub cancel_running :
    (ℕ → Service → Service)
    → String
    → String
    → Service
    → Result ServiceError CancelResponse × Service
cancel_running others now k sv =
    let sv1 = others 2 sv in after_mark others k (Scheduler.mark_cancelling now k sv1.scheduler) sv1

-- The branches after the one for a queued job.
unfoldable pub cancel_by_status :
    (ℕ → Service → Service)
    → String
    → String
    → Option Status
    → Service
    → Result ServiceError CancelResponse × Service
cancel_by_status others now k none sv = (err (unknown_job k), sv)
cancel_by_status others now k (some running) sv = cancel_running others now k sv
cancel_by_status others now k (some cancelling) sv =
    (ok (cancelling_response k), record sv { cancel_event = set_cancel_event sv.cancel_event })
cancel_by_status others now k (some cancelled) sv = (ok (cancelled_response k), sv)
cancel_by_status others now k (some status) sv = (ok (not_cancellable_response k status), sv)

-- The branch for a queued job, from the answer of `cancel_queued` on; a lost race goes on with the
-- status read again.
unfoldable pub after_queue :
    (ℕ → Service → Service)
    → String
    → String
    → Result JobError Bool × Scheduler
    → Service
    → Result ServiceError CancelResponse × Service
after_queue others now k (err e, s) sv = (err (job_error e), with_scheduler s sv)
after_queue others now k (ok true, s) sv = (
  ok (record {
    job_id = k;
    status = cancelled;
    cancelled_flag = true;
    message = queued_job_cancelled;
  }),
  with_scheduler s sv,
)
after_queue others now k (ok false, s) sv =
    let sv1 = others 1 (with_scheduler s sv) in
    cancel_by_status others now k (Scheduler.status k sv1.scheduler) sv1

unfoldable pub cancel_in_queue :
    (ℕ → Service → Service)
    → String
    → String
    → Service
    → Result ServiceError CancelResponse × Service
cancel_in_queue others now k sv =
    let sv1 = others 0 sv in
    after_queue others now k (Scheduler.cancel_queued now k sv1.scheduler) sv1

unfoldable pub cancel_job :
    (ℕ → Service → Service)
    → String
    → String
    → Service
    → Result ServiceError CancelResponse × Service
cancel_job others now k sv = elim (Scheduler.status k sv.scheduler) [
  | none ↦ (err (unknown_job k), sv)
  | some status ↦
      if same_status status queued
      then cancel_in_queue others now k sv
      else cancel_by_status others now k (some status) sv
]

-- The HTTP status of `POST /jobs/{job_id}/cancel`: an exception that the handler does not catch is
-- a server error.
unfoldable pub cancel_http_status : Result ServiceError CancelResponse → ℕ
cancel_http_status (err (unknown_job k)) = 404
cancel_http_status (err e) = 500
cancel_http_status (ok r) =
    if same_status r.status cancelled
    then 200
    else if same_status r.status cancelling
    then 202
    else 409

pub record SubmitResponse : Type 0 where
  pub job_id : String
  pub status : Status
  pub queue_position : ℕ
  pub model : String
  pub task : String
  pub column_split : ℕ
  pub column_split_pages : Option (List ℕ)

-- `if model: registry.get(model) else: registry.default_for_task(task)`
unfoldable pub choose_model :
    Option String → String → Dict ModelSpec → Result RegistryError ModelSpec
choose_model none task registry = Registry.default_for_task task registry
choose_model (some model) task registry =
    if str_eq model "" then Registry.default_for_task task registry else Registry.get model registry

-- The store and the queue: a job that finds the queue full is deleted again.
unfoldable pub create_and_enqueue :
    String
    → String
    → ModelSpec
    → String
    → String
    → Option String
    → ℕ
    → Option (List ℕ)
    → Service
    → Result ServiceError SubmitResponse × Service
create_and_enqueue now k spec task file_path prompt column_split pages sv =
    let (job, s1) =
      Scheduler.create now k task spec.key file_path prompt column_split pages sv.scheduler in
    let (position, s2) = Scheduler.enqueue k s1 in
    elim position [
      | err e ↦ (err (job_error e), with_scheduler (Scheduler.delete k s2) sv)
      | ok n ↦ (
        ok (record {
          job_id = k;
          status = job.status;
          queue_position = n;
          model = spec.key;
          task = task;
          column_split = column_split;
          column_split_pages = pages;
        }),
        with_scheduler s2 sv,
      )
    ]

-- `normalize` stands for `task.strip().lower()`; `k` is the identifier that `create` draws.
unfoldable pub submit_job :
    (String → String)
    → Dict ModelSpec
    → String
    → String
    → String
    → Option String
    → String
    → Option String
    → ℕ
    → Option (List ℕ)
    → Service
    → Result ServiceError SubmitResponse × Service
submit_job normalize registry now k task model file_path prompt column_split pages sv =
    let normalized = normalize task in
    let sorted_pages : Option (List ℕ) = elim pages [
      | none ↦ none
      | some l ↦ elim l [ [] ↦ none | ◌∷◌ p ps ↦ some (sorted_unique (p ∷ ps)) ]
    ] in
    if str_eq normalized ""
    then (err task_required, sv)
    else if ltb column_split 1
    then (err bad_column_split, sv)
    else elim (choose_model model normalized registry) [
      | err e ↦ (err (registry_error e), sv)
      | ok spec ↦
          if not (str_eq spec.task normalized)
          then (err (wrong_task spec.key spec.task normalized), sv)
          else create_and_enqueue now k spec normalized file_path prompt column_split sorted_pages
              sv
    ]
