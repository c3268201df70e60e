-- ===== src/AuxMl/Service/Live.antt =====
-- While the worker of aux-ml/app/service.py runs a job, requests may move it from `running` to
-- `cancelling` and nothing else: what the worker does before it settles the job keeps it live.
use josemar_assistente.Base.{
  ℕ, String, ◌≡◌, ◌⊎◌, inl, inr, Bool, true, false, none, some, arith, Option-cases,
}
use josemar_assistente.Base.Dict.{Dict}
use josemar_assistente.Base.Result.{Result-cases}
use josemar_assistente.AuxMl.Jobs.Record.{
  running, cancelling, succeeded, failed, cancelled, JobRecord,
}
use josemar_assistente.AuxMl.Jobs.Scheduler
use josemar_assistente.AuxMl.Registry
use josemar_assistente.AuxMl.Registry.{ModelSpec}
use josemar_assistente.AuxMl.Service.State.{Service, Replies}
use josemar_assistente.AuxMl.Service.Models.{
  unload_target, forget_model, unload_for_cancellation, unload_current_model, clear_committed,
  load_model, load_other, ensure_model_loaded,
}
use josemar_assistente.AuxMl.Service.Worker.{as_cancellation, call_adapter, try_job, run_job}

-- The job `k` is running or cancelling, and the service is not stopping.
abbrev pub Live : String → Service → Type 0
Live k sv =
    ((Scheduler.status k sv.scheduler ≡ some running)
      ⊎ (Scheduler.status k sv.scheduler ≡ some cancelling))
    × (sv.stopping ≡ false)

-- The job `k` is settled: it succeeded, or failed, or is cancelled with no model loaded.
abbrev pub Settled : String → Service → Type 0
Settled k sv =
    (Scheduler.status k sv.scheduler ≡ some succeeded)
    ⊎ (Scheduler.status k sv.scheduler ≡ some failed)
    ⊎ ((Scheduler.status k sv.scheduler ≡ some cancelled) × (sv.loaded_model_id ≡ none))

-- The job `k` is being cancelled.
abbrev pub Marked : String → Service → Type 0
Marked k sv = Scheduler.status k sv.scheduler ≡ some cancelling

-- What a request may do while the job `k` runs.
pub record Request (k : String) (f : Service → Service) : Type 0 where
  pub keeps_live : (sv : Service) → Live k sv → Live k (f sv)
  pub keeps_marked : (sv : Service) → Marked k sv → Marked k (f sv)
  pub keeps_blocked : (sv : Service) → sv.dispatch_blocked ≡ true → (f sv).dispatch_blocked ≡ true
  pub keeps_settled : (sv : Service) → Settled k sv → Settled k (f sv)
  pub keeps_loaded : (sv : Service) → (f sv).loaded_model_id ≡ sv.loaded_model_id

module _ (k : String) (others : ℕ → Service → Service) (served : (n : ℕ) → Request k (others n))
    (replies : Replies) where
  unload_target-Live :
      (strict : Bool) (target : String) (sv : Service)
      → Live k sv
      → Live k (unload_target others replies strict target sv).1
  unfolding unload_target forget_model
  unload_target-Live strict target sv h = ground (arith, (served 3).keeps_live sv h)

  pub unload_for_cancellation-Live :
      (strict : Bool) (sv : Service)
      → Live k sv
      → Live k (unload_for_cancellation others replies strict sv).1
  unfolding unload_for_cancellation
  unload_for_cancellation-Live strict sv h = elim (Option-cases sv.loaded_model_id) [
    | inr (target, e) ↦ rw (e, unload_for_cancellation) (unload_target-Live strict target sv h)
    | inl e ↦ elim (Option-cases sv.loading_model_id) [
      | inr (target, l) ↦
          rw (e, unload_for_cancellation) (rw l (unload_target-Live strict target sv h))
      | inl l ↦ rw (e, unload_for_cancellation) (rw l h)
    ]
  ]

  unload_target-Marked :
      (target : String) (sv : Service)
      → Marked k sv
      → Marked k (unload_target others replies true target sv).1
  unfolding unload_target forget_model
  unload_target-Marked target sv h = ground (arith, (served 3).keeps_marked sv h)

  pub unload_for_cancellation-Marked :
      (sv : Service) → Marked k sv → Marked k (unload_for_cancellation others replies true sv).1
  unfolding unload_for_cancellation
  unload_for_cancellation-Marked sv h = elim (Option-cases sv.loaded_model_id) [
    | inr (target, e) ↦ rw (e, unload_for_cancellation) (unload_target-Marked target sv h)
    | inl e ↦ elim (Option-cases sv.loading_model_id) [
      | inr (target, l) ↦ rw (e, unload_for_cancellation) (rw l (unload_target-Marked target sv h))
      | inl l ↦ rw (e, unload_for_cancellation) (rw l h)
    ]
  ]

  pub unload_current_model-Live :
      (strict : Bool) (sv : Service)
      → Live k sv
      → Live k (unload_current_model others replies strict sv).1
  unfolding unload_current_model
  unload_current_model-Live strict sv h = ground (arith, unload_for_cancellation-Live strict sv h)

  load_model-Live :
      (spec : ModelSpec) (id : String) (sv : Service)
      → Live k sv
      → Live k (load_model others replies spec id sv).1
  unfolding load_model clear_committed
  load_model-Live spec id sv h =
      ground (arith, (served 1).keeps_live (record sv { loading_model_id = some id }) h)

  load_other-Live :
      (spec : ModelSpec) (sv : Service) → Live k sv → Live k (load_other others replies spec sv).1
  unfolding load_other
  load_other-Live spec sv h = elim (Result-cases (replies.resolve_model_id spec.model_path)) [
    | inl (e, raised) ↦ ground (arith, (served 0).keeps_live sv h)
    | inr (id, found) ↦
        ground (arith, load_model-Live spec id (others 0 sv) ((served 0).keeps_live sv h))
  ]

  ensure_model_loaded-Live :
      (spec : ModelSpec) (sv : Service)
      → Live k sv
      → Live k (ensure_model_loaded others replies spec sv).1
  unfolding ensure_model_loaded
  ensure_model_loaded-Live spec sv h = ground (
    arith,
    unload_current_model-Live false sv h,
    load_other-Live spec sv h,
    load_other-Live spec (unload_current_model others replies false sv).1
        (unload_current_model-Live false sv h),
  )

  try_job-Live :
      (registry : Dict ModelSpec) (job : JobRecord) (sv : Service)
      → Live k sv
      → Live k (try_job others replies registry job sv).1
  unfolding try_job call_adapter
  try_job-Live registry job sv h = elim (Result-cases (Registry.get job.model registry)) [
    | inl (e, raised) ↦ ground arith
    | inr (spec, found) ↦
        let loaded = ensure_model_loaded-Live spec sv h in
        ground (
          arith,
          loaded,
          (served 2).keeps_live (ensure_model_loaded others replies spec sv).1 loaded,
        )
  ]

  pub run_job-Live :
      (registry : Dict ModelSpec) (job : JobRecord) (sv : Service)
      → Live k sv
      → Live k (run_job others replies registry job sv).1
  unfolding run_job as_cancellation
  run_job-Live registry job sv h = ground (arith, try_job-Live registry job sv h)
