-- ===== src/AuxMl/Service/Served.antt =====
-- A cancellation that is served while the job runs (aux-ml/app/service.py `cancel_job`) is a request
-- in the sense of `Live`.
use josemar_assistente.Base.{
  String, ◌≡◌, refl, ◌∙◌, ◌⊎◌, Bool, true, false, Option, none, some, arith,
}
use josemar_assistente.Base.Result.{Result, ok, err}
use josemar_assistente.AuxMl.Jobs.Record.{Status, running, cancelling}
use josemar_assistente.AuxMl.Jobs.Scheduler
use josemar_assistente.AuxMl.Jobs.Scheduler.{Scheduler, JobError}
use josemar_assistente.AuxMl.Service.State.{Service}
use josemar_assistente.AuxMl.Service.Endpoints.{
  after_mark, cancel_running, cancel_by_status, after_queue, cancel_in_queue, cancel_job,
}
use josemar_assistente.AuxMl.Service.Cancel.{alone, status_afterwards, cancel_job-documented}
use josemar_assistente.AuxMl.Service.Live.{Request}

-- The fields that only the worker and the shutdown write.
abbrev SameFields : Service → Service → Type 0
SameFields a b =
    (b.stopping ≡ a.stopping)
    × (b.loaded_model_id ≡ a.loaded_model_id)
    × (b.dispatch_blocked ≡ a.dispatch_blocked)

module _ (now k : String) where
  after_mark-SameFields :
      (r : Result JobError Bool × Scheduler) (sv : Service)
      → SameFields sv (after_mark alone k r sv).1
  unfolding after_mark
  after_mark-SameFields (ok true, s) sv = (refl, refl, refl)
  after_mark-SameFields (ok false, s) sv = (refl, refl, refl)
  after_mark-SameFields (err e, s) sv = (refl, refl, refl)

  cancel_by_status-SameFields :
      (o : Option Status) (sv : Service) → SameFields sv (cancel_by_status alone now k o sv).1
  unfolding cancel_by_status cancel_running
  cancel_by_status-SameFields none sv = (refl, refl, refl)
  cancel_by_status-SameFields (some running) sv = after_mark-SameFields _ sv
  cancel_by_status-SameFields (some _) sv = (refl, refl, refl)

  after_queue-SameFields :
      (r : Result JobError Bool × Scheduler) (sv : Service)
      → SameFields sv (after_queue alone now k r sv).1
  unfolding after_queue
  after_queue-SameFields (ok true, s) sv = (refl, refl, refl)
  after_queue-SameFields (ok false, s) sv =
      cancel_by_status-SameFields (Scheduler.status k s) (record sv { scheduler = s })
  after_queue-SameFields (err e, s) sv = (refl, refl, refl)

  cancel_job-SameFields : (sv : Service) → SameFields sv (cancel_job alone now k sv).1
  unfolding cancel_job cancel_in_queue
  cancel_job-SameFields sv = ground (
    arith,
    cancel_by_status-SameFields (Scheduler.status k sv.scheduler) sv,
    after_queue-SameFields (Scheduler.cancel_queued now k sv.scheduler) sv,
  )

  live_after :
      (o : Option Status)
      → (o ≡ some running) ⊎ (o ≡ some cancelling)
      → (status_afterwards o ≡ some running) ⊎ (status_afterwards o ≡ some cancelling)
  live_after o h = ground arith

  marked_after : (o : Option Status) → o ≡ some cancelling → status_afterwards o ≡ some cancelling
  marked_after o h = ground arith

  -- Cancelling the running job is a request: a live job stays live, a job that is being cancelled
  -- stays so, a settled job settled, and the loaded model is left to the worker.
  pub cancel_job-Request : Request k (λ sv. (cancel_job alone now k sv).1)
  cancel_job-Request = record {
    keeps_live = λ sv h.
        let same = cancel_job-SameFields sv in
        (rw ((cancel_job-documented now k sv).1) (live_after _ h.0), same.0 ∙ h.1);
    keeps_marked = λ sv h. rw ((cancel_job-documented now k sv).1) (marked_after _ h);
    keeps_blocked = λ sv h. (cancel_job-SameFields sv).2 ∙ h;
    keeps_settled = λ sv h.
        let same = cancel_job-SameFields sv in
        let after = (cancel_job-documented now k sv).1 in ground (arith, after, same);
    keeps_loaded = λ sv. (cancel_job-SameFields sv).1;
  }
