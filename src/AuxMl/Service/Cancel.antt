-- ===== src/AuxMl/Service/Cancel.antt =====
-- What `POST /jobs/{job_id}/cancel` answers and does (aux-ml/app/service.py `cancel_job`,
-- aux-ml/app/main.py).
use josemar_assistente.Base.{
  ℕ, String, ◌≡◌, ◌≢◌, refl, sym, ◌∙◌, if◌then◌else◌, inl, inr, Bool, true, false, Option, none,
  some, [], ◌∷◌, arith, Bool-cases, Option-cases,
}
use josemar_assistente.Base.Result.{Result, ok, err}
use josemar_assistente.AuxMl.Jobs.Record.{
  Status, queued, running, cancelling, succeeded, failed, cancelled, same_status, status_in,
  transitions,
}
use josemar_assistente.AuxMl.Jobs.Scheduler
use josemar_assistente.AuxMl.Jobs.Scheduler.{Scheduler, JobError}
use josemar_assistente.AuxMl.Jobs.Outcomes.{
  Applies, applied, no_error, cas_locked-Applies, cancel_queued-Applies,
}
use josemar_assistente.AuxMl.Service.State.{Service}
use josemar_assistente.AuxMl.Service.Endpoints.{
  ServiceError, unknown_job, CancelResponse, cancelling_response, cancelled_response,
  not_cancellable_response, lost_response, after_mark, cancel_running, cancel_by_status,
  after_queue, cancel_in_queue, cancel_job, cancel_http_status,
}

-- An answer that is true of the state it comes with: the job has the status that it names, and
-- is called cancelled exactly when it is cancelling or cancelled. The one error is an unknown job.
abbrev pub Truthful : String → Result ServiceError CancelResponse × Service → Type 0
Truthful k (err e, sv) = (e ≡ unknown_job k) × (Scheduler.status k sv.scheduler ≡ none)
Truthful k (ok r, sv) =
    (r.job_id ≡ k)
    × (Scheduler.status k sv.scheduler ≡ some r.status)
    × (r.cancelled_flag ≡ status_in r.status (cancelling ∷ cancelled ∷ []))

module _ (others : ℕ → Service → Service) (now k : String) where
  lost-Truthful :
      (o : Option Status) (sv : Service)
      → Scheduler.status k sv.scheduler ≡ o
      → Truthful k (lost_response k o, sv)
  unfolding lost_response cancelling_response cancelled_response not_cancellable_response status_in
      same_status
  lost-Truthful none sv e = (refl, e)
  lost-Truthful (some cancelling) sv e = (refl, e, refl)
  lost-Truthful (some cancelled) sv e = (refl, e, refl)
  lost-Truthful (some queued) sv e = (refl, e, refl)
  lost-Truthful (some running) sv e = (refl, e, refl)
  lost-Truthful (some succeeded) sv e = (refl, e, refl)
  lost-Truthful (some failed) sv e = (refl, e, refl)

  after_mark-Truthful :
      (r : Result JobError Bool × Scheduler) (sv : Service)
      → Applies k running cancelling sv.scheduler r
      → Truthful k (after_mark others k r sv)
  unfolding after_mark cancelling_response status_in same_status
  after_mark-Truthful (ok true, s) sv a = (refl, applied k running cancelling _ s a, refl)
  after_mark-Truthful (ok false, s) sv a = lost-Truthful _ _ refl
  after_mark-Truthful (err e, s) sv a = absurd (no_error k running cancelling e _ s a)

  cancel_running-Truthful : (sv : Service) → Truthful k (cancel_running others now k sv)
  unfolding cancel_running Scheduler.mark_cancelling
  cancel_running-Truthful sv = after_mark-Truthful _ (others 2 sv) (
      cas_locked-Applies now k running cancelling none none (others 2 sv).scheduler
        (unfold status_in transitions same_status in refl))

  cancel_by_status-Truthful :
      (o : Option Status) (sv : Service)
      → Scheduler.status k sv.scheduler ≡ o
      → Truthful k (cancel_by_status others now k o sv)
  unfolding cancel_by_status cancelling_response cancelled_response not_cancellable_response
      status_in same_status
  cancel_by_status-Truthful none sv e = (refl, e)
  cancel_by_status-Truthful (some running) sv e = cancel_running-Truthful sv
  cancel_by_status-Truthful (some cancelling) sv e = (refl, e, refl)
  cancel_by_status-Truthful (some cancelled) sv e = (refl, e, refl)
  cancel_by_status-Truthful (some queued) sv e = (refl, e, refl)
  cancel_by_status-Truthful (some succeeded) sv e = (refl, e, refl)
  cancel_by_status-Truthful (some failed) sv e = (refl, e, refl)

  after_queue-Truthful :
      (r : Result JobError Bool × Scheduler) (sv : Service)
      → Applies k queued cancelled sv.scheduler r
      → Truthful k (after_queue others now k r sv)
  unfolding after_queue status_in same_status
  after_queue-Truthful (ok true, s) sv a = (refl, applied k queued cancelled _ s a, refl)
  after_queue-Truthful (ok false, s) sv a = cancel_by_status-Truthful _ _ refl
  after_queue-Truthful (err e, s) sv a = absurd (no_error k queued cancelled e _ s a)

  -- Whatever other coroutines do at the awaits of `cancel_job`, its answer is true of the state it
  -- leaves: it names the job, its status is the status that the job has then, and `cancelled` is
  -- true exactly when that status is `cancelling` or `cancelled`. The only error is an unknown job,
  -- and then there is no such job.
  pub cancel_job-Truthful : (sv : Service) → Truthful k (cancel_job others now k sv)
  unfolding cancel_job
  cancel_job-Truthful sv = elim (Option-cases (Scheduler.status k sv.scheduler)) [
    | inl gone ↦ rw (gone, cancel_job) (refl, gone)
    | inr (status, there) ↦
        rw (there, cancel_job)
          (elim (Bool-cases (same_status status queued)) [
            | inl waiting ↦ rw waiting (
                unfold cancel_in_queue in
                after_queue-Truthful _ (others 0 sv)
                  (cancel_queued-Applies now k (others 0 sv).scheduler))
            | inr not_waiting ↦ rw not_waiting (cancel_by_status-Truthful (some status) sv there)
          ])
  ]

-- The HTTP status by the status of the job, and the status of the job afterwards.
abbrev pub documented_code : Option Status → ℕ
documented_code none = 404
documented_code (some queued) = 200
documented_code (some running) = 202
documented_code (some cancelling) = 202
documented_code (some cancelled) = 200
documented_code (some succeeded) = 409
documented_code (some failed) = 409

abbrev pub status_afterwards : Option Status → Option Status
status_afterwards (some queued) = some cancelled
status_afterwards (some running) = some cancelling
status_afterwards o = o

abbrev pub alone : ℕ → Service → Service
alone n sv = sv

module _ (now k : String) where
  after_queue-won :
      (r : Result JobError Bool × Scheduler) (sv : Service)
      → r.0 ≡ ok true
      → Scheduler.status k r.1 ≡ some cancelled
      → Scheduler.status k (after_queue alone now k r sv).1.scheduler ≡ some cancelled
  unfolding after_queue
  after_queue-won (ok true, s) sv won done = done
  after_queue-won (ok false, s) sv won done = absurd (cc)
  after_queue-won (err e, s) sv won done = absurd (cc)

  after_mark-won :
      (r : Result JobError Bool × Scheduler) (sv : Service)
      → r.0 ≡ ok true
      → Scheduler.status k r.1 ≡ some cancelling
      → Scheduler.status k (after_mark alone k r sv).1.scheduler ≡ some cancelling
  unfolding after_mark
  after_mark-won (ok true, s) sv won done = done
  after_mark-won (ok false, s) sv won done = absurd (cc)
  after_mark-won (err e, s) sv won done = absurd (cc)

  won_race :
      (e n : Status) (s : Scheduler) (r : Result JobError Bool × Scheduler)
      → Scheduler.status k s ≡ some e
      → Applies k e n s r
      → (r.0 ≡ ok true) × (Scheduler.status k r.1 ≡ some n)
  unfolding same_status
  won_race e n s r h (inl (there, won, done)) = (won, done)
  won_race e n s r h (inr (lost, same)) = absurd (not_lost e (rw h at lost))
    where
      not_lost : (a : Status) → same_status a a ≢ false
      not_lost a p = ground arith

  status-cancel_job :
      (o : Option Status) (sv : Service)
      → Scheduler.status k sv.scheduler ≡ o
      → Scheduler.status k (cancel_job alone now k sv).1.scheduler ≡ status_afterwards o
  unfolding cancel_job cancel_by_status same_status
  status-cancel_job none sv e = rw (e, cancel_job) e
  status-cancel_job (some queued) sv e =
      rw (e, cancel_job)
        (unfold cancel_in_queue in
          let (won, done) =
            won_race queued cancelled sv.scheduler _ e (cancel_queued-Applies now k sv.scheduler) in
          after_queue-won _ sv won done)
  status-cancel_job (some running) sv e =
      rw (e, cancel_job)
        (unfold cancel_running Scheduler.mark_cancelling in
          let (won, done) = won_race running cancelling sv.scheduler _ e (
            cas_locked-Applies now k running cancelling none none sv.scheduler
              (unfold status_in transitions same_status in refl)) in
          after_mark-won _ sv won done)
  status-cancel_job (some cancelling) sv e = rw (e, cancel_job) e
  status-cancel_job (some cancelled) sv e = rw (e, cancel_job) e
  status-cancel_job (some succeeded) sv e = rw (e, cancel_job) e
  status-cancel_job (some failed) sv e = rw (e, cancel_job) e

  code_none : (o : Option Status) → none ≡ status_afterwards o → 404 ≡ documented_code o
  code_none o h = ground arith

  code_some :
      (a : Status) (o : Option Status)
      → some a ≡ status_afterwards o
      → (if same_status a cancelled then 200 else if same_status a cancelling then 202 else 409)
        ≡ documented_code o
  unfolding same_status
  code_some a o h = ground arith

  code_of_truth :
      (r : Result ServiceError CancelResponse × Service) (o : Option Status)
      → Truthful k r
      → Scheduler.status k r.1.scheduler ≡ status_afterwards o
      → cancel_http_status r.0 ≡ documented_code o
  unfolding cancel_http_status same_status
  code_of_truth (err e, sv) o t h = rw t.0 (code_none o (sym t.1 ∙ h))
  code_of_truth (ok r, sv) o t h = code_some r.status o (sym t.1 ∙ h)

  -- With no other coroutine in between, the HTTP status of a cancellation is the documented one for
  -- the status of the job (404 for an unknown job), and afterwards a queued job is cancelled, a
  -- running one is cancelling, and any other has the status that it had.
  pub cancel_job-documented :
      (sv : Service)
      → (cancel_http_status (cancel_job alone now k sv).0
          ≡ documented_code (Scheduler.status k sv.scheduler))
        × (Scheduler.status k (cancel_job alone now k sv).1.scheduler
            ≡ status_afterwards (Scheduler.status k sv.scheduler))
  cancel_job-documented sv =
      let after = status-cancel_job (Scheduler.status k sv.scheduler) sv refl in
      (code_of_truth _ _ (cancel_job-Truthful alone now k sv) after, after)
