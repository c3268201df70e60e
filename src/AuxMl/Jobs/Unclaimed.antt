-- ===== src/AuxMl/Jobs/Unclaimed.antt =====
-- A queued job that is cancelled is never claimed (`cancel_queued` and `claim_next` of
-- aux-ml/app/jobs.py).
use josemar_assistente.Base.{
  String, ◌≡◌, ◌≢◌, refl, true, none, some, List, all, arith, Option-cases, inl, inr,
}
use josemar_assistente.Base.Dict.{lookup}
use josemar_assistente.Base.Result.{ok}
use josemar_assistente.AuxMl.Jobs.Record.{
  Status, queued, cancelled, JobRecord, status_in, same_status, is_terminal,
}
use josemar_assistente.AuxMl.Jobs.Scheduler
use josemar_assistente.AuxMl.Jobs.Scheduler.{Scheduler}
use josemar_assistente.AuxMl.Jobs.Steps.{Call, run, spares}
use josemar_assistente.AuxMl.Jobs.Fifo.{
  claimed_was_queued, is_queued-status, not_both, cancel-before_claim,
}
use josemar_assistente.AuxMl.Jobs.Lifecycle.{run-terminal}

some-same : (a b : Status) → some a ≡ some b → a ≡ b
some-same a b e = grind arith

-- The record behind a status
job_of_status :
    (k : String) (s : Scheduler) (a : Status)
    → Scheduler.status k s ≡ some a
    → (job : JobRecord) × (lookup k s.jobs ≡ some job) × (job.status ≡ a)
unfolding Scheduler.status
job_of_status k s a h = elim (Option-cases (lookup k s.jobs)) [
  | inl missing ↦ absurd (clash (rw (missing, Scheduler.status) at h))
  | inr (job, there) ↦ (job, there, some-same job.status a (rw (there, Scheduler.status) at h))
]
  where
    clash : none ≡ some a → ⊥
    clash e = cc

status_of_job :
    (k : String) (s : Scheduler) (job : JobRecord)
    → lookup k s.jobs ≡ some job
    → Scheduler.status k s ≡ some job.status
unfolding Scheduler.status
status_of_job k s job there = rw (there, Scheduler.status) refl

-- A queued job that is cancelled is never claimed: the cancellation succeeds, the job is cancelled,
-- and after any sequence of calls that does not create or delete the job it is still cancelled and
-- no claim returns it.
pub cancel-never_claimed :
    (now now' k : String) (calls : List (String × Call)) (s : Scheduler)
    → Scheduler.status k s ≡ some queued
    → all (λ c. spares k c.1) calls ≡ true
    → ((Scheduler.cancel_queued now k s).0 ≡ ok true)
      × (Scheduler.status k (run calls (Scheduler.cancel_queued now k s).1) ≡ some cancelled)
      × ((Scheduler.claim_next now' (run calls (Scheduler.cancel_queued now k s).1)).0 ≢ some k)
cancel-never_claimed now now' k calls s h spared =
    let (won, done, unclaimed) = cancel-before_claim now now' k s h in
    let s1 : Scheduler = (Scheduler.cancel_queued now k s).1 in
    let (job, there, is) = job_of_status k s1 cancelled done in
    let kept : Scheduler.status k (run calls s1) ≡ some cancelled =
      rw
        (status_of_job k (run calls s1) job (
          run-terminal k job calls s1 (rw is (unfold is_terminal status_in same_status in refl))
            spared there))
        (rw is refl) in
    (
      won,
      kept,
      λ claimed. not_both _ kept (is_queued-status k _ (claimed_was_queued now' k _ claimed).0),
    )
