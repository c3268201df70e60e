-- ===== src/AuxMl/Jobs/Examples.antt =====
-- Runs of the scheduler of aux-ml/app/jobs.py on concrete inputs.
use josemar_assistente.Base.{
  ◌≤◌, String, ◌≡◌, ◌≢◌, refl, ◌⊎◌, true, false, not, none, some, List, [], ◌∷◌, ◌++◌, length, all,
}
use josemar_assistente.Base.Dict.{lookup, insert}
use josemar_assistente.Base.Result.{ok}
use josemar_assistente.AuxMl.Jobs.Record.{
  queued, running, cancelled, JobRecord, status_in, transitions, same_status, is_terminal,
  updated_job,
}
use josemar_assistente.AuxMl.Jobs.Scheduler
use josemar_assistente.AuxMl.Jobs.Scheduler.{Scheduler, cas_job, cas_locked, claim_from, set_event}
use josemar_assistente.AuxMl.Jobs.Steps.{
  JobSpec, Call, create, enqueue, claim_next, mark_cancelling, mark_cancelled, mark_succeeded, step,
  run,
}
use josemar_assistente.AuxMl.Jobs.Cas.{on_some}
use josemar_assistente.AuxMl.Jobs.Lifecycle.{step-follows_table, run-terminal}
use josemar_assistente.AuxMl.Jobs.Invariants.{run-IsSignalled, run-bounded}
use josemar_assistente.AuxMl.Jobs.Fifo.{
  is_queued, claim_next-fifo, late_result-lost, claim-before_cancel,
}
use josemar_assistente.AuxMl.Jobs.Unclaimed.{cancel-never_claimed}

abbrev pub scan : JobSpec
scan = record {
  task = "ocr";
  model = "glm";
  file_path = "/shared/a.png";
  prompt = none;
  column_split = 1;
  column_split_pages = none;
}

-- Two jobs are queued; the first is claimed and then cancelled.
abbrev script : List (String × Call)
script =
    ("t0", create "a" scan)
    ∷ ("t1", enqueue "a")
    ∷ ("t2", create "b" scan)
    ∷ ("t3", enqueue "b")
    ∷ ("t4", claim_next)
    ∷ ("t5", mark_cancelling "a")
    ∷ ("t6", mark_cancelled "a")
    ∷ []

abbrev pub two_queued : Scheduler
two_queued =
    run
      (("t0", create "a" scan)
        ∷ ("t1", enqueue "a")
        ∷ ("t2", create "b" scan)
        ∷ ("t3", enqueue "b")
        ∷ [])
      (Scheduler.init 2)

abbrev after_cancel : Scheduler
after_cancel = run script (Scheduler.init 2)

abbrev pub job_of : String → String → JobRecord
job_of k now = record {
  id = k;
  task = "ocr";
  model = "glm";
  file_path = "/shared/a.png";
  prompt = none;
  column_split = 1;
  column_split_pages = none;
  status = queued;
  created_at = now;
  started_at = none;
  finished_at = none;
  result = none;
  error = none;
}

abbrev cancelled_job : JobRecord
cancelled_job = record (job_of "a" "t0") {
  status = cancelled;
  started_at = some "t4";
  finished_at = some "t6";
}

-- What a run computes with.
unfoldable pub Opened : Type 0
unfolding lookup insert status_in transitions same_status is_terminal updated_job cas_job cas_locked
    claim_from set_event step run Scheduler.init Scheduler.create Scheduler.enqueue
    Scheduler.claim_next Scheduler.cancel_queued Scheduler.mark_cancelling Scheduler.mark_cancelled
    Scheduler.mark_succeeded Scheduler.status
Opened = Unit

step-follows_table_example :
    (job' : JobRecord) × (lookup "b" (step "t4" claim_next two_queued).jobs ≡ some job')
    × ((job' ≡ job_of "b" "t2")
        ⊎ (status_in job'.status (transitions (job_of "b" "t2").status) ≡ true))
unfolding Opened
step-follows_table_example =
    step-follows_table "t4" "b" claim_next two_queued (job_of "b" "t2") refl refl

-- A success that arrives after the cancellation leaves the record as it is.
run-terminal_example :
    lookup "a" (run (("t7", mark_succeeded "a" []) ∷ ("t8", claim_next) ∷ []) after_cancel).jobs
    ≡ some cancelled_job
unfolding Opened
run-terminal_example =
    run-terminal "a" cancelled_job (("t7", mark_succeeded "a" []) ∷ ("t8", claim_next) ∷ [])
      after_cancel refl refl refl

run-IsSignalled_example :
    lookup "a" after_cancel.events
    ≡ on_some (λ job. is_terminal job.status) (lookup "a" after_cancel.jobs)
run-IsSignalled_example = run-IsSignalled 2 script "a"

run-bounded_example : length after_cancel.queue ≤ 2
run-bounded_example = run-bounded 2 script

claim_next-fifo_example :
    ((skipped : List String) × (k : String) × (rest : List String) × (two_queued.queue
        ≡ skipped ++ k ∷ rest)
      × (all (λ j. not (is_queued two_queued j)) skipped ≡ true)
      × (is_queued two_queued k ≡ true)
      × ((Scheduler.claim_next "t4" two_queued).0 ≡ some k)
      × (Scheduler.status k (Scheduler.claim_next "t4" two_queued).1 ≡ some running)
      × ((Scheduler.claim_next "t4" two_queued).1.queue ≡ rest))
    ⊎ (all (λ j. not (is_queued two_queued j)) two_queued.queue ≡ true)
      × (Scheduler.claim_next "t4" two_queued ≡ (none, record two_queued { queue = [] }))
claim_next-fifo_example = claim_next-fifo "t4" two_queued

late_result-lost_example :
    (Scheduler.mark_succeeded "t7" "a" [] after_cancel ≡ (ok false, after_cancel))
    × (Scheduler.mark_failed "t7" "a" "late" running after_cancel ≡ (ok false, after_cancel))
unfolding Opened
late_result-lost_example = late_result-lost "t7" "a" [] "late" cancelled after_cancel refl refl

abbrev later : List (String × Call)
later = ("t5", mark_cancelling "a") ∷ ("t6", claim_next) ∷ []

cancel-never_claimed_example :
    ((Scheduler.cancel_queued "t4" "a" two_queued).0 ≡ ok true)
    × (Scheduler.status "a" (run later (Scheduler.cancel_queued "t4" "a" two_queued).1)
        ≡ some cancelled)
    × ((Scheduler.claim_next "t7" (run later (Scheduler.cancel_queued "t4" "a" two_queued).1)).0
        ≢ some "a")
unfolding Opened
cancel-never_claimed_example = cancel-never_claimed "t4" "t7" "a" later two_queued refl refl

claim-before_cancel_example :
    Scheduler.cancel_queued "t5" "a" (Scheduler.claim_next "t4" two_queued).1
    ≡ (ok false, (Scheduler.claim_next "t4" two_queued).1)
unfolding Opened
claim-before_cancel_example = claim-before_cancel "t4" "t5" "a" two_queued refl
