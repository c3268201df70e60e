-- ===== src/AuxMl/Jobs/Scheduler.antt =====
-- The methods of `JobScheduler` (aux-ml/app/jobs.py). Each holds the one condition for all of its
-- body, so each is one function of the whole state. Where a method would wait for a job, the model
-- returns `none` and the state in which it waits.
use josemar_assistente.Base.{
  ℕ, String, Bool, true, false, Option, none, some, List, [], ◌∷◌, ◌++◌, length, leb, not,
  remove_first, if◌then◌else◌,
}
use josemar_assistente.Base.Json.{Json}
use josemar_assistente.Base.Dict.{Dict, lookup, insert, remove}
use josemar_assistente.Base.Result.{Result, ok, err}
use josemar_assistente.AuxMl.Jobs.Record.{
  Status, queued, running, cancelling, succeeded, failed, cancelled, JobRecord, same_status,
  status_in, transitions, is_terminal, updated_job, cancellable_statuses,
}

pub record Scheduler : Type 0 where
  pub max_size : ℕ
  pub queue : List String
  pub jobs : Dict JobRecord
  -- the completion events: whether each is set
  pub events : Dict Bool

-- `QueueFullError` and `JobStateError`
pub data JobError : Type 0 where
  queue_full : ℕ → JobError
  job_state : String → Status → Status → JobError

unfoldable pub init : ℕ → Scheduler
init max_size = record { max_size = max_size; queue = []; jobs = []; events = [] }

-- `event.set()` where there is an event
unfoldable pub set_event : String → Dict Bool → Dict Bool
set_event job_id events = elim (lookup job_id events) [
  | none ↦ events
  | some _ ↦ insert job_id true events
]

-- `_cas_locked` from the status test on, for a job that was found
unfoldable pub cas_job :
    String
    → String
    → Status
    → Status
    → Option (Dict Json)
    → Option String
    → JobRecord
    → Scheduler
    → Result JobError Bool × Scheduler
cas_job now job_id expected new_status result error job s =
    if not (same_status job.status expected)
    then (ok false, s)
    else if not (status_in new_status (transitions expected))
    then (err (job_state job_id expected new_status), s)
    else (
      ok true,
      record s {
        jobs = insert job_id (updated_job now new_status result error job) s.jobs;
        events = if is_terminal new_status then set_event job_id s.events else s.events;
      },
    )

unfoldable pub cas_locked :
    String
    → String
    → Status
    → Status
    → Option (Dict Json)
    → Option String
    → Scheduler
    → Result JobError Bool × Scheduler
cas_locked now job_id expected new_status result error s = elim (lookup job_id s.jobs) [
  | none ↦ (ok false, s)
  | some job ↦ cas_job now job_id expected new_status result error job s
]

-- `job_id` is the fresh identifier that the source draws with `uuid.uuid4()`.
unfoldable pub create :
    String
    → String
    → String
    → String
    → String
    → Option String
    → ℕ
    → Option (List ℕ)
    → Scheduler
    → JobRecord × Scheduler
create now job_id task model file_path prompt column_split column_split_pages s =
    let job : JobRecord = record {
      id = job_id;
      task = task;
      model = model;
      file_path = file_path;
      prompt = prompt;
      column_split = column_split;
      column_split_pages = column_split_pages;
      status = queued;
      created_at = now;
      started_at = none;
      finished_at = none;
      result = none;
      error = none;
    } in
    (job, record s { jobs = insert job_id job s.jobs; events = insert job_id false s.events })

unfoldable pub get : String → Scheduler → Option JobRecord
get job_id s = lookup job_id s.jobs

unfoldable pub delete : String → Scheduler → Scheduler
delete job_id s = record s {
  queue = remove_first job_id s.queue;
  jobs = remove job_id s.jobs;
  events = remove job_id s.events;
}

-- The position in the queue, counted from 1.
unfoldable pub enqueue : String → Scheduler → Result JobError ℕ × Scheduler
enqueue job_id s =
    if leb s.max_size (length s.queue)
    then (err (queue_full s.max_size), s)
    else let queue = s.queue ++ job_id ∷ [] in (ok (length queue), record s { queue = queue })

abbrev pub pop_left : List String → Scheduler → Option String × Scheduler
pop_left [] s = (none, s)
pop_left (job_id ∷ rest) s = (some job_id, record s { queue = rest })

unfoldable pub dequeue : Scheduler → Option String × Scheduler
dequeue s = pop_left s.queue s

abbrev first_of_queue : List String → Option String
first_of_queue [] = none
first_of_queue (job_id ∷ rest) = some job_id

unfoldable pub peek : Scheduler → Option String
peek s = first_of_queue s.queue

unfoldable pub snapshot_ids : Scheduler → List String
snapshot_ids s = s.queue

unfoldable pub size : Scheduler → ℕ
size s = length s.queue

-- The loop of `claim_next`: it pops identifiers until one names a job that is still queued.
unfoldable pub claim_from : String → List String → Scheduler → Option String × Scheduler
claim_from now [] s = (none, record s { queue = [] })
claim_from now (job_id ∷ rest) s = elim (lookup job_id s.jobs) [
  | none ↦ claim_from now rest s
  | some job ↦ elim (same_status job.status queued) [
    | false ↦ claim_from now rest s
    | true ↦ (
      some job_id,
      (cas_locked now job_id queued running none none (record s { queue = rest })).1,
    )
  ]
]

-- The claimed job is returned by its identifier: the source returns the stored object itself.
unfoldable pub claim_next : String → Scheduler → Option String × Scheduler
claim_next now s = claim_from now s.queue s

unfoldable pub cancel_queued : String → String → Scheduler → Result JobError Bool × Scheduler
cancel_queued now job_id s = elim (lookup job_id s.jobs) [
  | none ↦ (ok false, s)
  | some job ↦
      if not (same_status job.status queued)
      then (ok false, s)
      else cas_locked now job_id queued cancelled none none
          (record s { queue = remove_first job_id s.queue })
]

unfoldable pub mark_running : String → String → Scheduler → Result JobError Bool × Scheduler
mark_running now job_id s = cas_locked now job_id queued running none none s

unfoldable pub mark_succeeded :
    String → String → Dict Json → Scheduler → Result JobError Bool × Scheduler
mark_succeeded now job_id result s = cas_locked now job_id running succeeded (some result) none s

unfoldable pub mark_failed :
    String → String → String → Status → Scheduler → Result JobError Bool × Scheduler
mark_failed now job_id error expected s = cas_locked now job_id expected failed none (some error) s

unfoldable pub mark_cancelling : String → String → Scheduler → Result JobError Bool × Scheduler
mark_cancelling now job_id s = cas_locked now job_id running cancelling none none s

unfoldable pub mark_cancelled : String → String → Scheduler → Result JobError Bool × Scheduler
mark_cancelled now job_id s = cas_locked now job_id cancelling cancelled none none s

unfoldable pub mark_failed_cleanup :
    String → String → String → Scheduler → Result JobError Bool × Scheduler
mark_failed_cleanup now job_id error s = cas_locked now job_id cancelling failed none (some error) s

unfoldable pub status : String → Scheduler → Option Status
status job_id s = elim (lookup job_id s.jobs) [ none ↦ none | some job ↦ some job.status ]

unfoldable pub is_cancellable : String → Scheduler → Bool
is_cancellable job_id s = elim (lookup job_id s.jobs) [
  | none ↦ false
  | some job ↦ status_in job.status cancellable_statuses
]
