-- ===== src/AuxMl/Jobs/Invariants.antt =====
-- What holds of the scheduler of aux-ml/app/jobs.py after any sequence of calls.
use josemar_assistente.Base.{
  ℕ, ◌≤◌, String, ◌≡◌, refl, Bool, true, false, Option, none, some, List, [], ◌∷◌, arith, length,
  length-append, length-remove_first-le,
}
use josemar_assistente.Base.Json.{Json}
use josemar_assistente.Base.Dict.{Dict, lookup, lookup-insert, lookup-remove}
use josemar_assistente.AuxMl.Jobs.Record.{
  queued, running, cancelling, succeeded, failed, JobRecord, same_status, status_in, is_terminal,
}
use josemar_assistente.AuxMl.Jobs.Scheduler
use josemar_assistente.AuxMl.Jobs.Scheduler.{Scheduler, cas_locked}
use josemar_assistente.AuxMl.Jobs.Cas.{
  on_some, IsSignalled, queue-cas_locked, max_size-cas_locked, IsSignalled-cas_locked,
}
use josemar_assistente.AuxMl.Jobs.Steps.{Call, run}
use josemar_assistente.AuxMl.Jobs.Keeps.{Keeps, run-keeps}

-- Completion events.
IsSignalled-keeps : Keeps IsSignalled
unfolding Scheduler.enqueue Scheduler.create Scheduler.delete is_terminal status_in same_status
IsSignalled-keeps = record {
  shorter = λ q s le h. h;
  enqueue_keeps = λ k s h j. ground (arith, h j);
  create_keeps = λ now k spec s h j. rw lookup-insert (rw lookup-insert (ground (arith, h j)));
  delete_keeps = λ k s h j. rw lookup-remove (rw lookup-remove (ground (arith, h j)));
  cas_keeps = λ now k e n r x s fits h. IsSignalled-cas_locked now k e n r x s h;
}

-- The queue is never longer than its bound.
abbrev IsBounded : ℕ → Scheduler → Type 0
IsBounded m s = (length s.queue ≤ m) × (s.max_size ≡ m)

IsBounded-keeps : (m : ℕ) → Keeps (IsBounded m)
unfolding Scheduler.enqueue Scheduler.create Scheduler.delete
IsBounded-keeps m = record {
  shorter = λ q s le h. omega arith;
  enqueue_keeps = λ k s h. ground (arith, length-append s.queue (k ∷ []));
  create_keeps = λ now k spec s h. h;
  delete_keeps = λ k s h. omega (arith, length-remove_first-le k s.queue);
  cas_keeps = λ now k e n r x s fits h. rw (queue-cas_locked, max_size-cas_locked) h;
}

abbrev is_some {ℓ} : {A : Type ℓ} → Option A → Bool
is_some none = false
is_some (some a) = true

-- A record stored under the key `k`: it has its own identifier, a finish time exactly when it is
-- terminal, a result exactly when it succeeded, an error exactly when it failed, no start time
-- while it is queued, and one from `running` on unless it was cancelled.
pub record IsValid (k : String) (job : JobRecord) : Type 0 where
  pub own_id : job.id ≡ k
  pub finished : is_some job.finished_at ≡ is_terminal job.status
  pub has_result : is_some job.result ≡ same_status job.status succeeded
  pub has_error : is_some job.error ≡ same_status job.status failed
  pub not_started : same_status job.status queued ≡ true → job.started_at ≡ none
  pub started :
      status_in job.status (running ∷ cancelling ∷ succeeded ∷ failed ∷ []) ≡ true
      → is_some job.started_at ≡ true

abbrev OptionValid : String → Option JobRecord → Type 0
OptionValid k none = Unit
OptionValid k (some job) = IsValid k job

abbrev AllValid : Scheduler → Type 0
AllValid s = (k : String) → OptionValid k (lookup k s.jobs)

-- After any sequence of calls on a new scheduler, each job has a completion event, set exactly when
-- the job is terminal, and there is no event without a job: no waiter in `wait_for_terminal` is left
-- waiting for a job that is done.
pub run-IsSignalled :
    (m : ℕ) (calls : List (String × Call)) (k : String)
    → lookup k (run calls (Scheduler.init m)).events
      ≡ on_some (λ job. is_terminal job.status) (lookup k (run calls (Scheduler.init m)).jobs)
unfolding Scheduler.init lookup
run-IsSignalled m calls = run-keeps IsSignalled-keeps calls (Scheduler.init m) (λ j. refl)

-- After any sequence of calls on a new scheduler the queue has at most `max_size` entries.
pub run-bounded :
    (m : ℕ) (calls : List (String × Call)) → length (run calls (Scheduler.init m)).queue ≤ m
unfolding Scheduler.init
run-bounded m calls = (run-keeps (IsBounded-keeps m) calls (Scheduler.init m) (omega arith, refl)).0
