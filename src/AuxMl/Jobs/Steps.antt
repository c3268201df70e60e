-- ===== src/AuxMl/Jobs/Steps.antt =====
-- The calls that change a `JobScheduler` (aux-ml/app/jobs.py), and sequences of them: each call
-- holds the condition, so concurrent callers make some sequence.
use josemar_assistente.Base.{ℕ, String, Bool, true, Option, List, [], ◌∷◌, str_eq, not}
use josemar_assistente.Base.Json.{Json}
use josemar_assistente.Base.Dict.{Dict}
use josemar_assistente.AuxMl.Jobs.Record.{Status}
use josemar_assistente.AuxMl.Jobs.Scheduler
use josemar_assistente.AuxMl.Jobs.Scheduler.{Scheduler}

-- The arguments of `create` besides the identifier.
pub record JobSpec : Type 0 where
  pub task : String
  pub model : String
  pub file_path : String
  pub prompt : Option String
  pub column_split : ℕ
  pub column_split_pages : Option (List ℕ)

pub data Call : Type 0 where
  create : String → JobSpec → Call
  delete enqueue cancel_queued : String → Call
  dequeue claim_next : Call
  mark_running mark_cancelling mark_cancelled : String → Call
  mark_succeeded : String → Dict Json → Call
  mark_failed : String → String → Status → Call
  mark_failed_cleanup : String → String → Call

abbrev pub create_job : String → String → JobSpec → Scheduler → Scheduler
create_job now k spec s =
    (Scheduler.create now k spec.task spec.model spec.file_path spec.prompt spec.column_split
      spec.column_split_pages s).1

-- The state after one call, made at the time `now`.
unfoldable pub step : String → Call → Scheduler → Scheduler
step now (create k spec) s = create_job now k spec s
step now (delete k) s = Scheduler.delete k s
step now (enqueue k) s = (Scheduler.enqueue k s).1
step now (cancel_queued k) s = (Scheduler.cancel_queued now k s).1
step now dequeue s = (Scheduler.dequeue s).1
step now claim_next s = (Scheduler.claim_next now s).1
step now (mark_running k) s = (Scheduler.mark_running now k s).1
step now (mark_cancelling k) s = (Scheduler.mark_cancelling now k s).1
step now (mark_cancelled k) s = (Scheduler.mark_cancelled now k s).1
step now (mark_succeeded k r) s = (Scheduler.mark_succeeded now k r s).1
step now (mark_failed k e expected) s = (Scheduler.mark_failed now k e expected s).1
step now (mark_failed_cleanup k e) s = (Scheduler.mark_failed_cleanup now k e s).1

unfoldable pub run : List (String × Call) → Scheduler → Scheduler
run [] s = s
run ((now, call) ∷ calls) s = run calls (step now call s)

-- The call neither creates nor deletes the job `k`. (Identifiers are fresh, so no call of the
-- service creates a job that is there, and it deletes only a job that found the queue full.)
abbrev pub spares : String → Call → Bool
spares k (create j spec) = not (str_eq j k)
spares k (delete j) = not (str_eq j k)
spares k _ = true
