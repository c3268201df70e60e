-- ===== src/AuxMl/Jobs/Lifecycle.antt =====
-- How the status of a job may change over any sequence of calls (aux-ml/app/jobs.py, the diagram
-- above `TERMINAL_STATUSES`).
use josemar_assistente.Base.{
  String, ◌≡◌, refl, ◌⊎◌, inl, inr, Bool, true, false, Option, none, some, List, [], ◌∷◌, arith,
  str_eq, Bool-cases, not, remove_first, all, Option-cases, ◌&&◌,
}
use josemar_assistente.Base.Json.{Json}
use josemar_assistente.Base.Dict.{Dict, lookup, lookup-insert, lookup-remove}
use josemar_assistente.AuxMl.Jobs.Record.{
  Status, queued, running, cancelled, JobRecord, same_status, status_in, transitions, is_terminal,
}
use josemar_assistente.AuxMl.Jobs.Scheduler
use josemar_assistente.AuxMl.Jobs.Scheduler.{Scheduler, cas_locked, claim_from}
use josemar_assistente.AuxMl.Jobs.Cas.{cas_effect, lookup-cas_locked, status-updated_job}
use josemar_assistente.AuxMl.Jobs.Steps.{
  Call, create, delete, enqueue, cancel_queued, dequeue, claim_next, mark_running, mark_cancelling,
  mark_cancelled, mark_succeeded, mark_failed, mark_failed_cleanup, step, run, spares,
}

and_left : (a b : Bool) → (a && b) ≡ true → a ≡ true
and_left a b h = ground arith

and_right : (a b : Bool) → (a && b) ≡ true → b ≡ true
and_right a b h = ground arith

false_of_not : (b : Bool) → not b ≡ true → b ≡ false
false_of_not b h = ground arith

pub jobs-enqueue : (k : String) (s : Scheduler) → (Scheduler.enqueue k s).1.jobs ≡ s.jobs
unfolding Scheduler.enqueue
jobs-enqueue k s = ground arith

jobs-dequeue : (s : Scheduler) → (Scheduler.dequeue s).1.jobs ≡ s.jobs
unfolding Scheduler.dequeue
jobs-dequeue s = ground arith

-- The job is as it was, or its status went along an edge of the table.
abbrev pub Follows : JobRecord → JobRecord → Type 0
Follows job job' = (job' ≡ job) ⊎ (status_in job'.status (transitions job.status) ≡ true)

edge_of_source :
    (a e n : Status)
    → same_status a e ≡ true
    → status_in n (transitions e) ≡ true
    → status_in n (transitions a) ≡ true
unfolding same_status
edge_of_source a e n p q = ground arith

cas_effect-Follows :
    (now : String) (e n : Status) (r : Option (Dict Json)) (x : Option String) (job : JobRecord)
    → Follows job (cas_effect now e n r x job)
unfolding cas_effect
cas_effect-Follows now e n r x job =
    elim (Bool-cases (same_status job.status e && status_in n (transitions e))) [
      | inl fires ↦ inr (
          rw fires (
            rw status-updated_job
              (edge_of_source job.status e n (and_left _ _ fires) (and_right _ _ fires))))
      | inr lost ↦ inl (rw lost)
    ]

-- The job `k`, which is `job` now, is there in the state `s` too, at most one edge further.
abbrev pub Advances : String → JobRecord → Scheduler → Type 0
Advances k job s = (job' : JobRecord) × (lookup k s.jobs ≡ some job') × Follows job job'

module _ (k : String) (job : JobRecord) where
  cas_locked-Advances :
      (now j : String) (e n : Status) (r : Option (Dict Json)) (x : Option String) (s : Scheduler)
      → lookup k s.jobs ≡ some job
      → Advances k job (cas_locked now j e n r x s).1
  cas_locked-Advances now j e n r x s found = elim (Bool-cases (str_eq j k)) [
    | inl same ↦ (
      cas_effect now e n r x job,
      rw (lookup-cas_locked, same, found) refl,
      cas_effect-Follows now e n r x job,
    )
    | inr other ↦ (job, rw (lookup-cas_locked, other) found, inl refl)
  ]

  claim_from-Advances :
      (now : String) (q : List String) (s : Scheduler)
      → lookup k s.jobs ≡ some job
      → Advances k job (claim_from now q s).1
  unfolding claim_from
  claim_from-Advances now [] s found = (job, found, inl refl)
  claim_from-Advances now (j ∷ rest) s found = elim (Option-cases (lookup j s.jobs)) [
    | inl missing ↦ rw (missing, claim_from) (claim_from-Advances now rest s found)
    | inr (other, there) ↦ elim (Bool-cases (same_status other.status queued)) [
      | inl fresh ↦
          rw (there, claim_from)
            (rw fresh (
              cas_locked-Advances now j queued running none none (record s { queue = rest }) found))
      | inr stale ↦ rw (there, claim_from) (rw stale (claim_from-Advances now rest s found))
    ]
  ]

  cancel_queued-Advances :
      (now j : String) (s : Scheduler)
      → lookup k s.jobs ≡ some job
      → Advances k job (Scheduler.cancel_queued now j s).1
  unfolding Scheduler.cancel_queued
  cancel_queued-Advances now j s found = elim (Option-cases (lookup j s.jobs)) [
    | inl missing ↦ rw (missing, Scheduler.cancel_queued) (job, found, inl refl)
    | inr (other, there) ↦ elim (Bool-cases (same_status other.status queued)) [
      | inl fresh ↦
          rw (there, Scheduler.cancel_queued)
            (rw fresh (
              cas_locked-Advances now j queued cancelled none none
                (record s { queue = remove_first j s.queue }) found))
      | inr stale ↦ rw (there, Scheduler.cancel_queued) (rw stale (job, found, inl refl))
    ]
  ]

  step-Advances :
      (now : String) (call : Call) (s : Scheduler)
      → spares k call ≡ true
      → lookup k s.jobs ≡ some job
      → Advances k job (step now call s)
  unfolding step Scheduler.create Scheduler.delete Scheduler.claim_next Scheduler.mark_running
      Scheduler.mark_cancelling Scheduler.mark_cancelled Scheduler.mark_succeeded
      Scheduler.mark_failed Scheduler.mark_failed_cleanup
  step-Advances now (create j spec) s spared found =
      (job, rw (lookup-insert, false_of_not _ spared) found, inl refl)
  step-Advances now (delete j) s spared found =
      (job, rw (lookup-remove, false_of_not _ spared) found, inl refl)
  step-Advances now (enqueue j) s spared found = (job, rw jobs-enqueue found, inl refl)
  step-Advances now dequeue s spared found = (job, rw jobs-dequeue found, inl refl)
  step-Advances now claim_next s spared found = claim_from-Advances now s.queue s found
  step-Advances now (cancel_queued j) s spared found = cancel_queued-Advances now j s found
  step-Advances now (mark_running j) s spared found =
      cas_locked-Advances now j _ _ none none s found
  step-Advances now (mark_cancelling j) s spared found =
      cas_locked-Advances now j _ _ none none s found
  step-Advances now (mark_cancelled j) s spared found =
      cas_locked-Advances now j _ _ none none s found
  step-Advances now (mark_succeeded j r) s spared found =
      cas_locked-Advances now j _ _ (some r) none s found
  step-Advances now (mark_failed j e expected) s spared found =
      cas_locked-Advances now j _ _ none (some e) s found
  step-Advances now (mark_failed_cleanup j e) s spared found =
      cas_locked-Advances now j _ _ none (some e) s found

-- A terminal job has no edge to follow.
Follows-terminal :
    (job job' : JobRecord) → is_terminal job.status ≡ true → Follows job job' → job' ≡ job
unfolding is_terminal status_in transitions same_status
Follows-terminal job job' t f = ground arith

-- Every status change of one call is an edge of the transition table: a job that the call does not
-- create or delete is still there, and it is either wholly unchanged or has moved along an edge.
pub step-follows_table :
    (now k : String) (call : Call) (s : Scheduler) (job : JobRecord)
    → spares k call ≡ true
    → lookup k s.jobs ≡ some job
    → (job' : JobRecord) × (lookup k (step now call s).jobs ≡ some job')
      × ((job' ≡ job) ⊎ (status_in job'.status (transitions job.status) ≡ true))
step-follows_table now k call s job spared found = step-Advances k job now call s spared found

-- A terminal job never changes again: over any sequence of calls that does not create or delete it,
-- its whole record (status, result, error, times) stays what it was. So a late success or failure
-- does not overwrite a cancelled job.
pub run-terminal :
    (k : String) (job : JobRecord) (calls : List (String × Call)) (s : Scheduler)
    → is_terminal job.status ≡ true
    → all (λ c. spares k c.1) calls ≡ true
    → lookup k s.jobs ≡ some job
    → lookup k (run calls s).jobs ≡ some job
unfolding run
run-terminal k job [] s t spared found = found
run-terminal k job ((now, call) ∷ calls) s t spared found =
    let (job', found', f) = step-Advances k job now call s (and_left _ _ spared) found in
    run-terminal k job calls (step now call s) t (and_right _ _ spared)
      (rw (Follows-terminal job job' t f) at found')
