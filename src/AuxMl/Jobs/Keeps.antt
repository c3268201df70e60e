-- ===== src/AuxMl/Jobs/Keeps.antt =====
-- One rule for invariants of the whole scheduler (aux-ml/app/jobs.py): what survives a shorter
-- queue, an enqueue, a creation, a deletion and a compare-and-set survives every call.
use josemar_assistente.Base.{
  ◌≤◌, String, ◌≡◌, refl, Bool, true, false, Option, none, some, List, [], ◌∷◌, arith, length,
  remove_first, length-remove_first-le, Option-cases, Bool-cases, inl, inr,
}
use josemar_assistente.Base.Json.{Json}
use josemar_assistente.Base.Dict.{Dict, lookup}
use josemar_assistente.AuxMl.Jobs.Record.{
  Status, queued, running, cancelling, succeeded, failed, cancelled, same_status,
}
use josemar_assistente.AuxMl.Jobs.Scheduler
use josemar_assistente.AuxMl.Jobs.Scheduler.{Scheduler, cas_locked, claim_from, pop_left}
use josemar_assistente.AuxMl.Jobs.Steps.{
  JobSpec, Call, create, delete, enqueue, cancel_queued, dequeue, claim_next, mark_running,
  mark_cancelling, mark_cancelled, mark_succeeded, mark_failed, mark_failed_cleanup, create_job,
  step, run,
}

-- The result and the error that the `mark_` methods pass with each new status.
abbrev pub payload_fits : Status → Option (Dict Json) → Option String → Bool
payload_fits running none none = true
payload_fits cancelling none none = true
payload_fits cancelled none none = true
payload_fits succeeded (some r) none = true
payload_fits failed none (some e) = true
payload_fits _ _ _ = false

pub record Keeps (P : Scheduler → Type 0) : Type 0 where
  pub shorter :
      (q : List String) (s : Scheduler)
      → length q ≤ length s.queue
      → P s
      → P (record s { queue = q })
  pub enqueue_keeps : (k : String) (s : Scheduler) → P s → P (Scheduler.enqueue k s).1
  pub create_keeps :
      (now k : String) (spec : JobSpec) (s : Scheduler) → P s → P (create_job now k spec s)
  pub delete_keeps : (k : String) (s : Scheduler) → P s → P (Scheduler.delete k s)
  pub cas_keeps :
      (now k : String) (e n : Status) (r : Option (Dict Json)) (x : Option String) (s : Scheduler)
      → payload_fits n r x ≡ true
      → P s
      → P (cas_locked now k e n r x s).1

module _ {P : Scheduler → Type 0} (keeps : Keeps P) where
  claim_from-keeps :
      (now : String) (q : List String) (s : Scheduler)
      → length q ≤ length s.queue
      → P s
      → P (claim_from now q s).1
  unfolding claim_from
  claim_from-keeps now [] s le p = keeps.shorter [] s (omega arith) p
  claim_from-keeps now (j ∷ rest) s le p = elim (Option-cases (lookup j s.jobs)) [
    | inl missing ↦ rw (missing, claim_from) (claim_from-keeps now rest s (omega arith) p)
    | inr (job, there) ↦ elim (Bool-cases (same_status job.status queued)) [
      | inl fresh ↦
          rw (there, claim_from)
            (rw fresh (
              keeps.cas_keeps now j queued running none none _ refl
                (keeps.shorter rest s (omega arith) p)))
      | inr stale ↦ rw (there, claim_from) (rw stale (claim_from-keeps now rest s (omega arith) p))
    ]
  ]

  cancel_queued-keeps :
      (now j : String) (s : Scheduler) → P s → P (Scheduler.cancel_queued now j s).1
  unfolding Scheduler.cancel_queued
  cancel_queued-keeps now j s p = elim (Option-cases (lookup j s.jobs)) [
    | inl missing ↦ rw (missing, Scheduler.cancel_queued) p
    | inr (job, there) ↦ elim (Bool-cases (same_status job.status queued)) [
      | inl fresh ↦
          rw (there, Scheduler.cancel_queued)
            (rw fresh (
              keeps.cas_keeps now j queued cancelled none none _ refl
                (keeps.shorter (remove_first j s.queue) s (length-remove_first-le j s.queue) p)))
      | inr stale ↦ rw (there, Scheduler.cancel_queued) (rw stale p)
    ]
  ]

  pop_left-keeps :
      (q : List String) (s : Scheduler) → length q ≤ length s.queue → P s → P (pop_left q s).1
  pop_left-keeps [] s le p = p
  pop_left-keeps (j ∷ rest) s le p = keeps.shorter rest s (omega arith) p

  pub step-keeps : (now : String) (call : Call) (s : Scheduler) → P s → P (step now call s)
  unfolding step Scheduler.dequeue Scheduler.claim_next Scheduler.mark_running
      Scheduler.mark_cancelling Scheduler.mark_cancelled Scheduler.mark_succeeded
      Scheduler.mark_failed Scheduler.mark_failed_cleanup
  step-keeps now (create j spec) s p = keeps.create_keeps now j spec s p
  step-keeps now (delete j) s p = keeps.delete_keeps j s p
  step-keeps now (enqueue j) s p = keeps.enqueue_keeps j s p
  step-keeps now dequeue s p = pop_left-keeps s.queue s (omega arith) p
  step-keeps now claim_next s p = claim_from-keeps now s.queue s (omega arith) p
  step-keeps now (cancel_queued j) s p = cancel_queued-keeps now j s p
  step-keeps now (mark_running j) s p = keeps.cas_keeps now j _ _ none none s refl p
  step-keeps now (mark_cancelling j) s p = keeps.cas_keeps now j _ _ none none s refl p
  step-keeps now (mark_cancelled j) s p = keeps.cas_keeps now j _ _ none none s refl p
  step-keeps now (mark_succeeded j r) s p = keeps.cas_keeps now j _ _ (some r) none s refl p
  step-keeps now (mark_failed j e expected) s p = keeps.cas_keeps now j _ _ none (some e) s refl p
  step-keeps now (mark_failed_cleanup j e) s p = keeps.cas_keeps now j _ _ none (some e) s refl p

  pub run-keeps : (calls : List (String × Call)) (s : Scheduler) → P s → P (run calls s)
  unfolding run
  run-keeps [] s p = p
  run-keeps ((now, call) ∷ calls) s p = run-keeps calls (step now call s) (step-keeps now call s p)
