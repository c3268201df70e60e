-- ===== src/AuxMl/Jobs/Outcomes.antt =====
-- The two answers of a compare-and-set along an edge (aux-ml/app/jobs.py).
use josemar_assistente.Base.{
  String, ◌≡◌, ap, ◌∙◌, ◌⊎◌, inl, inr, Bool, true, false, Option, none, some, arith, Bool-cases,
}
use josemar_assistente.Base.Json.{Json}
use josemar_assistente.Base.Dict.{Dict, lookup}
use josemar_assistente.Base.Result.{Result, ok, err}
use josemar_assistente.AuxMl.Jobs.Record.{
  Status, queued, cancelled, same_status, status_in, transitions,
}
use josemar_assistente.AuxMl.Jobs.Scheduler
use josemar_assistente.AuxMl.Jobs.Scheduler.{Scheduler, JobError, cas_locked}
use josemar_assistente.AuxMl.Jobs.Cas.{on_none, cas_locked-ok}
use josemar_assistente.AuxMl.Jobs.Fifo.{
  status-cas_self, cas_locked-lost, cancel-before_claim, cancel_queued-lost,
}

-- `cancel_queued` and `mark_cancelling` do not raise, and where they apply they have the status that
-- they promise; where they do not, nothing changes.
abbrev pub Applies :
    String → Status → Status → Scheduler → Result JobError Bool × Scheduler → Type 0
Applies k e n s r =
    (Scheduler.status k s ≡ some e) × (r.0 ≡ ok true) × (Scheduler.status k r.1 ≡ some n)
    ⊎ (on_none false (λ a. same_status a e) (Scheduler.status k s) ≡ false) × (r ≡ (ok false, s))

status_of_same :
    (e : Status) (o : Option Status) → on_none false (λ a. same_status a e) o ≡ true → o ≡ some e
unfolding same_status
status_of_same e none h = cc
status_of_same e (some a) h = ground arith

stored_same :
    (e : Status) (k : String) (s : Scheduler)
    → on_none false (λ a. same_status a e) (Scheduler.status k s) ≡ true
    → on_none false (λ job. same_status job.status e) (lookup k s.jobs) ≡ true
unfolding Scheduler.status
stored_same e k s h = ground arith

pub cas_locked-Applies :
    (now k : String) (e n : Status) (r : Option (Dict Json)) (x : Option String) (s : Scheduler)
    → status_in n (transitions e) ≡ true
    → Applies k e n s (cas_locked now k e n r x s)
cas_locked-Applies now k e n r x s edge =
    elim (Bool-cases (on_none false (λ a. same_status a e) (Scheduler.status k s))) [
      | inl same ↦
          let h = status_of_same e (Scheduler.status k s) same in
          inl (
            h,
            cas_locked-ok now k e n r x s edge ∙ ap ok (stored_same e k s same),
            status-cas_self now k e n r x s h edge,
          )
      | inr lost ↦ inr (lost, cas_locked-lost now k e n r x s lost)
    ]

pub cancel_queued-Applies :
    (now k : String) (s : Scheduler)
    → Applies k queued cancelled s (Scheduler.cancel_queued now k s)
cancel_queued-Applies now k s =
    elim (Bool-cases (on_none false (λ a. same_status a queued) (Scheduler.status k s))) [
      | inl same ↦
          let h = status_of_same queued (Scheduler.status k s) same in
          let (won, done, gone) = cancel-before_claim now now k s h in inl (h, won, done)
      | inr lost ↦ inr (lost, cancel_queued-lost now k s lost)
    ]

pub applied :
    (k : String) (e n : Status) (s s' : Scheduler)
    → Applies k e n s (ok true, s')
    → Scheduler.status k s' ≡ some n
applied k e n s s' (inl (h, won, done)) = done
applied k e n s s' (inr (lost, same)) =
    absurd (cc (ap (λ (r : Result JobError Bool × Scheduler). r.0) same))

pub no_error :
    (k : String) (e n : Status) (x : JobError) (s s' : Scheduler) → ¬ (Applies k e n s (err x, s'))
no_error k e n x s s' (inl (h, won, done)) = cc
no_error k e n x s s' (inr (lost, same)) =
    cc (ap (λ (r : Result JobError Bool × Scheduler). r.0) same)
