-- ===== src/AuxMl/Jobs/Cas.antt =====
-- What the compare-and-set of jobs.py does to each job, as one function of the old job.
use josemar_assistente.Base.{
  String, ◌≡◌, refl, ap, ◌∙◌, Bool, true, false, ◌&&◌, Option, none, some, arith, str_eq, eq_iff,
  Option-cases, Bool-cases, inl, inr, if◌then◌else◌,
}
use josemar_assistente.Base.Json.{Json}
use josemar_assistente.Base.Dict.{Dict, lookup, lookup-insert}
use josemar_assistente.Base.Result.{ok}
use josemar_assistente.AuxMl.Jobs.Record.{
  Status, JobRecord, same_status, status_in, transitions, is_terminal, updated_job,
}
use josemar_assistente.AuxMl.Jobs.Scheduler
use josemar_assistente.AuxMl.Jobs.Scheduler.{Scheduler, cas_job, cas_locked, set_event}

-- The job after a compare-and-set: changed only from the expected status, along the table.
unfoldable pub cas_effect :
    String → Status → Status → Option (Dict Json) → Option String → JobRecord → JobRecord
cas_effect now expected new_status result error job =
    if same_status job.status expected && status_in new_status (transitions expected)
    then updated_job now new_status result error job
    else job

abbrev pub on_some {ℓ κ} : {A : Type ℓ} {B : Type κ} → (A → B) → Option A → Option B
on_some f none = none
on_some f (some a) = some (f a)

abbrev pub on_none {ℓ κ} : {A : Type ℓ} {B : Type κ} → B → (A → B) → Option A → B
on_none b f none = b
on_none b f (some a) = f a

abbrev pub IsSignalled : Scheduler → Type 0
IsSignalled s =
    (j : String) → lookup j s.events ≡ on_some (λ job. is_terminal job.status) (lookup j s.jobs)

-- A status with an outgoing transition is not terminal.
pub live_source :
    (a e n : Status)
    → same_status a e ≡ true
    → status_in n (transitions e) ≡ true
    → is_terminal a ≡ false
unfolding same_status status_in transitions is_terminal
live_source a e n p q = ground arith

pub status-updated_job :
    (now : String) (n : Status) (r : Option (Dict Json)) (e : Option String) (job : JobRecord)
    → (updated_job now n r e job).status ≡ n
unfolding updated_job
status-updated_job now n r e job = ground arith

lookup-set_event :
    (k j : String) (m : Dict Bool)
    → lookup j (set_event k m)
      ≡ (if str_eq k j then on_some (λ _. true) (lookup j m) else lookup j m)
unfolding set_event
lookup-set_event k j m = ground (arith, eq_iff k j, lookup-insert k j true m)

module _ (now job_id : String) (expected new_status : Status) (result : Option (Dict Json))
    (error : Option String) where
  lookup-cas_job :
      (j : String) (job : JobRecord) (s : Scheduler)
      → lookup job_id s.jobs ≡ some job
      → lookup j (cas_job now job_id expected new_status result error job s).1.jobs ≡ (
          if str_eq job_id j
          then some (cas_effect now expected new_status result error job)
          else lookup j s.jobs)
  unfolding cas_job cas_effect
  lookup-cas_job j job s found = ground (
    arith,
    eq_iff job_id j,
    lookup-insert job_id j (updated_job now new_status result error job) s.jobs,
  )

  pub lookup-cas_locked :
      (j : String) (s : Scheduler)
      → lookup j (cas_locked now job_id expected new_status result error s).1.jobs ≡ (
          if str_eq job_id j
          then on_some (cas_effect now expected new_status result error) (lookup j s.jobs)
          else lookup j s.jobs)
  unfolding cas_locked
  lookup-cas_locked j s = elim (Option-cases (lookup job_id s.jobs)) [
    | inl missing ↦ ground (arith, eq_iff job_id j)
    | inr (job, found) ↦ ground (arith, eq_iff job_id j, lookup-cas_job j job s found)
  ]

  -- The queue is not touched, and its bound is not either.
  pub queue-cas_locked :
      (s : Scheduler) → (cas_locked now job_id expected new_status result error s).1.queue ≡ s.queue
  unfolding cas_locked cas_job
  queue-cas_locked s = ground arith

  pub max_size-cas_locked :
      (s : Scheduler)
      → (cas_locked now job_id expected new_status result error s).1.max_size ≡ s.max_size
  unfolding cas_locked cas_job
  max_size-cas_locked s = ground arith

  -- Each job has a completion event that is set exactly when the job is terminal, and there is no
  -- event without a job.
  pub IsSignalled-cas_locked :
      (s : Scheduler)
      → IsSignalled s
      → IsSignalled (cas_locked now job_id expected new_status result error s).1
  unfolding cas_locked cas_job
  IsSignalled-cas_locked s h j = elim (Option-cases (lookup job_id s.jobs)) [
    | inl missing ↦ ground (arith, h j)
    | inr (job, found) ↦ ground (
      arith,
      h j,
      h job_id,
      eq_iff job_id j,
      lookup-set_event job_id j s.events,
      lookup-insert job_id j (updated_job now new_status result error job) s.jobs,
      status-updated_job now new_status result error job,
      live_source job.status expected new_status,
    )
  ]

  -- A table entry always applies or is a lost race; anything else raises and changes nothing.
  pub cas_locked-ok :
      (s : Scheduler)
      → status_in new_status (transitions expected) ≡ true
      → (cas_locked now job_id expected new_status result error s).0
        ≡ ok (on_none false (λ job. same_status job.status expected) (lookup job_id s.jobs))
  unfolding cas_locked cas_job
  cas_locked-ok s h = ground arith

  status-cas_effect :
      (o : Option JobRecord)
      → on_some (λ job. job.status) (on_some (cas_effect now expected new_status result error) o)
        ≡ on_some
            (λ a.
              if same_status a expected && status_in new_status (transitions expected)
              then new_status
              else a)
            (on_some (λ job. job.status) o)
  unfolding cas_effect
  status-cas_effect none = refl
  status-cas_effect (some job) = ground (arith, status-updated_job now new_status result error job)

  -- The same for the status alone.
  pub status-cas_locked :
      (j : String) (s : Scheduler)
      → Scheduler.status j (cas_locked now job_id expected new_status result error s).1 ≡ (
          if str_eq job_id j
          then on_some
              (λ a.
                if same_status a expected && status_in new_status (transitions expected)
                then new_status
                else a)
              (Scheduler.status j s)
          else Scheduler.status j s)
  unfolding Scheduler.status
  status-cas_locked j s = elim (Bool-cases (str_eq job_id j)) [
    | inl same ↦ rw same (
        ap (on_some (λ (job : JobRecord). job.status)) (lookup-cas_locked j s)
        ∙ rw same (status-cas_effect (lookup j s.jobs)))
    | inr other ↦
        rw other
          (ap (on_some (λ (job : JobRecord). job.status)) (lookup-cas_locked j s) ∙ rw other refl)
  ]
