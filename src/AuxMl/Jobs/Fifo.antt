-- ===== src/AuxMl/Jobs/Fifo.antt =====
-- Claims, cancellations of queued jobs and late results (`claim_next`, `cancel_queued` and the
-- `mark_` methods of aux-ml/app/jobs.py).
use josemar_assistente.Base.{
  String, ◌≡◌, ◌≢◌, refl, ap, ◌∙◌, ◌⊎◌, Bool, true, false, not, Option, none, some, List, [], ◌∷◌,
  ◌++◌, arith, eq_iff, all, remove_first, Bool-cases, inl, inr,
}
use josemar_assistente.Base.Json.{Json}
use josemar_assistente.Base.Dict.{Dict, lookup}
use josemar_assistente.Base.Result.{ok}
use josemar_assistente.AuxMl.Jobs.Record.{
  Status, queued, running, cancelling, succeeded, failed, cancelled, same_status, status_in,
  transitions,
}
use josemar_assistente.AuxMl.Jobs.Scheduler
use josemar_assistente.AuxMl.Jobs.Scheduler.{Scheduler, cas_job, cas_locked, claim_from}
use josemar_assistente.AuxMl.Jobs.Cas.{on_none, queue-cas_locked, cas_locked-ok, status-cas_locked}

-- The job `k` is stored and queued.
abbrev pub is_queued : Scheduler → String → Bool
is_queued s k = on_none false (λ job. same_status job.status queued) (lookup k s.jobs)

-- What a claim does: it waits after popping identifiers none of which names a queued job, or it
-- pops such identifiers and then claims the first that does.
abbrev Claims : String → List String → Scheduler → Option String × Scheduler → Type 0
Claims now q s r =
    (all (λ j. not (is_queued s j)) q ≡ true) × (r ≡ (none, record s { queue = [] }))
    ⊎ ((skipped : List String) × (k : String) × (rest : List String) × (q ≡ skipped ++ k ∷ rest)
        × (all (λ j. not (is_queued s j)) skipped ≡ true)
        × (is_queued s k ≡ true)
        × (r ≡ (some k, (cas_locked now k queued running none none (record s { queue = rest })).1)))

Claims-skip :
    (now j : String) (q : List String) (s : Scheduler) (r : Option String × Scheduler)
    → is_queued s j ≡ false
    → Claims now q s r
    → Claims now (j ∷ q) s r
Claims-skip now j q s r stale (inl (all_stale, e)) = inl (ground arith, e)
Claims-skip now j q s r stale (inr (skipped, k, rest, split, all_stale, live, e)) =
    inr (j ∷ skipped, k, rest, ap (λ (l : List String). j ∷ l) split, ground arith, live, e)

claim_from-stale :
    (now j : String) (q : List String) (s : Scheduler)
    → is_queued s j ≡ false
    → claim_from now (j ∷ q) s ≡ claim_from now q s
unfolding claim_from
claim_from-stale now j q s stale = ground arith

claim_from-live :
    (now j : String) (q : List String) (s : Scheduler)
    → is_queued s j ≡ true
    → claim_from now (j ∷ q) s
      ≡ (some j, (cas_locked now j queued running none none (record s { queue = q })).1)
unfolding claim_from
claim_from-live now j q s live = ground arith

claim_from-Claims :
    (now : String) (q : List String) (s : Scheduler) → Claims now q s (claim_from now q s)
claim_from-Claims now [] s = inl (refl, unfold claim_from in refl)
claim_from-Claims now (j ∷ rest) s = elim (Bool-cases (is_queued s j)) [
  | inl live ↦ inr ([], j, rest, refl, refl, live, claim_from-live now j rest s live)
  | inr stale ↦
      rw (claim_from-stale now j rest s stale)
        (Claims-skip now j rest s _ stale (claim_from-Claims now rest s))
]

pub is_queued-status :
    (k : String) (s : Scheduler) → is_queued s k ≡ true → Scheduler.status k s ≡ some queued
unfolding Scheduler.status same_status
is_queued-status k s live = ground arith

status-is_queued :
    (k : String) (s : Scheduler) → Scheduler.status k s ≡ some queued → is_queued s k ≡ true
unfolding Scheduler.status same_status
status-is_queued k s h = ground arith

same_status_refl : (a : Status) → same_status a a ≡ true
unfolding same_status
same_status_refl a = ground arith

-- A compare-and-set along an edge, from the status that the job has.
pub status-cas_self :
    (now k : String) (e n : Status) (r : Option (Dict Json)) (x : Option String) (s : Scheduler)
    → Scheduler.status k s ≡ some e
    → status_in n (transitions e) ≡ true
    → Scheduler.status k (cas_locked now k e n r x s).1 ≡ some n
status-cas_self now k e n r x s h edge =
    rw (status-cas_locked now k e n r x k s)
      (rw ((eq_iff k k).1 refl) (rw h (rw (same_status_refl, edge) refl)))

status-claimed :
    (now k : String) (s : Scheduler)
    → is_queued s k ≡ true
    → Scheduler.status k (cas_locked now k queued running none none s).1 ≡ some running
status-claimed now k s live =
    status-cas_self now k queued running none none s (is_queued-status k s live)
      (unfold status_in transitions same_status in refl)

-- `claim_next` takes jobs in the order of the queue and skips only what is not queued. If it
-- returns `k`, then `k` was queued, stood behind identifiers none of which named a queued job, is
-- running now, and the queue is what stood behind it. If it waits, no identifier in the queue named
-- a queued job, the queue is empty now, and the jobs are as before.
pub claim_next-fifo :
    (now : String) (s : Scheduler)
    → ((skipped : List String) × (k : String) × (rest : List String) × (s.queue
          ≡ skipped ++ k ∷ rest)
        × (all (λ j. not (is_queued s j)) skipped ≡ true)
        × (is_queued s k ≡ true)
        × ((Scheduler.claim_next now s).0 ≡ some k)
        × (Scheduler.status k (Scheduler.claim_next now s).1 ≡ some running)
        × ((Scheduler.claim_next now s).1.queue ≡ rest))
      ⊎ (all (λ j. not (is_queued s j)) s.queue ≡ true)
        × (Scheduler.claim_next now s ≡ (none, record s { queue = [] }))
unfolding Scheduler.claim_next
claim_next-fifo now s = elim (claim_from-Claims now s.queue s) [
  | inl (stale, e) ↦ inr (stale, e)
  | inr (skipped, k, rest, split, stale, live, e) ↦ inl (
    skipped,
    k,
    rest,
    split,
    stale,
    live,
    ap (λ (r : Option String × Scheduler). r.0) e,
    ap (λ (r : Option String × Scheduler). Scheduler.status k r.1) e
        ∙ status-claimed now k (record s { queue = rest }) live,
    ap (λ (r : Option String × Scheduler). r.1.queue) e
        ∙ queue-cas_locked now k queued running none none (record s { queue = rest }),
  )
]

pub cas_locked-lost :
    (now k : String) (e n : Status) (r : Option (Dict Json)) (x : Option String) (s : Scheduler)
    → on_none false (λ a. same_status a e) (Scheduler.status k s) ≡ false
    → cas_locked now k e n r x s ≡ (ok false, s)
unfolding cas_locked cas_job Scheduler.status
cas_locked-lost now k e n r x s h = ground arith

-- A result that arrives for a job that is being cancelled, or is terminal, is refused without an
-- error and changes nothing, and so is a failure that expects a running job.
pub late_result-lost :
    (now k : String) (result : Dict Json) (error : String) (a : Status) (s : Scheduler)
    → Scheduler.status k s ≡ some a
    → status_in a (cancelling ∷ succeeded ∷ failed ∷ cancelled ∷ []) ≡ true
    → (Scheduler.mark_succeeded now k result s ≡ (ok false, s))
      × (Scheduler.mark_failed now k error running s ≡ (ok false, s))
unfolding Scheduler.mark_succeeded Scheduler.mark_failed status_in same_status
late_result-lost now k result error a s h late = (
  cas_locked-lost now k running succeeded (some result) none s (rw h (ground arith)),
  cas_locked-lost now k running failed none (some error) s (rw h (ground arith)),
)

same_key : (o : Option String) (j k : String) → o ≡ some j → o ≡ some k → j ≡ k
same_key o j k p q = cc

pub claimed_was_queued :
    (now k : String) (s : Scheduler)
    → (Scheduler.claim_next now s).0 ≡ some k
    → (is_queued s k ≡ true) × (Scheduler.status k (Scheduler.claim_next now s).1 ≡ some running)
claimed_was_queued now k s h = elim (claim_next-fifo now s) [
  | inl (skipped, j, rest, split, stale, live, e, r, q) ↦
      let same : j ≡ k = same_key _ j k e h in (rw same at live, rw same at r)
  | inr (stale, e) ↦ absurd (cc (ap (λ (r : Option String × Scheduler). r.0) e, h))
]

cancel_queued-live :
    (now k : String) (s : Scheduler)
    → Scheduler.status k s ≡ some queued
    → Scheduler.cancel_queued now k s
      ≡ cas_locked now k queued cancelled none none (record s { queue = remove_first k s.queue })
unfolding Scheduler.cancel_queued Scheduler.status same_status
cancel_queued-live now k s h = ground arith

pub cancel_queued-lost :
    (now k : String) (s : Scheduler)
    → on_none false (λ a. same_status a queued) (Scheduler.status k s) ≡ false
    → Scheduler.cancel_queued now k s ≡ (ok false, s)
unfolding Scheduler.cancel_queued Scheduler.status
cancel_queued-lost now k s h = ground arith

pub not_both : (o : Option Status) → o ≡ some cancelled → o ≢ some queued
not_both o p q = cc

-- Cancelling a queued job succeeds, makes it cancelled, and the next claim does not return it.
pub cancel-before_claim :
    (now now' k : String) (s : Scheduler)
    → Scheduler.status k s ≡ some queued
    → ((Scheduler.cancel_queued now k s).0 ≡ ok true)
      × (Scheduler.status k (Scheduler.cancel_queued now k s).1 ≡ some cancelled)
      × ((Scheduler.claim_next now' (Scheduler.cancel_queued now k s).1).0 ≢ some k)
cancel-before_claim now now' k s h =
    let s1 : Scheduler = record s { queue = remove_first k s.queue } in
    let e = cancel_queued-live now k s h in
    let done : Scheduler.status k (Scheduler.cancel_queued now k s).1 ≡ some cancelled = rw e (
      status-cas_self now k queued cancelled none none s1 (unfold Scheduler.status in h)
        (unfold status_in transitions same_status in refl)) in
    (
      rw e (
          rw
            (cas_locked-ok now k queued cancelled none none s1
              (unfold status_in transitions same_status in refl))
            (ap ok (status-is_queued k s h))),
      done,
      λ claimed. not_both _ done (is_queued-status k _ (claimed_was_queued now' k _ claimed).0),
    )

-- A job that was claimed first can no longer be cancelled as queued, and the attempt changes nothing.
pub claim-before_cancel :
    (now now' k : String) (s : Scheduler)
    → (Scheduler.claim_next now s).0 ≡ some k
    → Scheduler.cancel_queued now' k (Scheduler.claim_next now s).1
      ≡ (ok false, (Scheduler.claim_next now s).1)
claim-before_cancel now now' k s h =
    cancel_queued-lost now' k (Scheduler.claim_next now s).1
      (rw (claimed_was_queued now k s h).1 (unfold same_status in refl))
