-- ===== src/AuxMl/Service/Settle.antt =====
-- How `_run_job_lifecycle` of aux-ml/app/service.py ends.
use josemar_assistente.Base.{
  ℕ, String, ◌≡◌, refl, ap, ◌∙◌, ◌⊎◌, inl, inr, Bool, true, false, none, some, [], ◌∷◌,
  Option-cases,
}
use josemar_assistente.Base.Json.{Json}
use josemar_assistente.Base.Dict.{Dict}
use josemar_assistente.Base.Result.{Result, ok, err}
use josemar_assistente.AuxMl.Jobs.Record.{
  Status, running, cancelling, succeeded, failed, cancelled, same_status, status_in, transitions,
}
use josemar_assistente.AuxMl.Jobs.Scheduler
use josemar_assistente.AuxMl.Jobs.Fifo.{status-cas_self}
use josemar_assistente.AuxMl.Jobs.Outcomes.{Applies, applied, no_error, cas_locked-Applies}
use josemar_assistente.AuxMl.Service.State.{
  Service, Replies, Raised, job_cancelled, task_cancelled, failure,
}
use josemar_assistente.AuxMl.Service.Live.{
  Live, Marked, Settled, Request, unload_for_cancellation-Live, unload_for_cancellation-Marked,
}
use josemar_assistente.AuxMl.Service.Models.{
  both, unload_target, forget_model, unload_for_cancellation,
}
use josemar_assistente.AuxMl.Service.Worker.{
  cleanup_failed, confirm_cancelled, after_unload, finalize_cancellation, finalize_unless, settle,
}

-- The router's unload may fail, but is not itself cancelled (that happens only at shutdown).
abbrev pub NotCancelled {ℓ} : {A : Type ℓ} → Result Raised A → Type 0
NotCancelled (ok _) = Unit
NotCancelled (err (failure _)) = Unit
NotCancelled (err _) = ⊥

pub record Orderly (replies : Replies) : Type 0 where
  pub unloads : (target : String) → NotCancelled (replies.unload_model target)
  pub waits : (target : String) → NotCancelled (replies.await_unloaded target)

both-NotCancelled :
    (a b : Result Raised (Unit {0})) → NotCancelled a → NotCancelled b → NotCancelled (both a b)
both-NotCancelled (ok u) b ha hb = hb
both-NotCancelled (err (failure e)) b ha hb = tt
both-NotCancelled (err job_cancelled) b ha hb = ha
both-NotCancelled (err task_cancelled) b ha hb = ha

-- The edges of the table that the worker uses.
edges :
    (status_in cancelling (transitions running) ≡ true)
    × (status_in cancelled (transitions cancelling) ≡ true)
    × (status_in failed (transitions cancelling) ≡ true)
    × (status_in failed (transitions running) ≡ true)
    × (status_in succeeded (transitions running) ≡ true)
unfolding status_in transitions same_status
edges = (refl, refl, refl, refl, refl)

-- The run was interrupted by a cancellation.
abbrev pub Interrupted : Result Raised (Dict Json) → Type 0
Interrupted (err job_cancelled) = Unit
Interrupted (err task_cancelled) = Unit
Interrupted _ = ⊥

-- The run was interrupted, but the job has not been marked as cancelled.
abbrev pub Unmarked : String → Result Raised (Dict Json) → Service → Type 0
Unmarked k result sv = Interrupted result × (Scheduler.status k sv.scheduler ≡ some running)

module _ (now k : String) where
  -- After a confirmed unload a live job is cancelled.
  confirm_cancelled-status :
      (sv : Service)
      → Live k sv
      → (Scheduler.status k (confirm_cancelled now k sv).scheduler ≡ some cancelled)
        × ((confirm_cancelled now k sv).loaded_model_id ≡ sv.loaded_model_id)
  unfolding confirm_cancelled same_status Scheduler.mark_cancelling Scheduler.mark_cancelled
  confirm_cancelled-status sv (inl r, st) =
      rw (r, confirm_cancelled)
        (
          status-cas_self now k cancelling cancelled none none _
              (status-cas_self now k running cancelling none none sv.scheduler r edges.0) edges.1,
          refl,
        )
  confirm_cancelled-status sv (inr c, st) =
      rw (c, confirm_cancelled)
        (status-cas_self now k cancelling cancelled none none sv.scheduler c edges.1, refl)

  module _ (others : ℕ → Service → Service) (served : (n : ℕ) → Request k (others n))
      (replies : Replies) (orderly : Orderly replies) (cleanup_error : String → String) where
    -- A strict unload is confirmed, and then no model is loaded, or it fails.
    abbrev Unloads : Result Raised (Unit {0}) × Service → Type 0
    Unloads u =
        (u.0 ≡ ok tt) × (u.1.loaded_model_id ≡ none) ⊎ ((e : String) × (u.0 ≡ err (failure e)))

    unload_target-Unloads :
        (target : String) (sv : Service) → Unloads (unload_target others replies true target sv)
    unfolding unload_target forget_model
    unload_target-Unloads target sv =
        of_result (both (replies.unload_model target) (replies.await_unloaded target)) refl
          (both-NotCancelled _ _ (orderly.unloads target) (orderly.waits target))
      where
        of_result :
            (r : Result Raised (Unit {0}))
            → both (replies.unload_model target) (replies.await_unloaded target) ≡ r
            → NotCancelled r
            → Unloads (unload_target others replies true target sv)
        of_result (ok u) e n = rw (e, unload_target) (inl (refl, refl))
        of_result (err (failure x)) e n = rw (e, unload_target) (inr (x, refl))
        of_result (err job_cancelled) e n = absurd n
        of_result (err task_cancelled) e n = absurd n

    unload_for_cancellation-Unloads :
        (sv : Service) → Unloads (unload_for_cancellation others replies true sv)
    unfolding unload_for_cancellation
    unload_for_cancellation-Unloads sv = elim (Option-cases sv.loaded_model_id) [
      | inr (target, e) ↦ rw (e, unload_for_cancellation) (unload_target-Unloads target sv)
      | inl e ↦ elim (Option-cases sv.loading_model_id) [
        | inr (target, l) ↦ rw (e, unload_for_cancellation) (rw l (unload_target-Unloads target sv))
        | inl l ↦ rw (e, unload_for_cancellation) (rw l (inl (refl, e)))
      ]
    ]

    Settled-by :
        (n : Status) (sv : Service)
        → status_in n (succeeded ∷ failed ∷ []) ≡ true
        → Scheduler.status k sv.scheduler ≡ some n
        → Settled k sv
    unfolding status_in same_status
    Settled-by succeeded sv fin h = inl h
    Settled-by failed sv fin h = inr (inl h)
    Settled-by _ sv fin h = absurd (cc)

    -- Nobody but a cancellation takes a live job from the worker.
    lost-Marked :
        (n : Status) (s : Scheduler.Scheduler) (sv : Service)
        → Live k sv
        → Applies k running n sv.scheduler (ok false, s)
        → Marked k (record sv { scheduler = s })
    unfolding same_status
    lost-Marked n s sv h (inl (there, won, done)) = absurd (cc)
    lost-Marked n s sv (inr c, st) (inr (lost, same)) =
        rw (ap (λ (r : Result Scheduler.JobError Bool × Scheduler.Scheduler). r.1) same) c
    lost-Marked n s sv (inl r, st) (inr (lost, same)) = absurd (clash (rw r at lost))
      where
        clash : true ≡ false → ⊥
        clash e = cc

    abbrev pub Finished : Result Raised (Unit {0}) × Service → Type 0
    Finished r = (r.0 ≡ ok tt) × Settled k r.1

    -- The clean-up of a job that has not been marked as cancelled may leave it so, but then no
    -- further job is dispatched.
    abbrev pub Stopped : Result Raised (Unit {0}) × Service → Type 0
    Stopped r = (r.0 ≡ ok tt) × (Settled k r.1 ⊎ (r.1.dispatch_blocked ≡ true))

    after_unload-Finished :
        (u : Result Raised (Unit {0}) × Service)
        → Unloads u
        → Live k u.1
        → Marked k u.1
        → Finished (after_unload cleanup_error now k u)
    unfolding after_unload cleanup_failed Scheduler.mark_failed_cleanup
    after_unload-Finished (ok x, sv) (inl (won, none_loaded)) h c =
        let (done, same) = confirm_cancelled-status sv h in
        (refl, inr (inr (done, same ∙ none_loaded)))
    after_unload-Finished (ok x, sv) (inr (e, raised)) h c = absurd (cc)
    after_unload-Finished (err (failure e), sv) u h c = (
      refl,
      inr (
          inl (
            status-cas_self now k cancelling failed none (some (cleanup_error e)) sv.scheduler c
              edges.2)),
    )
    after_unload-Finished (err job_cancelled, sv) (inl (won, none_loaded)) h c = absurd (cc)
    after_unload-Finished (err job_cancelled, sv) (inr (e, raised)) h c = absurd (cc)
    after_unload-Finished (err task_cancelled, sv) (inl (won, none_loaded)) h c = absurd (cc)
    after_unload-Finished (err task_cancelled, sv) (inr (e, raised)) h c = absurd (cc)

    after_unload-Stopped :
        (u : Result Raised (Unit {0}) × Service)
        → Unloads u
        → Live k u.1
        → Stopped (after_unload cleanup_error now k u)
    unfolding after_unload cleanup_failed
    after_unload-Stopped (ok x, sv) (inl (won, none_loaded)) h =
        let (done, same) = confirm_cancelled-status sv h in
        (refl, inl (inr (inr (done, same ∙ none_loaded))))
    after_unload-Stopped (ok x, sv) (inr (e, raised)) h = absurd (cc)
    after_unload-Stopped (err (failure e), sv) u h = (refl, inr refl)
    after_unload-Stopped (err job_cancelled, sv) (inl (won, none_loaded)) h = absurd (cc)
    after_unload-Stopped (err job_cancelled, sv) (inr (e, raised)) h = absurd (cc)
    after_unload-Stopped (err task_cancelled, sv) (inl (won, none_loaded)) h = absurd (cc)
    after_unload-Stopped (err task_cancelled, sv) (inr (e, raised)) h = absurd (cc)

    -- A job that is being cancelled is settled by the clean-up, also if the unload fails.
    pub finalize_cancellation-Finished :
        (sv : Service)
        → Marked k sv
        → sv.stopping ≡ false
        → Finished (finalize_cancellation cleanup_error others replies now k sv)
    unfolding finalize_cancellation
    finalize_cancellation-Finished sv c st =
        after_unload-Finished _ (unload_for_cancellation-Unloads _)
          (unload_for_cancellation-Live k others served replies true _ (inr c, st))
          (unload_for_cancellation-Marked k others served replies _ c)

    finalize_cancellation-Stopped :
        (sv : Service)
        → Live k sv
        → Stopped (finalize_cancellation cleanup_error others replies now k sv)
    unfolding finalize_cancellation
    finalize_cancellation-Stopped sv h =
        after_unload-Stopped _ (unload_for_cancellation-Unloads _)
          (unload_for_cancellation-Live k others served replies true _ h)

    finalize_unless-Finished :
        (n : Status) (r : Result Scheduler.JobError Bool × Scheduler.Scheduler) (sv : Service)
        → Live k sv
        → Applies k running n sv.scheduler r
        → status_in n (succeeded ∷ failed ∷ []) ≡ true
        → Finished (finalize_unless cleanup_error others replies now k r sv)
    unfolding finalize_unless
    finalize_unless-Finished n (ok true, s) sv h a fin =
        (refl, Settled-by n (record sv { scheduler = s }) fin (applied k running n _ s a))
    finalize_unless-Finished n (ok false, s) sv h a fin =
        finalize_cancellation-Finished (record sv { scheduler = s }) (lost-Marked n s sv h a) h.1
    finalize_unless-Finished n (err e, s) sv h a fin = absurd (no_error k running n e _ s a)

    -- How a run that ended with `result` in the state `sv` is settled
    abbrev pub Ended :
        Result Raised (Dict Json) → Service → Result Raised (Unit {0}) × Service → Type 0
    Ended result sv r =
        (r.0 ≡ ok tt) × (Settled k r.1 ⊎ ((r.1.dispatch_blocked ≡ true) × Unmarked k result sv))

    interrupted :
        (result : Result Raised (Dict Json)) (sv : Service)
        → Live k sv
        → Interrupted result
        → Ended result sv (finalize_cancellation cleanup_error others replies now k sv)
    interrupted result sv (inr c, st) i =
        let (e, settled) = finalize_cancellation-Finished sv c st in (e, inl settled)
    interrupted result sv (inl r, st) i = elim (finalize_cancellation-Stopped sv (inl r, st)).1 [
      | inl settled ↦ ((finalize_cancellation-Stopped sv (inl r, st)).0, inl settled)
      | inr blocked ↦ ((finalize_cancellation-Stopped sv (inl r, st)).0, inr (blocked, (i, r)))
    ]

    pub settle-Ended :
        (result : Result Raised (Dict Json)) (sv : Service)
        → Live k sv
        → Ended result sv (settle cleanup_error others replies now k result sv)
    unfolding settle Scheduler.mark_failed Scheduler.mark_succeeded
    settle-Ended (err job_cancelled) sv h = interrupted (err job_cancelled) sv h tt
    settle-Ended (err task_cancelled) sv h = simp h.1 (interrupted (err task_cancelled) sv h tt)
    settle-Ended (err (failure e)) sv h =
        let (done, settled) =
          finalize_unless-Finished failed _ sv h
            (cas_locked-Applies now k running failed none (some e) sv.scheduler edges.3)
            (unfold status_in same_status in refl) in
        (done, inl settled)
    settle-Ended (ok result) sv h =
        let (done, settled) =
          finalize_unless-Finished succeeded _ sv h
            (cas_locked-Applies now k running succeeded (some result) none sv.scheduler edges.4)
            (unfold status_in same_status in refl) in
        (done, inl settled)
