-- ===== src/AuxMl/Service/Models.antt =====
-- Loading and unloading models (`_ensure_model_loaded`, `_unload_for_cancellation` and
-- `_unload_current_model` of aux-ml/app/service.py). Requests are served while the worker awaits the
-- router: `others` is what they do to the service, by the number of the await, and `replies` is what
-- the awaits bring.
use josemar_assistente.Base.{
  ℕ, String, Bool, true, false, Option, none, some, str_eq, if◌then◌else◌,
}
use josemar_assistente.Base.Result.{Result, ok, err}
use josemar_assistente.AuxMl.Registry.{ModelSpec}
use josemar_assistente.AuxMl.Service.State.{
  Service, Replies, Raised, job_cancelled, failure, event_set,
}

abbrev pub opt_eq : Option String → Option String → Bool
opt_eq none none = true
opt_eq (some a) (some b) = str_eq a b
opt_eq _ _ = false

-- Two awaits in a row, of which the second is made only if the first did not raise.
abbrev pub both : Result Raised (Unit {0}) → Result Raised (Unit {0}) → Result Raised (Unit {0})
both (ok _) second = second
both (err e) second = err e

-- The model identity after a confirmed or an abandoned unload.
unfoldable pub forget_model : Service → Service
forget_model sv = record sv {
  loaded_model_key = none;
  loaded_model_id = none;
  loading_model_id = none;
}

-- `except Exception` does not catch a plain `CancelledError`, nor `JobCancelledError`, which is one.
unfoldable pub unload_target :
    (ℕ → Service → Service) → Replies → Bool → String → Service → Result Raised (Unit {0}) × Service
unload_target others replies strict target sv =
    let served = others 3 sv in
    elim (both (replies.unload_model target) (replies.await_unloaded target)) [
      | ok _ ↦ (ok tt, forget_model served)
      | err (failure e) ↦ if strict then (err (failure e), served) else (ok tt, forget_model served)
      | err e ↦ (err e, served)
    ]

unfoldable pub unload_for_cancellation :
    (ℕ → Service → Service) → Replies → Bool → Service → Result Raised (Unit {0}) × Service
unload_for_cancellation others replies strict sv = elim sv.loaded_model_id [
  | some target ↦ unload_target others replies strict target sv
  | none ↦ elim sv.loading_model_id [
    | some target ↦ unload_target others replies strict target sv
    | none ↦ (ok tt, record sv { loaded_model_key = none })
  ]
]

unfoldable pub unload_current_model :
    (ℕ → Service → Service) → Replies → Bool → Service → Result Raised (Unit {0}) × Service
unload_current_model others replies strict sv = elim sv.loaded_model_id [
  | some _ ↦ unload_for_cancellation others replies strict sv
  | none ↦ elim sv.loading_model_id [
    | some _ ↦ unload_for_cancellation others replies strict sv
    | none ↦ (ok tt, record sv { loaded_model_key = none })
  ]
]

-- The `finally` of the load.
unfoldable pub clear_committed : String → Service → Service
clear_committed model_id sv =
    if opt_eq sv.loaded_model_id (some model_id) then record sv { loading_model_id = none } else sv

-- The load itself: the target is recorded before it, and cleared if the load was committed.
unfoldable pub load_model :
    (ℕ → Service → Service)
    → Replies
    → ModelSpec
    → String
    → Service
    → Result Raised String × Service
load_model others replies spec model_id sv =
    let started = others 1 (record sv { loading_model_id = some model_id }) in
    elim (both (replies.load_model model_id) (replies.await_loaded model_id)) [
      | err e ↦ (err e, clear_committed model_id started)
      | ok _ ↦
          if event_set started.cancel_event
          then (err job_cancelled, clear_committed model_id started)
          else (
            ok model_id,
            clear_committed model_id (record started {
              loaded_model_key = some spec.key;
              loaded_model_id = some model_id;
            }),
          )
    ]

-- The part of `_ensure_model_loaded` after another model was unloaded.
unfoldable pub load_other :
    (ℕ → Service → Service) → Replies → ModelSpec → Service → Result Raised String × Service
load_other others replies spec sv =
    if event_set sv.cancel_event
    then (err job_cancelled, sv)
    else elim (replies.resolve_model_id spec.model_path) [
      | err e ↦ (err e, others 0 sv)
      | ok model_id ↦ load_model others replies spec model_id (others 0 sv)
    ]

unfoldable pub ensure_model_loaded :
    (ℕ → Service → Service) → Replies → ModelSpec → Service → Result Raised String × Service
ensure_model_loaded others replies spec sv = elim sv.loaded_model_id [
  | none ↦ load_other others replies spec sv
  | some loaded ↦
      if opt_eq sv.loaded_model_key (some spec.key)
      then (ok loaded, sv)
      else let (unloaded, sv1) = unload_current_model others replies false sv in
        elim unloaded [ err e ↦ (err e, sv1) | ok _ ↦ load_other others replies spec sv1 ]
]
