-- ===== src/AuxMl/Service/State.antt =====
-- The fields of `AuxMLService` (aux-ml/app/service.py) and what its awaits may bring.
use josemar_assistente.Base.{String, Bool, false, Option, none, some, ℕ}
use josemar_assistente.Base.Json.{Json}
use josemar_assistente.Base.Dict.{Dict}
use josemar_assistente.Base.Result.{Result}
use josemar_assistente.AuxMl.Jobs.Scheduler
use josemar_assistente.AuxMl.Jobs.Scheduler.{Scheduler}

-- An `asyncio.Task`: whether it is done, and whether `cancel()` was called on it.
pub record Task : Type 0 where
  pub done : Bool
  pub cancel_requested : Bool

pub record Service : Type 0 where
  pub scheduler : Scheduler
  pub running_job_id : Option String
  pub running_job_task : Option Task
  -- the cancel event, and whether it is set
  pub cancel_event : Option Bool
  pub loaded_model_key : Option String
  pub loaded_model_id : Option String
  pub loading_model_id : Option String
  pub stopping : Bool
  pub dispatch_blocked : Bool
  pub degraded_reason : Option String

unfoldable pub init : ℕ → Service
unfolding Scheduler.init
init max_queue = record {
  scheduler = Scheduler.init max_queue;
  running_job_id = none;
  running_job_task = none;
  cancel_event = none;
  loaded_model_key = none;
  loaded_model_id = none;
  loading_model_id = none;
  stopping = false;
  dispatch_blocked = false;
  degraded_reason = none;
}

-- What a coroutine may raise: `JobCancelledError`, a plain `CancelledError`, or another exception
-- with its text.
pub data Raised : Type 0 where
  job_cancelled : Raised
  task_cancelled : Raised
  failure : String → Raised

-- The answers of the llama router and of the adapters during one job: resolving a model path,
-- loading a model and waiting until it is loaded, unloading it and waiting until it is unloaded,
-- and the adapter's call.
pub record Replies : Type 0 where
  pub resolve_model_id : String → Result Raised String
  pub load_model : String → Result Raised (Unit {0})
  pub await_loaded : String → Result Raised (Unit {0})
  pub unload_model : String → Result Raised (Unit {0})
  pub await_unloaded : String → Result Raised (Unit {0})
  pub run_adapter : Result Raised (Dict Json)

-- `self._cancel_event is not None and self._cancel_event.is_set()`
abbrev pub event_set : Option Bool → Bool
event_set none = false
event_set (some b) = b
