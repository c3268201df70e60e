-- ===== src/AuxMl/Service/Examples.antt =====
-- The service of aux-ml/app/service.py on concrete inputs.
use josemar_assistente.Base.{ℕ, ◌≡◌, ◌⊎◌, true, refl, inl, false, none, [], ◌∷◌}
use josemar_assistente.Base.Dict.{Dict}
use josemar_assistente.Base.Result.{Result, ok, err}
use josemar_assistente.AuxMl.Jobs.Scheduler
use josemar_assistente.AuxMl.Jobs.Examples.{two_queued, job_of}
use josemar_assistente.AuxMl.Registry.{ModelSpec}
use josemar_assistente.AuxMl.Service.State
use josemar_assistente.AuxMl.Service.State.{Service, Replies, Raised, failure}
use josemar_assistente.AuxMl.Service.Endpoints.{cancel_job, cancel_http_status}
use josemar_assistente.AuxMl.Service.Cancel.{
  Truthful, alone, documented_code, status_afterwards, cancel_job-Truthful, cancel_job-documented,
}
use josemar_assistente.AuxMl.Service.Live.{Live, Settled}
use josemar_assistente.AuxMl.Service.Served.{cancel_job-Request}
use josemar_assistente.AuxMl.Service.Settle.{Orderly}
use josemar_assistente.AuxMl.Service.Finish.{UnmarkedRun, run_of, run_job_lifecycle-Settled}
use josemar_assistente.AuxMl.Service.Worker.{run_job_lifecycle}

-- The job "a" is claimed, and "b" waits.
abbrev working : Service
working = record (State.init 2) { scheduler = (Scheduler.claim_next "t4" two_queued).1 }

abbrev models : Dict ModelSpec
models =
    (
      "glm",
      record {
        key = "glm";
        task = "ocr";
        model_path = "/models/glm.gguf";
        required_memory_mb = 2048;
        default_prompt = "";
        max_tokens = 2048;
        mmproj_path = none;
        optional = false;
      },
    )
    ∷ []

-- A router whose unload fails.
abbrev replies : Replies
replies = record {
  resolve_model_id = λ path. ok "glm-id";
  load_model = λ id. ok tt;
  await_loaded = λ id. ok tt;
  unload_model = λ id. err (failure "busy");
  await_unloaded = λ id. ok tt;
  run_adapter = ok [];
}

replies-Orderly : Orderly replies
replies-Orderly = record { unloads = λ target. tt; waits = λ target. tt }

abbrev cancelling_others : ℕ → Service → Service
cancelling_others n sv = (cancel_job alone "t5" "a" sv).1

working-Live : Live "a" working
unfolding State.init josemar_assistente.AuxMl.Jobs.Examples.Opened
working-Live = (inl refl, refl)

-- The job's run with the cancellation served at its awaits
abbrev ended : Result Raised (Unit {0}) × Service
ended = run_job_lifecycle (λ e. e) cancelling_others replies models "t6" (job_of "a" "t0") working

run_job_lifecycle-Settled_example :
    (ended.0 ≡ ok tt)
    × (Settled "a" ended.1
        ⊎ ((ended.1.dispatch_blocked ≡ true)
            × UnmarkedRun "a" (run_of cancelling_others replies models (job_of "a" "t0") working)))
run_job_lifecycle-Settled_example =
    run_job_lifecycle-Settled (λ e. e) cancelling_others replies models "t6" (job_of "a" "t0")
      working (λ n. cancel_job-Request "t5" "a") replies-Orderly working-Live

cancel_job-Truthful_example : Truthful "a" (cancel_job alone "t5" "a" working)
cancel_job-Truthful_example = cancel_job-Truthful alone "t5" "a" working

cancel_job-documented_example :
    (cancel_http_status (cancel_job alone "t5" "a" working).0
      ≡ documented_code (Scheduler.status "a" working.scheduler))
    × (Scheduler.status "a" (cancel_job alone "t5" "a" working).1.scheduler
        ≡ status_afterwards (Scheduler.status "a" working.scheduler))
cancel_job-documented_example = cancel_job-documented "t5" "a" working
