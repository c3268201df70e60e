-- ===== src/AuxMl/Jobs/Record.antt =====
-- Job statuses, their transition table and the job record (aux-ml/app/jobs.py).
-- Times are the texts that `_utc_now_iso` gives; an operation takes the present time as `now`.
use josemar_assistente.Base.{
  ℕ, String, Bool, true, false, Option, none, some, List, [], ◌∷◌, any, if◌then◌else◌,
}
use josemar_assistente.Base.Json.{Json}
use josemar_assistente.Base.Dict.{Dict}

pub data Status : Type 0 where
  queued running cancelling succeeded failed cancelled : Status

-- `==` on statuses, which the source writes as strings
unfoldable pub same_status : Status → Status → Bool
same_status queued queued = true
same_status running running = true
same_status cancelling cancelling = true
same_status succeeded succeeded = true
same_status failed failed = true
same_status cancelled cancelled = true
same_status _ _ = false

abbrev pub terminal_statuses : List Status
terminal_statuses = succeeded ∷ failed ∷ cancelled ∷ []

abbrev pub cancellable_statuses : List Status
cancellable_statuses = queued ∷ running ∷ []

-- `_TRANSITIONS`
unfoldable pub transitions : Status → List Status
transitions queued = running ∷ cancelled ∷ []
transitions running = succeeded ∷ failed ∷ cancelling ∷ []
transitions cancelling = cancelled ∷ failed ∷ []
transitions succeeded = []
transitions failed = []
transitions cancelled = []

-- `status in statuses`
unfoldable pub status_in : Status → List Status → Bool
status_in s statuses = any (same_status s) statuses

unfoldable pub is_terminal : Status → Bool
is_terminal s = status_in s terminal_statuses

pub record JobRecord : Type 0 where
  pub id : String
  pub task : String
  pub model : String
  pub file_path : String
  pub prompt : Option String
  pub column_split : ℕ
  pub column_split_pages : Option (List ℕ)
  pub status : Status
  pub created_at : String
  pub started_at : Option String
  pub finished_at : Option String
  pub result : Option (Dict Json)
  pub error : Option String

-- The dictionary that `to_response` returns.
pub record JobResponse : Type 0 where
  pub job_id : String
  pub task : String
  pub model : String
  pub file_path : String
  pub column_split : ℕ
  pub column_split_pages : Option (List ℕ)
  pub status : Status
  pub created_at : String
  pub started_at : Option String
  pub finished_at : Option String
  pub result : Option (Dict Json)
  pub error : Option String

-- `list(pages) if pages else None`: an empty tuple counts as no pages.
abbrev listed_pages : Option (List ℕ) → Option (List ℕ)
listed_pages none = none
listed_pages (some []) = none
listed_pages (some (p ∷ ps)) = some (p ∷ ps)

unfoldable pub to_response : JobRecord → JobResponse
to_response job = record {
  job_id = job.id;
  task = job.task;
  model = job.model;
  file_path = job.file_path;
  column_split = job.column_split;
  column_split_pages = listed_pages job.column_split_pages;
  status = job.status;
  created_at = job.created_at;
  started_at = job.started_at;
  finished_at = job.finished_at;
  result = job.result;
  error = job.error;
}

-- The assignments of `_cas_locked`, in its order.
unfoldable pub updated_job :
    String → Status → Option (Dict Json) → Option String → JobRecord → JobRecord
updated_job now new_status result error job =
    let job1 = record job { status = new_status } in
    let job2 = if is_terminal new_status then record job1 { finished_at = some now } else job1 in
    let job3 =
      if same_status new_status running then record job2 { started_at = some now } else job2 in
    let job4 : JobRecord = elim result [
      | none ↦ job3
      | some r ↦ record job3 { result = some r; error = none }
    ] in
    elim error [ none ↦ job4 | some e ↦ record job4 { error = some e } ]
