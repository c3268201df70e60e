-- ===== src/Tasknotes/Engine/Examples.antt =====
-- Runs of the operations on tasks (`TaskNotesEngine`, scripts/tasknotes_mcp_core.py) over a small
-- world: the text of the one note, which gbrain and the disk share.
use josemar_assistente.Base.{
  String, Bool, true, false, Option, none, some, List, [], ◌∷◌, ◌≡◌, ◌≤◌, refl, str_eq, length,
  contains, distinct, All,
}
use josemar_assistente.Base.Fields.{get, put}
use josemar_assistente.Base.Result.{Result, ok, err}
use josemar_assistente.Base.Json.{Json, bool, str, Fields, end, field}
use josemar_assistente.Tasknotes.Reconcile.Compose.{DailyNotesConfig}
use josemar_assistente.Tasknotes.Engine.Effects.{EngineError, page_not_found, core_error}
use josemar_assistente.Tasknotes.Engine.Services.{
  UserField, TaskNotesProfile, Texts, applied, Services,
}
use josemar_assistente.Tasknotes.Engine.Validate.{
  unique_checked, check_tag, check_text, check_kind, check_field, custom_fields_checked,
  field_named, validate_tags, validate_custom_fields,
}
use josemar_assistente.Tasknotes.Engine.Requests.{CreateRequest}
use josemar_assistente.Tasknotes.Engine.Prepare.{Settings}
use josemar_assistente.Tasknotes.Engine.Links.{run_daily_link_projection}
use josemar_assistente.Tasknotes.Engine.Operations.Delete.{delete}
use josemar_assistente.Tasknotes.Engine.Outcomes.{completion, run}
use josemar_assistente.Tasknotes.Engine.Refused.{IsRefusal, marker-blocks}
use josemar_assistente.Tasknotes.Engine.Checked.{
  Passes, Defined, validate_tags-exact, validate_custom_fields-Defined,
}
use josemar_assistente.Tasknotes.Engine.Reported.{reported, run_daily_link_projection-reported}

abbrev effort : UserField
effort = record { id = "f1"; key = "effort"; kind = "text"; options = [] }

abbrev profile : TaskNotesProfile
profile = record {
  tasks_folder = "tasks";
  task_tag = "task";
  archive_tag = "archived";
  statuses = "open" ∷ "done" ∷ [];
  completed_status = "done";
  default_status = "open";
  priorities = "normal" ∷ [];
  default_priority = "normal";
  mappings = ("title", "title") ∷ ("status", "state") ∷ ("scheduled", "day") ∷ [];
  profile_hash = "hash";
  source_id = some "vault";
  move_archived_tasks = false;
  archive_folder = none;
  user_fields = effort ∷ [];
}

abbrev texts : Texts
texts = record {
  strip = λ s. s;
  lower = λ s. s;
  text_length = λ s. 4;
  has_control = λ s. false;
  has_part = λ part s. false;
  ends_line = λ s. false;
  denormalize_bare_date = λ s. s;
  is_tag = λ s. true;
  is_slug = λ s. true;
  is_date = λ s. true;
  is_monday = λ s. true;
  utf8_length = λ s. 4;
}

abbrev config : DailyNotesConfig
config = record { folder = "daily"; format = "YYYY-MM-DD"; template = none }

-- The text of the note, where there is one
abbrev World : Type 0
World = Option String

abbrev page_of : World → Result EngineError Fields × World
page_of none = (err (page_not_found ""), none)
page_of (some text) = (ok (field "compiled_truth" (str text) end), some text)

abbrev text_of : Option Json → Result EngineError String
text_of (some (str s)) = ok s
text_of value = err (core_error "no text")

abbrev disk_text : World → Result EngineError String × World
disk_text none = (err (core_error "no file"), none)
disk_text (some text) = (ok text, some text)

abbrev there : World → Bool
there none = false
there (some text) = true

-- Everything succeeds; the recovery marker is there or not.
abbrev services : Bool → Services World String (Unit {0}) String
services marker = record {
  marker_exists = λ w. (ok marker, w);
  write_marker = λ w. (ok tt, w);
  load_profile = λ w. (ok profile, w);
  verify_gbrain_source = λ p w. (ok p, w);
  check_git_state = λ w. (ok tt, w);
  git_preflight_commit = λ w. (ok tt, w);
  git_target_clean = λ target w. (ok true, w);
  git_commit_target = λ target w. (ok tt, w);
  git_head_id = λ w. (ok (some "c0ffee"), w);
  git_rm_and_commit = λ target w. (ok tt, w);
  make_parent = λ target w. (ok tt, w);
  lstat_exists = λ target w. (ok (there w), w);
  target_exists_no_follow = λ target w. (ok (there w), w);
  gbrain_sync_incremental = λ source w. (ok tt, w);
  gbrain_sync_full = λ source w. (ok tt, w);
  gbrain_get_page = λ slug source w. page_of w;
  gbrain_capture = λ slug source text w. (ok (field "written" (bool true) end), some text);
  gbrain_untag = λ slug tag source w. (ok tt, w);
  gbrain_delete = λ slug source w. (ok tt, none);
  semantic_from_gbrain = λ page p. text_of (get "compiled_truth" page);
  semantic_from_disk = λ p slug w. disk_text w;
  semantic_from_markdown = λ text p. ok text;
  semantic_documents_agree = λ a b p. str_eq a b;
  build_create_markdown = λ p new. ok new.title;
  serialize_frontmatter = λ fm. ok "---";
  generate_slug = λ title w. (ok title, w);
  today_in_tz = λ w. (ok "2026-01-01", w);
  load_daily_notes_config = λ w. (ok config, w);
  resolve_daily_note_path = λ c date w. (ok date, w);
  prepare_daily_note_projection = λ c operation date slug w. (ok date, w);
  projection_date = λ p. p;
  projection_target = λ p. p;
  apply_daily_note_projection = λ c p w. (ok applied, w);
  git_commit_daily_projection_targets = λ targets w. (ok tt, w);
  prepare_reconciliation = λ p c w. (ok tt, w);
  apply_reconciliation = λ p c plan w. (ok tt, w);
  finalize_reconciliation = λ c w. (ok tt, w);
}

abbrev settings : Settings
settings = record { daily_links_enabled = true; reconcile_enabled = true }

abbrev request : CreateRequest
request = record {
  title = "water the plants";
  status = none;
  priority = none;
  due = none;
  scheduled = some "2026-01-05";
  projects = none;
  tags = none;
  body = "";
  custom_fields = none;
  recurrence = none;
  planned_week = none;
}

marker-blocks_example :
    IsRefusal
      (some "text", [])
      (run (services true) texts settings (completion "plants" none) (some "text", []))
    × IsRefusal (some "text", []) (delete (services true) texts settings "plants" (some "text", []))
marker-blocks_example =
    marker-blocks (services true) texts settings (some "text") refl (λ title. refl) []
      (completion "plants" none) "plants"

run_daily_link_projection-reported_example :
    reported
      (run_daily_link_projection (services false) profile config ("2026-01-05" ∷ []) (none, [])).0
      (run_daily_link_projection (services false) profile config ("2026-01-05" ∷ []) (none, [])).1.1
    ≡ true
run_daily_link_projection-reported_example =
    run_daily_link_projection-reported (services false) profile config ("2026-01-05" ∷ []) none

abbrev given_tags : List String
given_tags = "a" ∷ "b" ∷ "a" ∷ []

abbrev kept_tags : List String
kept_tags = "a" ∷ "b" ∷ []

tags_accepted : validate_tags texts profile given_tags ≡ ok kept_tags
unfolding validate_tags unique_checked check_tag
tags_accepted = refl

validate_tags-exact_example :
    (length given_tags ≤ 50)
    × All (Passes (check_tag texts)) given_tags
    × (distinct kept_tags ≡ true)
    × (contains "archived" kept_tags ≡ false)
    × ((tag : String) → contains tag kept_tags ≡ contains tag given_tags)
validate_tags-exact_example = validate_tags-exact texts profile given_tags kept_tags tags_accepted

abbrev custom : Fields
custom = field "effort" (str "much") end

fields_accepted : validate_custom_fields texts profile (some custom) ≡ ok custom
unfolding validate_custom_fields custom_fields_checked check_field field_named check_kind check_text
    put
fields_accepted = refl

validate_custom_fields-Defined_example : Defined texts (effort ∷ []) "effort" (str "much")
unfolding get
validate_custom_fields-Defined_example =
    validate_custom_fields-Defined texts profile (some custom) custom fields_accepted "effort"
      (str "much") refl
