-- ===== src/Tasknotes/Engine/Services.antt =====
-- What the operations on tasks work with (scripts/tasknotes_mcp_core.py): the profile, the outcome of
-- a mutation, and, as arguments, what reads and writes the world and the text of a note.
use josemar_assistente.Base.{ℕ, String, Bool, Option, List}
use josemar_assistente.Base.Dict.{Dict}
use josemar_assistente.Base.Result.{Result}
use josemar_assistente.Base.Json.{Fields}
use josemar_assistente.Tasknotes.Reconcile.Compose.{DailyNotesConfig, Operation}
use josemar_assistente.Tasknotes.Engine.Effects.{EngineError}

-- A user field of the profile, with the options of an enumeration
pub record UserField : Type 0 where
  pub id : String
  pub key : String
  pub kind : String
  pub options : List String

-- `TaskNotesProfile`, as far as the operations read it
pub record TaskNotesProfile : Type 0 where
  pub tasks_folder : String
  pub task_tag : String
  pub archive_tag : String
  pub statuses : List String
  pub completed_status : String
  pub default_status : String
  pub priorities : List String
  pub default_priority : String
  pub mappings : Dict String
  pub profile_hash : String
  pub source_id : Option String
  pub move_archived_tasks : Bool
  pub archive_folder : Option String
  pub user_fields : List UserField

pub data MutationState : Type 0 where
  not_applied applied_and_committed applied_uncommitted db_updated_disk_failed recovery_required :
      MutationState

-- `DAILY_LINK_APPLIED` and the others
pub data DailyLinkState : Type 0 where
  link_applied link_sync_failed link_conflict link_write_failed link_commit_failed
        link_not_applicable link_not_applied :
      DailyLinkState

pub record MutationResult : Type 0 where
  pub state : MutationState
  pub slug : String
  pub commit_id : Option String
  pub detail : Option String
  pub daily_link_state : Option DailyLinkState
  pub daily_link_detail : Option String
  pub daily_link_dates : Option (List String)

-- The state of a `DailyNoteProjectionOutcome`
pub data ProjectionOutcome : Type 0 where
  applied unapplied conflict : ProjectionOutcome

-- The tests on texts: `str.strip`, `str.lower`, `len`, a control character in a text, a part of a
-- text, the end of a line, `_denormalize_bare_date`, the patterns `_TAG_RE`, `_SLUG_RE` and `_DATE_RE` (the last one with `date.fromisoformat`),
-- and the day of the week
pub record Texts : Type 0 where
  pub strip : String → String
  pub lower : String → String
  pub text_length : String → ℕ
  pub has_control : String → Bool
  pub has_part : String → String → Bool
  pub ends_line : String → Bool
  pub denormalize_bare_date : String → String
  pub is_tag : String → Bool
  pub is_slug : String → Bool
  pub is_date : String → Bool
  pub is_monday : String → Bool
  pub utf8_length : String → ℕ

-- What `create` writes into a new note
pub record NewTask : Type 0 where
  pub title : String
  pub status : String
  pub priority : String
  pub due : Option String
  pub scheduled : Option String
  pub projects : Option (List String)
  pub tags : Option (List String)
  pub body : String
  pub custom_fields : Fields
  pub recurrence : Option String
  pub planned_week : Option String

-- A call answers or raises, and leaves another world.
abbrev pub Answer : Type 0 → Type 0 → Type 0
Answer W A = W → Result EngineError A × W

-- A document is what a note means, a plan that of a reconciliation, a projection a prepared change of
-- a daily note.
pub record Services (W Document Plan Projection : Type 0) : Type 0 where
  pub marker_exists : Answer W Bool
  pub write_marker : Answer W (Unit {0})
  pub load_profile : Answer W TaskNotesProfile
  pub verify_gbrain_source : TaskNotesProfile → Answer W TaskNotesProfile
  pub check_git_state : Answer W (Unit {0})
  pub git_preflight_commit : Answer W (Unit {0})
  pub git_target_clean : String → Answer W Bool
  pub git_commit_target : String → Answer W (Unit {0})
  pub git_head_id : Answer W (Option String)
  pub git_rm_and_commit : String → Answer W (Unit {0})
  pub make_parent : String → Answer W (Unit {0})
  pub lstat_exists : String → Answer W Bool
  pub target_exists_no_follow : String → Answer W Bool
  pub gbrain_sync_incremental : Option String → Answer W (Unit {0})
  pub gbrain_sync_full : Option String → Answer W (Unit {0})
  pub gbrain_get_page : String → Option String → Answer W Fields
  pub gbrain_capture : String → Option String → String → Answer W Fields
  pub gbrain_untag : String → String → Option String → Answer W (Unit {0})
  pub gbrain_delete : String → Option String → Answer W (Unit {0})
  pub semantic_from_gbrain : Fields → TaskNotesProfile → Result EngineError Document
  pub semantic_from_disk : TaskNotesProfile → String → Answer W Document
  pub semantic_from_markdown : String → TaskNotesProfile → Result EngineError Document
  pub semantic_documents_agree : Document → Document → TaskNotesProfile → Bool
  pub build_create_markdown : TaskNotesProfile → NewTask → Result EngineError String
  pub serialize_frontmatter : Fields → Result EngineError String
  pub generate_slug : String → Answer W String
  pub today_in_tz : Answer W String
  pub load_daily_notes_config : Answer W DailyNotesConfig
  pub resolve_daily_note_path : DailyNotesConfig → String → Answer W String
  pub prepare_daily_note_projection :
      DailyNotesConfig → Operation → String → String → Answer W Projection
  pub projection_date : Projection → String
  pub projection_target : Projection → String
  pub apply_daily_note_projection : DailyNotesConfig → Projection → Answer W ProjectionOutcome
  pub git_commit_daily_projection_targets : List String → Answer W (Unit {0})
  pub prepare_reconciliation : TaskNotesProfile → DailyNotesConfig → Answer W Plan
  pub apply_reconciliation : TaskNotesProfile → DailyNotesConfig → Plan → Answer W (Unit {0})
  pub finalize_reconciliation : DailyNotesConfig → Answer W (Unit {0})
