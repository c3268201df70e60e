-- ===== src/Tasknotes/Engine/Operations.antt =====
-- What the operations on a task share (scripts/tasknotes_mcp_core.py).
pub mod Tags
pub mod Create
pub mod Update
pub mod Delete
use josemar_assistente.Base.{
  String, Bool, true, false, not, ◌&&◌, Option, none, some, List, [], ◌∷◌, if◌then◌else◌,
}
use josemar_assistente.Base.Json.{Fields}
use josemar_assistente.Base.Result.{Result, ok, err}
use josemar_assistente.Tasknotes.Reconcile.Compose.{DailyNotesConfig}
use josemar_assistente.Tasknotes.Engine.Effects.{EngineError, M, pure, lift, call, ◌>>=◌, ◌>>◌}
use josemar_assistente.Tasknotes.Engine.Services.{TaskNotesProfile, MutationResult, Texts, Services}
use josemar_assistente.Tasknotes.Engine.Validate.{validate_slug, validate_markdown_bound}
use josemar_assistente.Tasknotes.Engine.Page.{Page, decode_page, reconstruct_markdown}
use josemar_assistente.Tasknotes.Engine.Publish.{get_page, capture_task}
use josemar_assistente.Tasknotes.Engine.Prepare.{
  Settings, begin, settle, mutation_pre_capture_guard,
}
use josemar_assistente.Tasknotes.Engine.Links.{
  Step, steps_of, compose_daily_link_plan_by_target, prepare_daily_link_projections,
}

-- A page as gbrain gives it, and decoded
pub record Current : Type 0 where
  pub raw : Fields
  pub page : Page

-- The text of a note and what it means
pub record Change (Document : Type 0) : Type 0 where
  pub markdown : String
  pub expected : Document

-- The prepared projections, and the settings of the daily notes that they go with
pub record Prepared (Projection : Type 0) : Type 0 where
  pub projections : Option (List Projection)
  pub config : Option DailyNotesConfig

abbrev pub unprepared : {Projection : Type 0} → Prepared Projection
unprepared = record { projections = none; config = none }

module _ {W Document Plan Projection : Type 0} (services : Services W Document Plan Projection)
    (texts : Texts) (settings : Settings) where
  open services use {
    load_profile, verify_gbrain_source, load_daily_notes_config, serialize_frontmatter,
    semantic_from_markdown,
  }

  -- `begin`, the verification of the source and all up to the stable profile
  unfoldable pub settled_profile : M W TaskNotesProfile
  settled_profile = do
    profile ← begin services
    verified ← call (verify_gbrain_source profile)
    settle services settings verified

  unfoldable pub read_page : TaskNotesProfile → String → M W Current
  read_page profile slug = do
    raw ← get_page services profile slug
    page ← lift (decode_page raw)
    pure (record { raw = raw; page = page })

  unfoldable pub check_markdown : TaskNotesProfile → String → M W (Change Document)
  check_markdown profile markdown = do
    lift (validate_markdown_bound texts markdown)
    expected ← lift (semantic_from_markdown markdown profile)
    pure (record { markdown = markdown; expected = expected })

  -- The rewritten note, and the guard
  unfoldable pub guarded_change :
      TaskNotesProfile → String → Current → Fields → Option String → M W (Change Document)
  guarded_change profile slug current updates body = do
    markdown ← lift (
        reconstruct_markdown (texts.denormalize_bare_date) (texts.ends_line) serialize_frontmatter
          current.raw profile updates body)
    change ← check_markdown profile markdown
    mutation_pre_capture_guard services profile slug
    pure change

  abbrev pub capture_change : TaskNotesProfile → String → Change Document → M W MutationResult
  capture_change profile slug change =
      capture_task services profile slug change.markdown change.expected

  -- The rewriting of a page that no daily note follows
  unfoldable pub rewrite_task : TaskNotesProfile → String → Current → Fields → M W MutationResult
  rewrite_task profile slug current updates =
      guarded_change profile slug current updates none >>= capture_change profile slug

  unfoldable pub prepare_steps : TaskNotesProfile → String → List Step → M W (Prepared Projection)
  prepare_steps profile slug date_steps = do
    config ← call load_daily_notes_config
    steps ← compose_daily_link_plan_by_target services config date_steps
    projections ← prepare_daily_link_projections services profile config slug steps
    pure (record { projections = some projections; config = some config })
