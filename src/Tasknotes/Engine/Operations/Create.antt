-- ===== src/Tasknotes/Engine/Operations/Create.antt =====
-- `create` of `TaskNotesEngine` (scripts/tasknotes_mcp_core.py).
use josemar_assistente.Base.{String, ◌&&◌, Option, none, some, if◌then◌else◌}
use josemar_assistente.Tasknotes.Engine.Effects.{M, pure, lift, call, ◌>>=◌, ◌>>◌}
use josemar_assistente.Tasknotes.Engine.Services.{
  TaskNotesProfile, MutationResult, NewTask, Texts, Services,
}
use josemar_assistente.Tasknotes.Engine.Validate.{validate_slug}
use josemar_assistente.Tasknotes.Engine.Requests.{CreateRequest, given, checked_create, new_task}
use josemar_assistente.Tasknotes.Engine.Prepare.{
  Settings, begin, settle, reread_profile, create_pre_capture_guard,
}
use josemar_assistente.Tasknotes.Engine.Links.{daily_link_plan, steps_of, finish_with_daily_links}
use josemar_assistente.Tasknotes.Engine.Operations.{
  Prepared, unprepared, check_markdown, capture_change, prepare_steps,
}

module _ {W Document Plan Projection : Type 0} (services : Services W Document Plan Projection)
    (texts : Texts) (settings : Settings) where
  open services use {verify_gbrain_source, build_create_markdown, generate_slug}

  unfoldable pub slug_for : Option String → String → M W String
  slug_for none title = call (generate_slug title)
  slug_for (some slug) title = pure slug

  unfoldable pub prepare_new : TaskNotesProfile → String → Option String → M W (Prepared Projection)
  prepare_new profile slug scheduled =
      if settings.daily_links_enabled && given scheduled
      then prepare_steps services texts settings profile slug
          (steps_of (daily_link_plan none scheduled))
      else pure unprepared

  -- From the first look at the profile to the stable one after the guard
  unfoldable pub guarded_profile : String → TaskNotesProfile → M W TaskNotesProfile
  guarded_profile slug profile = do
    verified ← call (verify_gbrain_source profile)
    settled ← settle services settings verified
    create_pre_capture_guard services settled slug
    reread_profile services verified.profile_hash

  -- From the stable profile on
  unfoldable pub write_new : String → NewTask → TaskNotesProfile → M W MutationResult
  write_new slug new profile = do
    markdown ← lift (build_create_markdown profile new)
    change ← check_markdown services texts settings profile markdown
    prepared ← prepare_new profile slug new.scheduled
    capture_change services texts settings profile slug change
        >>= finish_with_daily_links services settings profile prepared.projections prepared.config

  unfoldable pub create : Option String → CreateRequest → M W MutationResult
  create given_slug request = do
    slug ← slug_for given_slug request.title
    lift (validate_slug texts slug)
    checked ← lift (checked_create texts request)
    profile ← begin services
    new ← lift (new_task texts profile checked)
    stable ← guarded_profile slug profile
    write_new slug new stable
