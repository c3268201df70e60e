-- ===== src/Tasknotes/Engine/Outcomes.antt =====
-- The operations on tasks as one (`TaskNotesEngine`, scripts/tasknotes_mcp_core.py): what their
-- answers say of the events of the run.
use josemar_assistente.Base.{String, Option}
use josemar_assistente.Tasknotes.Engine.Effects.{M}
use josemar_assistente.Tasknotes.Engine.Services.{MutationResult, Texts, Services}
use josemar_assistente.Tasknotes.Engine.Requests.{CreateRequest, UpdateRequest}
use josemar_assistente.Tasknotes.Engine.Prepare.{Settings}
use josemar_assistente.Tasknotes.Engine.Operations.Tags.{complete, archive, add_tag, remove_tag}
use josemar_assistente.Tasknotes.Engine.Operations.Create.{create}
use josemar_assistente.Tasknotes.Engine.Operations.Update.{update}

-- A mutation that ends in a capture
pub data Mutation : Type 0 where
  creation : Option String → CreateRequest → Mutation
  change : String → UpdateRequest → Mutation
  completion : String → Option String → Mutation
  archiving : String → Mutation
  tagging untagging : String → String → Mutation

module _ {W Document Plan Projection : Type 0} (services : Services W Document Plan Projection)
    (texts : Texts) (settings : Settings) where
  abbrev pub run : Mutation → M W MutationResult
  run (creation slug request) = create services texts settings slug request
  run (change slug request) = update services texts settings slug request
  run (completion slug date) = complete services texts settings slug date
  run (archiving slug) = archive services texts settings slug
  run (tagging slug tag) = add_tag services texts settings slug tag
  run (untagging slug tag) = remove_tag services texts settings slug tag
