-- ===== src/Tasknotes/Engine/Silent.antt =====
-- What runs before a guard leaves no event in the record, and a read-back one where it agrees
-- (scripts/tasknotes_mcp_core.py).
use josemar_assistente.Base.{String, Bool, true, false, Option, none, some, [], ◌∷◌}
use josemar_assistente.Tasknotes.Engine.Effects.{verified}
use josemar_assistente.Tasknotes.Engine.Marks.{
  Marks, Silent, bind-Marks, guarded_note-Marks, call-Silent, lift-Silent, silent_rules,
}
use josemar_assistente.Tasknotes.Engine.Services.{TaskNotesProfile, Services}
use josemar_assistente.Tasknotes.Engine.Publish.{
  archived_path, resolve_task_path_any, verify_readback,
}
use josemar_assistente.Tasknotes.Engine.Prepare.{
  Settings, check_recovery_marker, run_reconciliation, maybe_reconcile, preflight,
  verify_profile_stable, reread_profile, settle, begin,
}

module _ {W Document Plan Projection : Type 0}
    (services : Services W Document Plan Projection) where
  pub archived_path-Silent :
      (folder : Option String) (moves : Bool) (slug : String)
      → Silent (archived_path services folder moves slug)
  unfolding archived_path
  archived_path-Silent (some folder) true slug = search silent_rules
  archived_path-Silent (some folder) false slug = search silent_rules
  archived_path-Silent none moves slug = search silent_rules

  pub resolve_task_path_any-Silent :
      (profile : TaskNotesProfile) (slug : String)
      → Silent (resolve_task_path_any services profile slug)
  unfolding resolve_task_path_any
  resolve_task_path_any-Silent profile slug = search (silent_rules, archived_path-Silent)

  pub verify_readback-Marks :
      (profile : TaskNotesProfile) (slug : String) (expected : Option Document)
      → Marks (verified ∷ []) (verify_readback services profile slug expected)
  unfolding verify_readback
  verify_readback-Marks profile slug expected = bind-Marks (call-Silent _) (λ page.
      bind-Marks (lift-Silent _)
        (λ document. bind-Marks (call-Silent _) (λ on_disk. guarded_note-Marks _ _ _ _ _)))

  pub check_recovery_marker-Silent : Silent (check_recovery_marker services)
  unfolding check_recovery_marker
  check_recovery_marker-Silent = search silent_rules

  pub begin-Silent : Silent (begin services)
  unfolding begin
  begin-Silent = search (silent_rules, check_recovery_marker-Silent)

  pub run_reconciliation-Silent :
      (profile : TaskNotesProfile) → Silent (run_reconciliation services profile)
  unfolding run_reconciliation
  run_reconciliation-Silent profile = search silent_rules depth 8

  pub maybe_reconcile-Silent :
      (settings : Settings) (profile : TaskNotesProfile)
      → Silent (maybe_reconcile services settings profile)
  unfolding maybe_reconcile
  maybe_reconcile-Silent settings profile = search (silent_rules, run_reconciliation-Silent)

  pub preflight-Silent : (profile : TaskNotesProfile) → Silent (preflight services profile)
  unfolding preflight
  preflight-Silent profile = search silent_rules

  pub verify_profile_stable-Silent : (hash : String) → Silent (verify_profile_stable services hash)
  unfolding verify_profile_stable
  verify_profile_stable-Silent hash = search silent_rules

  pub reread_profile-Silent : (hash : String) → Silent (reread_profile services hash)
  unfolding reread_profile
  reread_profile-Silent hash = search (silent_rules, verify_profile_stable-Silent)

  pub settle-Silent :
      (settings : Settings) (profile : TaskNotesProfile) → Silent (settle services settings profile)
  unfolding settle
  settle-Silent settings profile =
      search (silent_rules, maybe_reconcile-Silent, preflight-Silent, reread_profile-Silent)
