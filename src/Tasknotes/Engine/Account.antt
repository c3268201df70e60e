-- ===== src/Tasknotes/Engine/Account.antt =====
-- What an answer of the engine says of the events before it (scripts/tasknotes_mcp_core.py): the
-- five states of a `MutationResult`, and what it means that the code raised.
use josemar_assistente.Base.{String, Option, Bool, true, false, List, [], ◌∷◌}
use josemar_assistente.Base.Result.{ok, err}
use josemar_assistente.Tasknotes.Engine.Effects.{
  Event, target_clean, profile_same, file_absent, page_absent, captured, untagged, verified,
  committed, clean, synced_full, marker_tried, note_written, notes_committed, notes_synced,
  page_deleted, file_removed, page_gone,
}
use josemar_assistente.Tasknotes.Engine.Marks.{Account}
use josemar_assistente.Tasknotes.Engine.Services.{
  MutationState, not_applied, applied_and_committed, applied_uncommitted, db_updated_disk_failed,
  recovery_required, MutationResult,
}

-- What a guard has shown: before a change the target is clean, and after that the profile and the
-- source are the same; before a creation there is no file, and after that no page
abbrev pub is_guarded : List Event → Bool
is_guarded (profile_same ∷ target_clean ∷ []) = true
is_guarded (page_absent ∷ file_absent ∷ []) = true
is_guarded log = false

-- Nothing but the guard, and the removal of a tag after it
abbrev pub is_ready : List Event → Bool
is_ready (untagged ∷ log) = is_guarded log
is_ready log = is_guarded log

-- A part of that
abbrev is_before : List Event → Bool
is_before [] = true
is_before (target_clean ∷ []) = true
is_before (file_absent ∷ []) = true
is_before log = is_ready log

-- The last events of a capture, when they are these after a guard
abbrev is_captured : List Event → Bool
is_captured (captured ∷ log) = is_ready log
is_captured log = false

abbrev is_verified : List Event → Bool
is_verified (verified ∷ log) = is_captured log
is_verified log = false

abbrev is_committed : List Event → Bool
is_committed (committed ∷ log) = is_verified log
is_committed log = false

abbrev is_clean : List Event → Bool
is_clean (clean ∷ log) = is_committed log
is_clean log = false

-- The record without the last events when they are about the daily notes
abbrev pub task_events : List Event → List Event
task_events (note_written target ∷ log) = task_events log
task_events (notes_committed targets ∷ log) = task_events log
task_events (notes_synced ∷ log) = task_events log
task_events log = log

-- `applied_uncommitted`: verified, and perhaps committed, and perhaps found clean after that
abbrev is_uncommitted : List Event → Bool
is_uncommitted (clean ∷ log) = is_committed log
is_uncommitted (verified ∷ log) = is_captured log
is_uncommitted (committed ∷ log) = is_verified log
is_uncommitted log = false

-- `db_updated_disk_failed`: verified after a full synchronisation
abbrev is_recovered : List Event → Bool
is_recovered (verified ∷ synced_full ∷ log) = is_captured log
is_recovered log = false

-- `recovery_required`: the writing of the marker has been tried last, perhaps after a full synchronisation
abbrev is_marked : List Event → Bool
is_marked (marker_tried ∷ synced_full ∷ log) = is_captured log
is_marked (marker_tried ∷ log) = is_captured log
is_marked log = false

-- An error: before the capture, at the look for the file between the read-back and the commit, or
-- at the daily notes after all is done
abbrev pub is_raised : List Event → Bool
is_raised (verified ∷ log) = is_captured log
is_raised (clean ∷ log) = is_committed log
is_raised log = is_before log

abbrev is_nothing : List Event → Bool
is_nothing [] = true
is_nothing log = false

abbrev pub explains : MutationState → List Event → Bool
explains not_applied log = is_nothing log
explains applied_and_committed log = is_clean log
explains applied_uncommitted log = is_uncommitted log
explains db_updated_disk_failed log = is_recovered log
explains recovery_required log = is_marked log

-- A test that looks at the state and at the events of the task
abbrev pub by_state :
    (MutationState → List Event → Bool) → (List Event → Bool) → Account MutationResult
by_state holds raised (ok result) log = holds result.state (task_events log)
by_state holds raised (err e) log = raised (task_events log)

-- The record of a mutation that ends in a capture
abbrev pub accounted : Account MutationResult
accounted = by_state explains is_raised

-- A guard that returns has shown all of it; one that raises leaves an end of the mutation.
abbrev pub guard_account : {A : Type 0} → Account A
guard_account (ok a) log = is_guarded log
guard_account (err e) log = is_raised (task_events log)

-- The facts after a commit
abbrev pub facts_account : Account (Bool × Option String)
facts_account (ok (true, commit_id)) log = explains applied_and_committed (task_events log)
facts_account (ok (false, commit_id)) log = explains applied_uncommitted (task_events log)
facts_account (err e) log = explains applied_uncommitted (task_events log)

-- The record of a deletion: the target was clean, the page is deleted, then the file removed.
abbrev is_removed : List Event → Bool
is_removed (file_removed ∷ page_deleted ∷ target_clean ∷ []) = true
is_removed log = false

-- And gbrain has said after that that the page is not there.
abbrev is_gone : List Event → Bool
is_gone (page_gone ∷ log) = is_removed log
is_gone log = false

abbrev is_begun : List Event → Bool
is_begun (page_deleted ∷ target_clean ∷ []) = true
is_begun log = is_removed log

abbrev pub explains_deletion : MutationState → List Event → Bool
explains_deletion not_applied log = is_nothing log
explains_deletion applied_and_committed log = is_gone log
explains_deletion applied_uncommitted log = is_removed log
explains_deletion db_updated_disk_failed log = false
explains_deletion recovery_required log = is_begun log

abbrev pub raised_deletion : List Event → Bool
raised_deletion [] = true
raised_deletion (target_clean ∷ []) = true
raised_deletion (page_gone ∷ log) = is_removed log
raised_deletion log = is_begun log

abbrev pub deletion_accounted : Account MutationResult
deletion_accounted = by_state explains_deletion raised_deletion
