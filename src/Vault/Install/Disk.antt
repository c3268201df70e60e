-- ===== src/Vault/Install/Disk.antt =====
-- The disk that an install works on, and the durable actions that it makes on it
-- (scripts/vault_recovery_restore_core.py: `_append_step`, `_mark_step_done`, `_fsync_rename`).
-- A tree is a directory by the names of its top-level entries; a crash can come between any two
-- actions. `C` is the content of an entry.
use josemar_assistente.Base.{
  String, Bool, true, false, Option, none, some, List, [], ◌∷◌, str_eq, if◌then◌else◌,
}

-- `GBRAIN_TREE_NAME` and `VAULT_TREE_NAME`
pub data TreeName : Type 0 where
  gbrain_tree vault_tree : TreeName

unfoldable pub same_tree : TreeName → TreeName → Bool
same_tree gbrain_tree gbrain_tree = true
same_tree vault_tree vault_tree = true
same_tree _ _ = false

pub data Op : Type 0 where
  move_live_tree move_staged_tree : Op
  remove_entry move_live_entry move_staged_entry add_entry : String → Op

pub data StepState : Type 0 where
  pending done : StepState

-- A step of the journal, the newest first.
pub record Step : Type 0 where
  pub tree : TreeName
  pub op : Op
  pub state : StepState

abbrev pub Tree : Type 0 → Type 0
Tree C = String → Option C

-- One of the two installs: the live tree, its backup and the staged tree, each if it exists.
pub record Place (C : Type 0) : Type 0 where
  pub live : Option (Tree C)
  pub backup : Option (Tree C)
  pub staged : Option (Tree C)

pub record Disk (C : Type 0) : Type 0 where
  pub gbrain : Place C
  pub vault : Place C
  pub steps : List Step

module _ {C : Type 0} where
  unfoldable pub place : TreeName → Disk C → Place C
  place gbrain_tree d = d.gbrain
  place vault_tree d = d.vault

  unfoldable pub set_place : TreeName → Place C → Disk C → Disk C
  set_place gbrain_tree p d = record d { gbrain = p }
  set_place vault_tree p d = record d { vault = p }

  -- The tree with one entry set or removed.
  unfoldable pub put_entry : String → Option C → Tree C → Tree C
  put_entry name c t other = if str_eq name other then c else t other

  -- An entry of a tree that may not exist.
  unfoldable pub entry : Option (Tree C) → Tree C
  entry none name = none
  entry (some t) name = t name

  unfoldable pub with_entry : String → Option C → Option (Tree C) → Option (Tree C)
  with_entry name c none = none
  with_entry name c (some t) = some (put_entry name c t)

-- The durable actions. `move_*` are renames, each followed by fsyncs of the parents.
pub data Action : Type 0 where
  append_step : TreeName → Op → Action
  mark_step_done drop_step : Action
  move_live move_staged make_backup : TreeName → Action
  move_live_name move_staged_name : TreeName → String → Action

-- The newest step is flipped to done.
unfoldable pub mark_newest : List Step → List Step
mark_newest [] = []
mark_newest (s ∷ steps) = record s { state = done } ∷ steps

unfoldable pub drop_newest : List Step → List Step
drop_newest [] = []
drop_newest (s ∷ steps) = steps

module _ {C : Type 0} where
  abbrev pub no_entries : Tree C
  no_entries name = none

  -- The renames within one place.
  unfoldable pub move_live_place : Place C → Place C
  move_live_place p = record p { live = none; backup = p.live }

  unfoldable pub move_staged_place : Place C → Place C
  move_staged_place p = record p { live = p.staged; staged = none }

  unfoldable pub make_backup_place : Place C → Place C
  make_backup_place p = record p { backup = some no_entries }

  unfoldable pub move_live_name_place : String → Place C → Place C
  move_live_name_place name p = record p {
    live = with_entry name none p.live;
    backup = with_entry name (entry p.live name) p.backup;
  }

  unfoldable pub move_staged_name_place : String → Place C → Place C
  move_staged_name_place name p = record p {
    live = with_entry name (entry p.staged name) p.live;
    staged = with_entry name none p.staged;
  }

  unfoldable pub perform : Action → Disk C → Disk C
  perform (append_step tree op) d = record d {
    steps = record { tree = tree; op = op; state = pending } ∷ d.steps;
  }
  perform mark_step_done d = record d { steps = mark_newest d.steps }
  perform drop_step d = record d { steps = drop_newest d.steps }
  perform (move_live tree) d = set_place tree (move_live_place (place tree d)) d
  perform (move_staged tree) d = set_place tree (move_staged_place (place tree d)) d
  perform (make_backup tree) d = set_place tree (make_backup_place (place tree d)) d
  perform (move_live_name tree name) d = set_place tree (move_live_name_place name (place tree d)) d
  perform (move_staged_name tree name) d =
      set_place tree (move_staged_name_place name (place tree d)) d

  unfoldable pub perform_all : List Action → Disk C → Disk C
  perform_all [] d = d
  perform_all (a ∷ actions) d = perform_all actions (perform a d)
