-- ===== src/Vault/Install/Rollback.antt =====
-- `_rollback_tree` of scripts/vault_recovery_restore_core.py: every step of one tree is undone, the
-- newest first, by probing the disk.
use josemar_assistente.Base.{
  String, Bool, true, false, Option, none, some, List, [], ◌∷◌, if◌then◌else◌,
}
use josemar_assistente.Vault.Install.Disk.{
  TreeName, same_tree, Op, move_live_tree, move_staged_tree, remove_entry, move_live_entry,
  move_staged_entry, add_entry, Step, Place, Disk, place, set_place, entry, with_entry,
}

abbrev pub exists {ℓ} : {A : Type ℓ} → Option A → Bool
exists none = false
exists (some a) = true

module _ {C : Type 0} where
  -- `if (backup / name).exists(): _rmtree_durable(live / name); _fsync_rename(backup / name, live / name)`
  -- A removed entry is renamed back without the first call, its name being free.
  unfoldable pub restore_name : String → Place C → Place C
  restore_name name p =
      if exists (entry p.backup name)
      then record p {
        live = with_entry name (entry p.backup name) p.live;
        backup = with_entry name none p.backup;
      }
      else p

  unfoldable pub undo : Op → Place C → Place C
  undo move_live_tree p = if exists p.backup then record p { live = p.backup; backup = none } else p
  undo move_staged_tree p = if exists p.backup then record p { live = none } else p
  undo (remove_entry name) p = restore_name name p
  undo (move_live_entry name) p = restore_name name p
  undo (move_staged_entry name) p =
      if exists (entry p.backup name) then record p { live = with_entry name none p.live } else p
  undo (add_entry name) p = record p { live = with_entry name none p.live }

  -- Steps in both states are undone alike, so the state is not read.
  unfoldable pub undo_all : TreeName → List Step → Place C → Place C
  undo_all tree [] p = p
  undo_all tree (s ∷ steps) p =
      undo_all tree steps (if same_tree s.tree tree then undo s.op p else p)

-- `[s for s in steps if s.get("tree") != tree]`
unfoldable pub other_steps : TreeName → List Step → List Step
other_steps tree [] = []
other_steps tree (s ∷ steps) =
    let rest = other_steps tree steps in if same_tree s.tree tree then rest else s ∷ rest

module _ {C : Type 0} where
  unfoldable pub rollback_tree : TreeName → Disk C → Disk C
  rollback_tree tree d = record (set_place tree (undo_all tree d.steps (place tree d)) d) {
    steps = other_steps tree d.steps;
  }
