-- ===== src/Vault/Install/Swap.antt =====
-- The swaps of one tree as sequences of durable actions (`_swap_tree` and `_per_entry_swap` of
-- scripts/vault_recovery_restore_core.py). A tree's listing leaves out `INSTALL_DIR_NAME`, as both
-- comprehensions do, and comes sorted.
use josemar_assistente.Base.{String, List, [], ◌∷◌, ◌++◌, contains, if◌then◌else◌}
use josemar_assistente.Vault.Install.Disk.{
  TreeName, Op, move_live_tree, move_staged_tree, remove_entry, move_live_entry, move_staged_entry,
  add_entry, Action, append_step, mark_step_done, drop_step, move_live, move_staged, make_backup,
  move_live_name, move_staged_name,
}

-- Whether the rename of the live root was possible, refused (EBUSY, EXDEV, EINVAL) or failed.
pub data RootRename : Type 0 where
  renamed refused broken : RootRename

-- The write-ahead record of a rename, the rename, and the record's flip.
unfoldable pub journaled : TreeName → Op → Action → List Action
journaled tree op rename = append_step tree op ∷ rename ∷ mark_step_done ∷ []

unfoldable pub atomic_swap : TreeName → List Action
atomic_swap tree =
    journaled tree move_live_tree (move_live tree)
    ++ journaled tree move_staged_tree (move_staged tree)

-- What a loop of the swap by entries does for one name.
pub data Job : Type 0 where
  remove_job swap_job add_job : String → Job

unfoldable pub job_actions : TreeName → Job → List Action
job_actions tree (remove_job name) = journaled tree (remove_entry name) (move_live_name tree name)
job_actions tree (swap_job name) =
    journaled tree (move_live_entry name) (move_live_name tree name)
    ++ journaled tree (move_staged_entry name) (move_staged_name tree name)
job_actions tree (add_job name) = journaled tree (add_entry name) (move_staged_name tree name)

unfoldable pub jobs_actions : TreeName → List Job → List Action
jobs_actions tree [] = []
jobs_actions tree (job ∷ jobs) = job_actions tree job ++ jobs_actions tree jobs

-- `live_names - staged_names`, `live_names & staged_names` and `staged_names - live_names`
unfoldable pub removals : List String → List String → List Job
removals staged [] = []
removals staged (name ∷ names) =
    let rest = removals staged names in
    if contains name staged then rest else remove_job name ∷ rest

unfoldable pub swaps : List String → List String → List Job
swaps staged [] = []
swaps staged (name ∷ names) =
    let rest = swaps staged names in if contains name staged then swap_job name ∷ rest else rest

unfoldable pub additions : List String → List String → List Job
additions live [] = []
additions live (name ∷ names) =
    let rest = additions live names in if contains name live then rest else add_job name ∷ rest

unfoldable pub swap_jobs : List String → List String → List Job
swap_jobs live staged = removals staged live ++ (swaps staged live ++ additions live staged)

unfoldable pub per_entry_swap : TreeName → List String → List String → List Action
per_entry_swap tree live staged = make_backup tree ∷ jobs_actions tree (swap_jobs live staged)

-- A refused rename never happened: its step is dropped before the swap by entries. A rename that
-- failed otherwise ends the install.
unfoldable pub swap_tree : TreeName → RootRename → List String → List String → List Action
swap_tree tree renamed live staged = atomic_swap tree
swap_tree tree refused live staged =
    append_step tree move_live_tree ∷ drop_step ∷ per_entry_swap tree live staged
swap_tree tree broken live staged = append_step tree move_live_tree ∷ []
