-- ===== src/Vault/Install/Examples.antt =====
-- Runs of the install and the rollback (scripts/vault_recovery_restore_core.py) on small trees.
use josemar_assistente.Base.{ℕ, String, ◌≡◌, refl, Option, none, some, List, [], ◌∷◌, arith}
use josemar_assistente.Vault.Install.Disk.{
  vault_tree, Tree, Disk, place, put_entry, no_entries, perform_all, perform, set_place,
  move_staged_name_place, with_entry, move_live_name_place, make_backup_place, entry, drop_newest,
  mark_newest,
}
use josemar_assistente.Vault.Install.Swap.{
  refused, swap_tree, per_entry_swap, jobs_actions, swap_jobs, removals, job_actions, journaled,
  swaps, additions,
}
use josemar_assistente.Vault.Install.Rollback.{rollback_tree}
use josemar_assistente.Vault.Install.Stays.{first}
use josemar_assistente.Vault.Install.Plan.{Listing}
use josemar_assistente.Vault.Install.Crash.{staged_place, swap_tree-crash_safe}

abbrev old_notes : Tree ℕ
old_notes = put_entry "daily" (some 1) (put_entry "inbox" (some 2) no_entries)

abbrev new_notes : Tree ℕ
new_notes = put_entry "inbox" (some 3) (put_entry "tasks" (some 4) no_entries)

abbrev live_names : List String
live_names = "daily" ∷ "inbox" ∷ []

abbrev staged_names : List String
staged_names = "inbox" ∷ "tasks" ∷ []

abbrev before_install : Disk ℕ
before_install = record {
  gbrain = record { live = none; backup = none; staged = none };
  vault = staged_place old_notes new_notes;
  steps = [];
}

old_notes-Listing : Listing live_names old_notes
unfolding put_entry
old_notes-Listing name = ground arith

-- The whole swap by entries puts the staged entries in place.
abbrev live_entry : String → Disk ℕ → Option ℕ
live_entry name d = elim d.vault.live [ none ↦ none | some t ↦ t name ]

abbrev after_install : Disk ℕ
after_install = perform_all (swap_tree vault_tree refused live_names staged_names) before_install

swapped_inbox : live_entry "inbox" after_install ≡ some 3
unfolding perform_all swap_tree per_entry_swap jobs_actions swap_jobs removals job_actions journaled
    swaps additions perform set_place move_staged_name_place with_entry place move_live_name_place
    make_backup_place put_entry entry drop_newest mark_newest
swapped_inbox = refl

-- A crash after the old inbox has moved aside and the new one has moved in.
swap_tree-crash_safe_example :
    (place vault_tree (
      rollback_tree vault_tree (
        perform_all
          (first 11 (swap_tree vault_tree refused live_names staged_names))
          before_install))).live
    ≡ some old_notes
unfolding place
swap_tree-crash_safe_example =
    swap_tree-crash_safe vault_tree refused live_names staged_names old_notes new_notes 11
      before_install refl refl old_notes-Listing refl refl
