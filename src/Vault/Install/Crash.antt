-- ===== src/Vault/Install/Crash.antt =====
-- A crash during the install of one tree, and the rollback after it (`_swap_tree` and
-- `_rollback_tree` of scripts/vault_recovery_restore_core.py).
use josemar_assistente.Base.{
  ℕ, String, ◌≡◌, refl, ap, ◌∙◌, Bool, true, not, Option, none, some, List, [], ◌∷◌, arith, all,
  distinct, Bool-cases, inl, inr,
}
use josemar_assistente.Vault.Install.Disk.{
  TreeName, gbrain_tree, vault_tree, same_tree, Op, move_live_tree, move_staged_tree, Step, Tree,
  Place, Disk, place, set_place, append_step, drop_step, move_live, move_staged, perform,
  perform_all, move_live_place, move_staged_place, make_backup_place, drop_newest, no_entries,
}
use josemar_assistente.Vault.Install.Swap.{
  RootRename, renamed, refused, broken, journaled, atomic_swap, swap_jobs, per_entry_swap,
  swap_tree,
}
use josemar_assistente.Vault.Install.Rollback.{undo, undo_all, rollback_tree}
use josemar_assistente.Vault.Install.Undo.{core}
use josemar_assistente.Vault.Install.Stays.{
  first, undone, Stays, Stays-first, core-undo_all, Stays-journaled, Continues, undone-pending,
}
use josemar_assistente.Vault.Install.Loops.{amid, Continues-jobs}
use josemar_assistente.Vault.Install.Plan.{Listing, Ready-swap_jobs}

-- The journal has no step of the tree.
abbrev pub no_steps : TreeName → List Step → Bool
no_steps tree steps = all (λ s. not (same_tree s.tree tree)) steps

module _ {C : Type 0} where
  pub undo_all-none :
      (tree : TreeName) (steps : List Step) (p : Place C)
      → no_steps tree steps ≡ true
      → undo_all tree steps p ≡ p
  unfolding undo_all
  undo_all-none tree [] p e = refl
  undo_all-none tree (s ∷ steps) p e = elim (Bool-cases (same_tree s.tree tree)) [
    | inl own ↦ ground (arith)
    | inr other ↦ rw other (undo_all-none tree steps p (ground arith))
  ]

  -- A place before its install.
  abbrev pub staged_place : Tree C → Tree C → Place C
  staged_place l s = record { live = some l; backup = none; staged = some s }

  Continues-atomic :
      (tree : TreeName) (goal : Option (Tree C)) (l s : Tree C)
      → Continues tree goal (atomic_swap tree) (staged_place l s)
  unfolding atomic_swap undo core perform move_live_place move_staged_place journaled
  Continues-atomic tree goal l s =
      Stays-journaled tree move_live_tree (move_live tree) (staged_place l s)
        (move_live_place (staged_place l s)) goal
        (journaled tree move_staged_tree (move_staged tree))
        (λ d at. ap (λ (p : Place C). set_place tree (move_live_place p) d) at) refl refl
        (Stays-journaled tree move_staged_tree (move_staged tree)
          (move_live_place (staged_place l s))
          (move_staged_place (move_live_place (staged_place l s))) goal []
          (λ d at. ap (λ (p : Place C). set_place tree (move_staged_place p) d) at) refl refl
          (λ d at ok. ok))

  pub place-set_place :
      (tree : TreeName) (p : Place C) (d : Disk C) → place tree (set_place tree p d) ≡ p
  unfolding place set_place
  place-set_place gbrain_tree p d = refl
  place-set_place vault_tree p d = refl

  pub steps-set_place :
      (tree : TreeName) (p : Place C) (d : Disk C) → (set_place tree p d).steps ≡ d.steps
  unfolding set_place
  steps-set_place gbrain_tree p d = refl
  steps-set_place vault_tree p d = refl

  undone-none :
      (tree : TreeName) (p : Place C) (d : Disk C)
      → no_steps tree d.steps ≡ true
      → place tree d ≡ p
      → undone tree d ≡ core p
  undone-none tree p d e at = undo_all-none tree d.steps (core (place tree d)) e ∙ ap core at

  Stays-per_entry :
      (tree : TreeName) (live staged : List String) (l s : Tree C) (d : Disk C)
      → place tree d ≡ staged_place l s
      → no_steps tree d.steps ≡ true
      → Listing live l
      → distinct live ≡ true
      → distinct staged ≡ true
      → Stays tree (some l) (per_entry_swap tree live staged) d
  unfolding per_entry_swap perform make_backup_place core
  Stays-per_entry tree live staged l s d at clean listed once_live once_staged =
      let d1 = set_place tree (make_backup_place (place tree d)) d in
      let at1 : place tree d1 ≡ amid l no_entries s =
        place-set_place tree (make_backup_place (place tree d)) d ∙ ap make_backup_place at in
      let clean1 : no_steps tree d1.steps ≡ true =
        ap (no_steps tree) (steps-set_place tree (make_backup_place (place tree d)) d) ∙ clean in
      (
        ap (λ (p : Place C). p.live) (undone-none tree (staged_place l s) d clean at),
        Continues-jobs tree (some l) (swap_jobs live staged) l no_entries s
            (Ready-swap_jobs live staged l no_entries listed once_live once_staged (λ name. refl))
            d1 at1
            (ap (λ (p : Place C). p.live) (undone-none tree (amid l no_entries s) d1 clean1 at1)),
      )

  dropped :
      (tree : TreeName) (op : Op) (d : Disk C)
      → perform drop_step (perform (append_step tree op) d) ≡ d
  unfolding perform drop_newest
  dropped tree op d = refl

  live-pending :
      (tree : TreeName) (l s : Tree C) (d : Disk C)
      → place tree d ≡ staged_place l s
      → (undone tree d).live ≡ some l
      → (undone tree (perform (append_step tree move_live_tree) d)).live ≡ some l
  unfolding undo core
  live-pending tree l s d at ok =
      ap (λ (p : Place C). p.live) (undone-pending tree move_live_tree d (rw at refl)) ∙ ok

  Stays-swap_tree :
      (tree : TreeName) (outcome : RootRename) (live staged : List String) (l s : Tree C)
      (d : Disk C)
      → place tree d ≡ staged_place l s
      → no_steps tree d.steps ≡ true
      → Listing live l
      → distinct live ≡ true
      → distinct staged ≡ true
      → Stays tree (some l) (swap_tree tree outcome live staged) d
  unfolding swap_tree core
  Stays-swap_tree tree renamed live staged l s d at clean listed once_live once_staged =
      Continues-atomic tree (some l) l s d at
        (ap (λ (p : Place C). p.live) (undone-none tree (staged_place l s) d clean at))
  Stays-swap_tree tree refused live staged l s d at clean listed once_live once_staged =
      let ok = ap (λ (p : Place C). p.live) (undone-none tree (staged_place l s) d clean at) in
      (
        ok,
        (
          live-pending tree l s d at ok,
          rw (dropped tree move_live_tree d)
              (Stays-per_entry tree live staged l s d at clean listed once_live once_staged),
        ),
      )
  Stays-swap_tree tree broken live staged l s d at clean listed once_live once_staged =
      let ok = ap (λ (p : Place C). p.live) (undone-none tree (staged_place l s) d clean at) in
      (ok, live-pending tree l s d at ok)

  rolled-live :
      (tree : TreeName) (d : Disk C)
      → (place tree (rollback_tree tree d)).live ≡ (undone tree d).live
  unfolding rollback_tree place set_place core
  rolled-live gbrain_tree d =
      ap (λ (p : Place C). p.live) (core-undo_all gbrain_tree d.steps (place gbrain_tree d))
  rolled-live vault_tree d =
      ap (λ (p : Place C). p.live) (core-undo_all vault_tree d.steps (place vault_tree d))

  -- Let a tree be live and its replacement staged, with no backup and no journaled step of it, and
  -- let the two listings name no entry twice, the live one naming exactly the live entries. However
  -- the rename of the root goes, and after however many of the swap's durable actions a crash
  -- comes, a rollback leaves the live tree as it was, entry by entry.
  pub swap_tree-crash_safe :
      (tree : TreeName) (outcome : RootRename) (live staged : List String) (l s : Tree C) (n : ℕ)
      (d : Disk C)
      → place tree d ≡ staged_place l s
      → no_steps tree d.steps ≡ true
      → Listing live l
      → distinct live ≡ true
      → distinct staged ≡ true
      → (place tree
          (rollback_tree tree (perform_all (first n (swap_tree tree outcome live staged)) d))).live
        ≡ some l
  swap_tree-crash_safe tree outcome live staged l s n d at clean listed once_live once_staged =
      rolled-live tree (perform_all (first n (swap_tree tree outcome live staged)) d)
      ∙ Stays-first tree (some l) n (swap_tree tree outcome live staged) d
          (Stays-swap_tree tree outcome live staged l s d at clean listed once_live once_staged)
