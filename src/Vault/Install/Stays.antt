-- ===== src/Vault/Install/Stays.antt =====
-- The journaled blocks of a swap and what a rollback would leave of a tree at each of their
-- actions (scripts/vault_recovery_restore_core.py).
use josemar_assistente.Base.{
  ℕ, zero, suc, ◌≡◌, refl, sym, ap, ◌∙◌, Option, List, [], ◌∷◌, ◌++◌, Bool-cases, inl, inr,
}
use josemar_assistente.Vault.Install.Disk.{
  TreeName, gbrain_tree, vault_tree, same_tree, Op, Step, Tree, Place, Disk, place, set_place,
  pending, Action, append_step, mark_step_done, perform, perform_all, mark_newest,
}
use josemar_assistente.Vault.Install.Swap.{journaled}
use josemar_assistente.Vault.Install.Rollback.{undo, undo_all}
use josemar_assistente.Vault.Install.Undo.{core, core-undo}

-- `actions[:n]`
abbrev pub first {ℓ} : {A : Type ℓ} → ℕ → List A → List A
first zero xs = []
first (suc n) [] = []
first (suc n) (x ∷ xs) = x ∷ first n xs

module _ {C : Type 0} where
  -- What a rollback would leave of a tree, its staged tree aside.
  abbrev pub undone : TreeName → Disk C → Place C
  undone tree d = undo_all tree d.steps (core (place tree d))

  -- At the disk and after each of the actions, a rollback leaves the same.
  abbrev pub Stays : TreeName → Option (Tree C) → List Action → Disk C → Type 0
  Stays tree goal [] d = (undone tree d).live ≡ goal
  Stays tree goal (a ∷ actions) d =
      ((undone tree d).live ≡ goal) × Stays tree goal actions (perform a d)

  pub Stays-first :
      (tree : TreeName) (goal : Option (Tree C)) (n : ℕ) (actions : List Action) (d : Disk C)
      → Stays tree goal actions d
      → (undone tree (perform_all (first n actions) d)).live ≡ goal
  unfolding perform_all
  Stays-first tree goal zero [] d s = s
  Stays-first tree goal zero (a ∷ actions) d s = s.0
  Stays-first tree goal (suc n) [] d s = s
  Stays-first tree goal (suc n) (a ∷ actions) d s =
      Stays-first tree goal n actions (perform a d) s.1

  pub core-undo_all :
      (tree : TreeName) (steps : List Step) (p : Place C)
      → core (undo_all tree steps p) ≡ undo_all tree steps (core p)
  unfolding undo_all
  core-undo_all tree [] p = refl
  core-undo_all tree (s ∷ steps) p = elim (Bool-cases (same_tree s.tree tree)) [
    | inl own ↦ rw own (core-undo_all tree steps (undo s.op p) ∙ rw (core-undo s.op p) refl)
    | inr other ↦ rw other (core-undo_all tree steps p)
  ]

  undone-append :
      (tree : TreeName) (op : Op) (p : Place C) (d : Disk C)
      → undo op (core p) ≡ core (place tree d)
      → undone tree (set_place tree p (perform (append_step tree op) d)) ≡ undone tree d
  unfolding undo_all same_tree set_place place perform
  undone-append gbrain_tree op p d e = ap (λ (q : Place C). undo_all gbrain_tree d.steps q) e
  undone-append vault_tree op p d e = ap (λ (q : Place C). undo_all vault_tree d.steps q) e

  undone-mark :
      (tree : TreeName) (p : Place C) (step : Step) (d : Disk C) (steps : List Step)
      → d.steps ≡ step ∷ steps
      → undone tree (perform mark_step_done d) ≡ undone tree d
  unfolding undo_all mark_newest perform place
  undone-mark gbrain_tree p step d steps e = rw (e, undo_all, mark_newest) refl
  undone-mark vault_tree p step d steps e = rw (e, undo_all, mark_newest) refl

  pub undone-pending :
      (tree : TreeName) (op : Op) (d : Disk C)
      → undo op (core (place tree d)) ≡ core (place tree d)
      → undone tree (perform (append_step tree op) d) ≡ undone tree d
  unfolding undo_all same_tree place perform
  undone-pending gbrain_tree op d e = ap (λ (q : Place C). undo_all gbrain_tree d.steps q) e
  undone-pending vault_tree op d e = ap (λ (q : Place C). undo_all vault_tree d.steps q) e

  pub place-append :
      (tree : TreeName) (op : Op) (d : Disk C)
      → place tree (perform (append_step tree op) d) ≡ place tree d
  unfolding place perform
  place-append gbrain_tree op d = refl
  place-append vault_tree op d = refl

  place-marked :
      (tree : TreeName) (q : Place C) (d : Disk C)
      → place tree (perform mark_step_done (set_place tree q d)) ≡ q
  unfolding place perform set_place
  place-marked gbrain_tree q d = refl
  place-marked vault_tree q d = refl

  steps-moved :
      (tree : TreeName) (op : Op) (q : Place C) (d : Disk C)
      → (set_place tree q (perform (append_step tree op) d)).steps
        ≡ record { tree = tree; op = op; state = pending } ∷ d.steps
  unfolding perform set_place
  steps-moved gbrain_tree op q d = refl
  steps-moved vault_tree op q d = refl

  -- The action is a rename that turns the place `p` into `q`.
  abbrev pub Moves : TreeName → Action → Place C → Place C → Type 0
  Moves tree a p q = (d : Disk C) → place tree d ≡ p → perform a d ≡ set_place tree q d

  -- What follows stays at any disk with the place `q`.
  abbrev pub Continues : TreeName → Option (Tree C) → List Action → Place C → Type 0
  Continues tree goal actions q =
      (d : Disk C) → place tree d ≡ q → (undone tree d).live ≡ goal → Stays tree goal actions d

  -- A journaled rename that its step undoes, whether it has happened or not.
  pub Stays-journaled :
      (tree : TreeName) (op : Op) (a : Action) (p q : Place C) (goal : Option (Tree C))
      (actions : List Action)
      → Moves tree a p q
      → undo op (core p) ≡ core p
      → undo op (core q) ≡ core p
      → Continues tree goal actions q
      → Continues tree goal (journaled tree op a ++ actions) p
  unfolding journaled
  Stays-journaled tree op a p q goal actions moves before after next d at ok =
      let d1 = perform (append_step tree op) d in
      let moved : perform a d1 ≡ set_place tree q d1 = moves d1 (place-append tree op d ∙ at) in
      let ok1 : (undone tree d1).live ≡ goal =
        ap (λ (p : Place C). p.live) (undone-pending tree op d (rw at before)) ∙ ok in
      let ok2 : (undone tree (set_place tree q d1)).live ≡ goal =
        ap (λ (p : Place C). p.live) (undone-append tree op q d (after ∙ sym (ap core at))) ∙ ok in
      let ok3 =
        ap (λ (p : Place C). p.live)
          (undone-mark tree q _ (set_place tree q d1) d.steps (steps-moved tree op q d))
        ∙ ok2 in
      let later : Stays tree goal actions (perform mark_step_done (set_place tree q d1)) =
        next _ (place-marked tree q d1) ok3 in
      (ok, (ok1, rw moved (ok2, later)))
