-- ===== src/Vault/Install/Loops.antt =====
-- The loops of `_per_entry_swap` (scripts/vault_recovery_restore_core.py), one entry at a time,
-- and what a job needs of its entry.
use mathlib.Core.Path.{subst}
use josemar_assistente.Base.{
  String, ◌≡◌, refl, ap, ◌∙◌, Bool, true, false, Option, none, some, List, [], ◌∷◌, ◌++◌, ◌||◌,
  arith, str_eq, eq_iff,
}
use josemar_assistente.Vault.Install.Disk.{
  TreeName, Op, remove_entry, move_live_entry, move_staged_entry, add_entry, Tree, Place, set_place,
  put_entry, entry, with_entry, Action, move_live_name, move_staged_name, perform,
  move_live_name_place, move_staged_name_place,
}
use josemar_assistente.Vault.Install.Swap.{
  Job, remove_job, swap_job, add_job, job_actions, jobs_actions, journaled,
}
use josemar_assistente.Vault.Install.Rollback.{exists, undo, restore_name}
use josemar_assistente.Vault.Install.Undo.{
  core, put_entry_same, put_entry_at, put_entry_twice, put_entry_unchanged, restore_name-before,
  restore_name-after,
}
use josemar_assistente.Vault.Install.Stays.{Moves, Continues, Stays-journaled}

abbrev pub name_of : Job → String
name_of (remove_job name) = name
name_of (swap_job name) = name
name_of (add_job name) = name

-- Some job is about the name.
abbrev pub busy : String → List Job → Bool
busy name [] = false
busy name (job ∷ jobs) = str_eq (name_of job) name || busy name jobs

module _ {C : Type 0} where
  -- What a job needs of its entry in the live tree and in the backup.
  abbrev pub Fits : Job → Tree C → Tree C → Type 0
  Fits (remove_job name) l b = b name ≡ none
  Fits (swap_job name) l b = (b name ≡ none) × (exists (l name) ≡ true)
  Fits (add_job name) l b = l name ≡ none

  -- Each job fits its entry, and no two are about one name.
  abbrev pub Ready : List Job → Tree C → Tree C → Type 0
  Ready [] l b = Unit
  Ready (job ∷ jobs) l b = Fits job l b × ((busy (name_of job) jobs ≡ false) × Ready jobs l b)

  -- Two trees have the same entries at every name but one.
  put_entry_other :
      (name other : String) (c : Option C) (t : Tree C)
      → str_eq other name ≡ false
      → put_entry name c t other ≡ t other
  unfolding put_entry
  put_entry_other name other c t e = ground (arith, eq_iff name other, eq_iff other name)

  Fits-put :
      (name : String) (job : Job) (x y : Option C) (l b : Tree C)
      → str_eq (name_of job) name ≡ false
      → Fits job l b
      → Fits job (put_entry name x l) (put_entry name y b)
  Fits-put name (remove_job n) x y l b e fits = put_entry_other name n y b e ∙ fits
  Fits-put name (swap_job n) x y l b e fits =
      (put_entry_other name n y b e ∙ fits.0, rw (put_entry_other name n x l e) fits.1)
  Fits-put name (add_job n) x y l b e fits = put_entry_other name n x l e ∙ fits

  Ready-put :
      (name : String) (jobs : List Job) (x y : Option C) (l b : Tree C)
      → busy name jobs ≡ false
      → Ready jobs l b
      → Ready jobs (put_entry name x l) (put_entry name y b)
  Ready-put name [] x y l b e ready = tt
  Ready-put name (job ∷ jobs) x y l b e ready = (
    Fits-put name job x y l b (ground (arith)) ready.0,
    (ready.1.0, Ready-put name jobs x y l b (ground arith) ready.1.1),
  )

  Moves-live :
      (tree : TreeName) (name : String) (p : Place C)
      → Moves tree (move_live_name tree name) p (move_live_name_place name p)
  unfolding perform
  Moves-live tree name p d at =
      ap (λ (p : Place C). set_place tree (move_live_name_place name p) d) at

  Moves-staged :
      (tree : TreeName) (name : String) (p : Place C)
      → Moves tree (move_staged_name tree name) p (move_staged_name_place name p)
  unfolding perform
  Moves-staged tree name p d at =
      ap (λ (p : Place C). set_place tree (move_staged_name_place name p) d) at

  -- A place that is amid a swap by entries.
  abbrev pub amid : Tree C → Tree C → Tree C → Place C
  amid l b s = record { live = some l; backup = some b; staged = some s }

  aside-before :
      (name : String) (l b s : Tree C)
      → b name ≡ none
      → restore_name name (core (amid l b s)) ≡ core (amid l b s)
  unfolding core entry
  aside-before name l b s e = restore_name-before name (amid l b s) e

  aside-after :
      (name : String) (l b s : Tree C)
      → b name ≡ none
      → restore_name name (core (move_live_name_place name (amid l b s))) ≡ core (amid l b s)
  unfolding core
  aside-after name l b s e = restore_name-after name l b (some s) e

  staged-before :
      (name : String) (l b s : Tree C)
      → exists (b name) ≡ true
      → l name ≡ none
      → undo (move_staged_entry name) (core (amid l b s)) ≡ core (amid l b s)
  unfolding undo core entry with_entry
  staged-before name l b s there gone = rw (there, put_entry_unchanged name none l gone) refl

  staged-after :
      (name : String) (l b s : Tree C)
      → exists (b name) ≡ true
      → l name ≡ none
      → undo (move_staged_entry name) (core (move_staged_name_place name (amid l b s)))
        ≡ core (amid l b s)
  unfolding undo core entry with_entry move_staged_name_place
  staged-after name l b s there gone =
      rw (there, put_entry_twice name none (s name) l, put_entry_unchanged name none l gone) refl

  add-before :
      (name : String) (l b s : Tree C)
      → l name ≡ none
      → undo (add_entry name) (core (amid l b s)) ≡ core (amid l b s)
  unfolding undo core entry with_entry
  add-before name l b s gone = rw (put_entry_unchanged name none l gone) refl

  add-after :
      (name : String) (l b s : Tree C)
      → l name ≡ none
      → undo (add_entry name) (core (move_staged_name_place name (amid l b s))) ≡ core (amid l b s)
  unfolding undo core entry with_entry move_staged_name_place
  add-after name l b s gone =
      rw (put_entry_twice name none (s name) l, put_entry_unchanged name none l gone) refl

  -- Moving an entry of the live tree aside.
  Continues-aside :
      (tree : TreeName) (op : Op) (name : String) (goal : Option (Tree C)) (actions : List Action)
      (l b s : Tree C)
      → ((p : Place C) → undo op p ≡ restore_name name p)
      → b name ≡ none
      → Continues tree goal actions (amid (put_entry name none l) (put_entry name (l name) b) s)
      → Continues tree goal (journaled tree op (move_live_name tree name) ++ actions) (amid l b s)
  unfolding move_live_name_place with_entry entry
  Continues-aside tree op name goal actions l b s restores absent next =
      Stays-journaled tree op (move_live_name tree name) (amid l b s)
        (move_live_name_place name (amid l b s)) goal actions (Moves-live tree name (amid l b s))
        (restores _ ∙ aside-before name l b s absent) (restores _ ∙ aside-after name l b s absent)
        next

  -- Putting the staged entry into the live tree, the old one being in the backup.
  Continues-staged :
      (tree : TreeName) (name : String) (goal : Option (Tree C)) (actions : List Action)
      (l b s : Tree C)
      → exists (b name) ≡ true
      → l name ≡ none
      → Continues tree goal actions (amid (put_entry name (s name) l) b (put_entry name none s))
      → Continues tree goal
          (journaled tree (move_staged_entry name) (move_staged_name tree name) ++ actions)
          (amid l b s)
  unfolding move_staged_name_place with_entry entry
  Continues-staged tree name goal actions l b s there gone next =
      Stays-journaled tree (move_staged_entry name) (move_staged_name tree name) (amid l b s)
        (move_staged_name_place name (amid l b s)) goal actions
        (Moves-staged tree name (amid l b s)) (staged-before name l b s there gone)
        (staged-after name l b s there gone) next

  Continues-add :
      (tree : TreeName) (name : String) (goal : Option (Tree C)) (actions : List Action)
      (l b s : Tree C)
      → l name ≡ none
      → Continues tree goal actions (amid (put_entry name (s name) l) b (put_entry name none s))
      → Continues tree goal
          (journaled tree (add_entry name) (move_staged_name tree name) ++ actions)
          (amid l b s)
  unfolding move_staged_name_place with_entry entry
  Continues-add tree name goal actions l b s gone next =
      Stays-journaled tree (add_entry name) (move_staged_name tree name) (amid l b s)
        (move_staged_name_place name (amid l b s)) goal actions
        (Moves-staged tree name (amid l b s)) (add-before name l b s gone)
        (add-after name l b s gone) next

  Ready-live :
      (name : String) (jobs : List Job) (x : Option C) (l b : Tree C)
      → busy name jobs ≡ false
      → Ready jobs l b
      → Ready jobs (put_entry name x l) b
  Ready-live name jobs x l b e ready =
      subst (λ (t : Tree C). Ready jobs (put_entry name x l) t) (put_entry_same name b)
        (Ready-put name jobs x (b name) l b e ready)

  pub Continues-jobs :
      (tree : TreeName) (goal : Option (Tree C)) (jobs : List Job) (l b s : Tree C)
      → Ready jobs l b
      → Continues tree goal (jobs_actions tree jobs) (amid l b s)
  unfolding jobs_actions job_actions journaled undo
  Continues-jobs tree goal [] l b s ready = λ d at ok. ok
  Continues-jobs tree goal (remove_job name ∷ jobs) l b s ready =
      Continues-aside tree (remove_entry name) name goal (jobs_actions tree jobs) l b s (λ p. refl)
        ready.0
        (Continues-jobs tree goal jobs (put_entry name none l) (put_entry name (l name) b) s
          (Ready-put name jobs none (l name) l b ready.1.0 ready.1.1))
  Continues-jobs tree goal (swap_job name ∷ jobs) l b s ready =
      let l1 = put_entry name none l in
      let b1 = put_entry name (l name) b in
      Continues-aside tree (move_live_entry name) name goal
        (journaled tree (move_staged_entry name) (move_staged_name tree name)
          ++ jobs_actions tree jobs)
        l b s (λ p. refl) ready.0.0
        (Continues-staged tree name goal (jobs_actions tree jobs) l1 b1 s
          (ap exists (put_entry_at name (l name) b) ∙ ready.0.1) (put_entry_at name none l)
          (Continues-jobs tree goal jobs (put_entry name (s name) l1) b1 (put_entry name none s) (
            Ready-live name jobs (s name) l1 b1 ready.1.0
              (Ready-put name jobs none (l name) l b ready.1.0 ready.1.1))))
  Continues-jobs tree goal (add_job name ∷ jobs) l b s ready =
      Continues-add tree name goal (jobs_actions tree jobs) l b s ready.0 (
        Continues-jobs tree goal jobs (put_entry name (s name) l) b (put_entry name none s)
          (Ready-live name jobs (s name) l b ready.1.0 ready.1.1))
