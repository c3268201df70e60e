-- ===== src/Vault/Install/Undo.antt =====
-- Undoing one step of a place, before and after its rename (`_rollback_tree` of
-- scripts/vault_recovery_restore_core.py). What a rollback does is read off `core`: it neither reads
-- nor restores the staged tree.
use mathlib.Core.Path.{fun_ext}
use josemar_assistente.Base.{String, ◌≡◌, refl, sym, ap, ◌∙◌, Option, none, some, arith, eq_iff}
use josemar_assistente.Vault.Install.Disk.{
  Op, move_live_tree, move_staged_tree, remove_entry, move_live_entry, move_staged_entry, add_entry,
  Tree, Place, put_entry, entry, with_entry, move_live_name_place,
}
use josemar_assistente.Vault.Install.Rollback.{restore_name, undo}

module _ {C : Type 0} where
  unfoldable pub core : Place C → Place C
  core p = record p { staged = none }

  pub core-undo : (op : Op) (p : Place C) → core (undo op p) ≡ undo op (core p)
  unfolding core undo restore_name
  core-undo move_live_tree p = ground arith
  core-undo move_staged_tree p = ground arith
  core-undo (remove_entry name) p = ground arith
  core-undo (move_live_entry name) p = ground arith
  core-undo (move_staged_entry name) p = ground arith
  core-undo (add_entry name) p = refl

  pub put_entry_same : (name : String) (t : Tree C) → put_entry name (t name) t ≡ t
  unfolding put_entry
  put_entry_same name t = fun_ext λ other. ground (arith, eq_iff name other)

  pub put_entry_twice :
      (name : String) (a b : Option C) (t : Tree C)
      → put_entry name a (put_entry name b t) ≡ put_entry name a t
  unfolding put_entry
  put_entry_twice name a b t = fun_ext λ other. ground arith

  pub put_entry_at : (name : String) (a : Option C) (t : Tree C) → put_entry name a t name ≡ a
  unfolding put_entry
  put_entry_at name a t = ground (arith, eq_iff name name)

  -- Putting back what was there.
  put_entry_back :
      (name : String) (a b : Option C) (t : Tree C)
      → t name ≡ a
      → put_entry name a (put_entry name b t) ≡ t
  put_entry_back name a b t e =
      put_entry_twice name a b t
      ∙ (ap (λ (c : Option C). put_entry name c t) (sym e) ∙ put_entry_same name t)

  -- Before the rename of a live entry, and after it.
  pub restore_name-before :
      (name : String) (p : Place C)
      → entry p.backup name ≡ none
      → restore_name name (core p) ≡ core p
  unfolding restore_name core
  restore_name-before name p e = rw e refl

  pub put_entry_unchanged :
      (name : String) (a : Option C) (t : Tree C) → t name ≡ a → put_entry name a t ≡ t
  put_entry_unchanged name a t e =
      ap (λ (c : Option C). put_entry name c t) (sym e) ∙ put_entry_same name t

  restored :
      (name : String) (l b : Tree C) (s : Option (Tree C)) (c : Option C)
      → l name ≡ c
      → b name ≡ none
      → restore_name name
          (core (move_live_name_place name (record { live = some l; backup = some b; staged = s })))
        ≡ record { live = some l; backup = some b; staged = none }
  unfolding restore_name core move_live_name_place with_entry entry
  restored name l b s none here absent =
      rw
        (
          put_entry_at name (l name) b,
          here,
          put_entry_unchanged name none l here,
          put_entry_unchanged name none b absent,
        )
        refl
  restored name l b s (some c) here absent =
      rw
        (
          put_entry_at name (l name) b,
          here,
          put_entry_back name (some c) none l here,
          put_entry_back name none (some c) b absent,
        )
        refl

  pub restore_name-after :
      (name : String) (l b : Tree C) (s : Option (Tree C))
      → b name ≡ none
      → restore_name name
          (core (move_live_name_place name (record { live = some l; backup = some b; staged = s })))
        ≡ record { live = some l; backup = some b; staged = none }
  restore_name-after name l b s = restored name l b s (l name) refl
