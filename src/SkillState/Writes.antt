-- ===== src/SkillState/Writes.antt =====
-- Reading a configuration after the writes of the overlay and of its rollback (`_set_nested` and
-- `_del_nested` of scripts/josemar_skill_state.py, at one state-owned path after the other).
use josemar_assistente.Base.{
  String, ◌≡◌, refl, ◌∙◌, ◌⊎◌, inl, inr, Bool, true, false, ◌&&◌, ◌||◌, Option, none, some, List,
  [], ◌∷◌, all, any, arith, str_eq, eq_iff, Bool-cases,
}
use josemar_assistente.Base.Json.{Json, null, bool, num, str, arr, obj, Fields}
use josemar_assistente.SkillState.Nested.{set_nested, get_nested, unset_nested, diverges}
use josemar_assistente.SkillState.Reads.{get_nested-put_nested_text, get_nested-put_nested_other}
use josemar_assistente.SkillState.Deletes.{
  get_nested-delete_nested_self, get_nested-delete_nested_other,
}
use josemar_assistente.SkillState.Models.{each_path, write_value}
use josemar_assistente.SkillState.Restore.{restore_value}

-- Two paths are the same.
abbrev pub same_path : List String → List String → Bool
same_path [] [] = true
same_path (a ∷ p) (b ∷ q) = str_eq a b && same_path p q
same_path p q = false

-- A path is the same as another one or diverges from it.
abbrev pub is_apart : List String → List String → Bool
is_apart p q = same_path p q || diverges p q

pub same_path-eq : (p q : List String) → same_path p q ≡ true → p ≡ q
same_path-eq [] [] e = refl
same_path-eq [] (b ∷ q) e = ground arith
same_path-eq (a ∷ p) [] e = ground arith
same_path-eq (a ∷ p) (b ∷ q) e = ground (arith, eq_iff a b, same_path-eq p q)

-- A step for each path that leaves what is elsewhere, and that sets what is at its own path
module _ (step : List String → Fields × Bool → Fields × Bool)
    (other : (p q : List String) (s : Fields × Bool)
      → diverges p q ≡ true
      → get_nested q (step p s).0 ≡ get_nested q s.0) where
  -- What is at a path that diverges from every written path stays.
  pub get_nested-each_path_other :
      (ps : List (List String)) (q : List String) (s : Fields × Bool)
      → all (λ p. diverges p q) ps ≡ true
      → get_nested q (each_path step ps s).0 ≡ get_nested q s.0
  get_nested-each_path_other [] q s d = refl
  get_nested-each_path_other (p ∷ ps) q s d =
      get_nested-each_path_other ps q (step p s) (ground arith) ∙ other p q s (ground arith)

  module _ (q : List String) (target : Option Json)
      (own : (s : Fields × Bool) → get_nested q (step q s).0 ≡ target) where
    get_nested-step :
        (p : List String) (s : Fields × Bool)
        → is_apart p q ≡ true
        → (same_path p q ≡ true) ⊎ (get_nested q s.0 ≡ target)
        → get_nested q (step p s).0 ≡ target
    get_nested-step p s a h = elim (Bool-cases (same_path p q)) [
      | inl same_one ↦ rw (same_path-eq p q same_one) (own s)
      | inr apart ↦ elim h [
        | inl same_one ↦ ground arith
        | inr there ↦ other p q s (ground arith) ∙ there
      ]
    ]

    get_nested-each_path_kept :
        (ps : List (List String)) (s : Fields × Bool)
        → all (λ p. is_apart p q) ps ≡ true
        → get_nested q s.0 ≡ target
        → get_nested q (each_path step ps s).0 ≡ target
    get_nested-each_path_kept [] s a there = there
    get_nested-each_path_kept (p ∷ ps) s a there =
        get_nested-each_path_kept ps (step p s) (ground arith)
          (get_nested-step p s (ground arith) (inr there))

    -- The path's own step is the last word on it.
    pub get_nested-each_path_own :
        (ps : List (List String)) (s : Fields × Bool)
        → all (λ p. is_apart p q) ps ≡ true
        → (any (λ p. same_path p q) ps ≡ true) ⊎ (get_nested q s.0 ≡ target)
        → get_nested q (each_path step ps s).0 ≡ target
    get_nested-each_path_own ps s a (inr there) = get_nested-each_path_kept ps s a there
    get_nested-each_path_own [] s a (inl one) = ground arith
    get_nested-each_path_own (p ∷ ps) s a (inl one) = elim (Bool-cases (same_path p q)) [
      | inl same_one ↦
          get_nested-each_path_kept ps (step p s) (ground arith)
            (get_nested-step p s (ground arith) (inl same_one))
      | inr apart ↦ get_nested-each_path_own ps (step p s) (ground arith) (inl (ground arith))
    ]

pub get_nested-write_value_other :
    (o : Option Json) (p q : List String) (s : Fields × Bool)
    → diverges p q ≡ true
    → get_nested q (write_value p o s).0 ≡ get_nested q s.0
unfolding write_value set_nested
get_nested-write_value_other none p q s d = refl
get_nested-write_value_other (some value) p q s d = get_nested-put_nested_other p q value s.0 d

pub get_nested-write_value_own :
    (k : String) (q : List String) (text : String) (o : Option Json) (s : Fields × Bool)
    → o ≡ some (str text)
    → get_nested (k ∷ q) (write_value (k ∷ q) o s).0 ≡ some (str text)
unfolding write_value set_nested
get_nested-write_value_own k q text o s e = rw e (get_nested-put_nested_text k q text s.0)

pub get_nested-restore_value_other :
    (o : Option Json) (p q : List String) (s : Fields × Bool)
    → diverges p q ≡ true
    → get_nested q (restore_value p o s).0 ≡ get_nested q s.0
unfolding restore_value set_nested unset_nested
get_nested-restore_value_other none p q s d = get_nested-delete_nested_other p q s.0 d
get_nested-restore_value_other (some value) p q s d = get_nested-put_nested_other p q value s.0 d

-- A text or nothing
unfoldable pub is_text_or_none : Option Json → Bool
is_text_or_none none = true
is_text_or_none (some (str text)) = true
is_text_or_none (some value) = false

pub get_nested-restore_value_own :
    (k : String) (q : List String) (o : Option Json) (s : Fields × Bool)
    → is_text_or_none o ≡ true
    → get_nested (k ∷ q) (restore_value (k ∷ q) o s).0 ≡ o
unfolding restore_value set_nested unset_nested is_text_or_none
get_nested-restore_value_own k q none s e = get_nested-delete_nested_self (k ∷ q) s.0
get_nested-restore_value_own k q (some (str text)) s e = get_nested-put_nested_text k q text s.0
get_nested-restore_value_own k q (some null) s e = ground arith
get_nested-restore_value_own k q (some (bool b)) s e = ground arith
get_nested-restore_value_own k q (some (num n)) s e = ground arith
get_nested-restore_value_own k q (some (arr xs)) s e = ground arith
get_nested-restore_value_own k q (some (obj fs)) s e = ground arith
