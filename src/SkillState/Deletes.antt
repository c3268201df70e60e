-- ===== src/SkillState/Deletes.antt =====
-- Reading at one path after deleting at another (`_del_nested` of scripts/josemar_skill_state.py).
use josemar_assistente.Base.{
  String, ◌≡◌, refl, ap, ◌∙◌, true, false, Option, none, some, List, [], ◌∷◌, arith, str_eq, eq_iff,
  Bool-cases, inl, inr,
}
use josemar_assistente.Base.Fields.{get, delete, get-delete}
use josemar_assistente.Base.Json.{Json, null, bool, num, str, arr, obj, Fields, end}
use josemar_assistente.SkillState.Nested.{child_of, get_nested, is_mapping, delete_nested, diverges}
use josemar_assistente.SkillState.Reads.{get_nested-cong, get_nested-put_other, child_of-put}

pub get_nested_end : (q : List String) → get_nested q end ≡ none
unfolding get_nested get
get_nested_end [] = refl
get_nested_end (b ∷ []) = refl
get_nested_end (b ∷ c ∷ q) = get_nested_end (c ∷ q)

child_none : (o : Option Json) → is_mapping o ≡ false → child_of o ≡ end
child_none none e = refl
child_none (some null) e = refl
child_none (some (bool b)) e = refl
child_none (some (num n)) e = refl
child_none (some (str s)) e = refl
child_none (some (arr xs)) e = refl
child_none (some (obj fs)) e = ground arith

-- A deleted path is gone.
pub get_nested-delete_nested_self :
    (p : List String) (node : Fields) → get_nested p (delete_nested p node) ≡ none
unfolding get_nested delete_nested
get_nested-delete_nested_self [] node = refl
get_nested-delete_nested_self (k ∷ []) node = get-delete k k node ∙ rw ((eq_iff k k).1 refl) refl
get_nested-delete_nested_self (k ∷ j ∷ p) node = elim (Bool-cases (is_mapping (get k node))) [
  | inl within ↦ rw within (
      ap (get_nested (j ∷ p)) (
        child_of-put k k (delete_nested (j ∷ p) (child_of (get k node))) node ((eq_iff k k).1 refl))
      ∙ get_nested-delete_nested_self (j ∷ p) (child_of (get k node)))
  | inr none_there ↦
      rw none_there
        (ap (get_nested (j ∷ p)) (child_none (get k node) none_there) ∙ get_nested_end (j ∷ p))
]

-- Deleting at one path leaves what is at a diverging one.
pub get_nested-delete_nested_other :
    (p q : List String) (node : Fields)
    → diverges p q ≡ true
    → get_nested q (delete_nested p node) ≡ get_nested q node
unfolding delete_nested get_nested
get_nested-delete_nested_other [] q node d = ground arith
get_nested-delete_nested_other (k ∷ p) [] node d = ground arith
get_nested-delete_nested_other (k ∷ []) (b ∷ q) node d = elim (Bool-cases (str_eq k b)) [
  | inl own ↦ ground arith
  | inr apart ↦ get_nested-cong b q (delete k node) node (get-delete k b node ∙ rw apart refl)
]
get_nested-delete_nested_other (k ∷ j ∷ p) (b ∷ []) node d = elim (Bool-cases (str_eq k b)) [
  | inl own ↦ ground arith
  | inr apart ↦ elim (Bool-cases (is_mapping (get k node))) [
    | inl within ↦ rw within (get_nested-put_other k b [] _ node apart)
    | inr none_there ↦ rw none_there refl
  ]
]
get_nested-delete_nested_other (k ∷ j ∷ p) (b ∷ c ∷ q) node d =
    elim (Bool-cases (is_mapping (get k node))) [
      | inr none_there ↦ rw none_there refl
      | inl within ↦ rw within (elim (Bool-cases (str_eq k b)) [
        | inr apart ↦ get_nested-put_other k b (c ∷ q) _ node apart
        | inl own ↦
            let here : get k node ≡ get b node =
              ap (λ (x : String). get x node) ((eq_iff k b).0 own) in
            let below : diverges (j ∷ p) (c ∷ q) ≡ true = ground arith in
            ap (get_nested (c ∷ q))
              (child_of-put k b (delete_nested (j ∷ p) (child_of (get k node))) node own)
            ∙ (get_nested-delete_nested_other (j ∷ p) (c ∷ q) (child_of (get k node)) below
                ∙ ap (λ (o : Option Json). get_nested (c ∷ q) (child_of o)) here)
      ])
    ]
